-- ===== src/Server/Ingest/Idempotency.antt =====
-- What a request does for a new key, for a known one, and for one that has expired.
use gocourier.Common.{
  ℕ, suc, ◌+◌, ◌≤◌, ◌<◌, ◌≡◌, refl, true, false, none, some, String, str_eq, arith, ltb, ◌∙◌, ap,
}
use gocourier.Api.Types.{Channel, Priority}
use gocourier.Server.Failures.{Outcome, ok, err, err_not_found, err_duplicate}
use gocourier.Server.Schema.{IngestRequest, IngestResponse}
use gocourier.Server.Delivery.{Delivery}
use gocourier.Server.Ports
use gocourier.Server.Ports.{Op, Prog, done, fail, call, settle, Ingestion}
use gocourier.Server.Postgres.{Database, KeyRow, find_delivery, find_key, find_by_idempotency_key}
use gocourier.Server.Postgres.Queues.{
  ingest_transactional, ingest_steps, insert_delivery, insert_key,
}
use gocourier.Server.Run.{Env, System, perform, exec}
use gocourier.Server.Dispatch.Calm.{calm}
use gocourier.Server.Ingest.{Config, ingest, on_found, on_stored, ingestion_of, duplicate_of}
use gocourier.Server.Ingest.Stored.{
  IsNew, stored_db, ingest_steps-of_IsNew, stored_db_finds, key_row,
}
use gocourier.Server.Ingest.Runs.{IsValid, delivery_for, is_scheduled, ingest_valid, store_valid}

-- The search for a key that has not expired.
found_key :
    (at : ℕ) (k : String) (ch : Channel) (db : Database) (row : KeyRow) (d : Delivery)
    → find_key k ch db.idempotency_keys ≡ some row
    → at < row.expires_at
    → find_delivery row.delivery_id db.deliveries ≡ some d
    → find_by_idempotency_key at k ch db ≡ ok d
unfolding find_by_idempotency_key
found_key at k ch db row d keyed live found =
    let e : ltb at row.expires_at ≡ true = ground arith in rw (keyed, e, found) refl

-- The search for a key that has, or that is not there.
expired_key :
    (at : ℕ) (k : String) (ch : Channel) (db : Database) (row : KeyRow)
    → find_key k ch db.idempotency_keys ≡ some row
    → row.expires_at ≤ at
    → find_by_idempotency_key at k ch db ≡ err err_not_found
unfolding find_by_idempotency_key
expired_key at k ch db row keyed over =
    let e : ltb at row.expires_at ≡ false = ground arith in rw (keyed, e) refl

absent_key :
    (at : ℕ) (k : String) (ch : Channel) (db : Database)
    → find_key k ch db.idempotency_keys ≡ none
    → find_by_idempotency_key at k ch db ≡ err err_not_found
unfolding find_by_idempotency_key
absent_key at k ch db keyed = rw keyed refl

-- A key that is in the tables ends the transaction, whatever its time.
conflicting :
    (n : ℕ) (g : Ingestion) (db : Database) (row : KeyRow)
    → find_delivery g.delivery.id db.deliveries ≡ none
    → find_key g.delivery.idempotency_key g.delivery.channel db.idempotency_keys ≡ some row
    → str_eq row.delivery_id g.delivery.id ≡ false
    → ingest_transactional n g db ≡ (err err_duplicate, db)
unfolding ingest_transactional ingest_steps insert_delivery insert_key
conflicting n g db row fresh keyed other = rw (fresh, keyed, keyed, other) refl

committed :
    (n : ℕ) (g : Ingestion) (db : Database)
    → IsNew g.delivery db
    → ingest_transactional n g db ≡ (ok tt, stored_db n g db)
unfolding ingest_transactional
committed n g db new = rw (ingest_steps-of_IsNew n g db new) refl

module _ (env : Env) (cfg : Config) where
  -- What is stored of a request whose key is not found.
  abbrev pub ingestion_for : IngestRequest → Channel → Priority → System → Ingestion
  ingestion_for v ch pri s =
      ingestion_of cfg (env.clock (suc s.moment)) (is_scheduled env cfg v ch pri s)
        (delivery_for env cfg v ch pri s)

  abbrev pub accepted_answer : IngestRequest → Channel → Priority → System → IngestResponse
  accepted_answer v ch pri s = record {
    delivery_id = (delivery_for env cfg v ch pri s).id;
    status = (delivery_for env cfg v ch pri s).status;
    duplicate = false;
  }

  -- A valid request whose key is in the tables and has not expired is answered with the delivery of the key,
  -- as a duplicate. It changes no table, publishes nothing and sends nothing.
  pub ingest_known :
      (req v : IngestRequest) (ch : Channel) (pri : Priority) (s : System) (row : KeyRow)
      (d : Delivery)
      → IsValid req v ch pri
      → find_key v.idempotency_key ch s.db.idempotency_keys ≡ some row
      → env.clock s.moment < row.expires_at
      → find_delivery row.delivery_id s.db.deliveries ≡ some d
      → exec (calm env) (ingest cfg req) s
        ≡ (ok (duplicate_of d), record s { moment = suc s.moment })
  unfolding exec
  ingest_known req v ch pri s row d h keyed live found =
      ingest_valid env cfg req v ch pri s h
      ∙ ap
          (λ (r : Outcome Delivery).
            exec (calm env) (on_found cfg v r) (record s { moment = suc s.moment }))
          (found_key (env.clock s.moment) v.idempotency_key ch s.db row d keyed live found)

  -- The way to the transaction.
  transacted :
      (req v : IngestRequest) (ch : Channel) (pri : Priority) (s : System)
      → IsValid req v ch pri
      → find_by_idempotency_key (env.clock s.moment) v.idempotency_key ch s.db ≡ err err_not_found
      → exec (calm env) (ingest cfg req) s ≡ (
          let (r, db) =
            ingest_transactional (suc (suc (suc s.moment))) (ingestion_for v ch pri s) s.db in
          exec
            (calm env)
            (on_stored (delivery_for env cfg v ch pri s) r)
            (record s { db = db; moment = suc (suc (suc (suc s.moment))) }))
  unfolding exec perform
  transacted req v ch pri s h missing =
      ingest_valid env cfg req v ch pri s h
      ∙ ap
          (λ (r : Outcome Delivery).
            exec (calm env) (on_found cfg v r) (record s { moment = suc s.moment }))
          missing
      ∙ store_valid env cfg req v ch pri s h

  pub ingest_new :
      (req v : IngestRequest) (ch : Channel) (pri : Priority) (s : System)
      → IsValid req v ch pri
      → IsNew (delivery_for env cfg v ch pri s) s.db
      → exec (calm env) (ingest cfg req) s ≡ (
        ok (accepted_answer v ch pri s),
        record s {
          db = stored_db (suc (suc (suc s.moment))) (ingestion_for v ch pri s) s.db;
          moment = suc (suc (suc (suc s.moment)));
        },
      )
  unfolding exec ingestion_of
  ingest_new req v ch pri s h new =
      transacted req v ch pri s h
        (absent_key (env.clock s.moment) v.idempotency_key ch s.db new.no_key)
      ∙ ap
          (λ (x : Outcome (Unit {0}) × Database).
            exec (calm env) (on_stored (delivery_for env cfg v ch pri s) x.0)
              (record s { db = x.1; moment = suc (suc (suc (suc s.moment))) }))
          (committed (suc (suc (suc s.moment))) (ingestion_for v ch pri s) s.db new)

-- Where no call fails: a valid request whose key and id are new is answered with the new id, and not as a
-- duplicate. The same request directly after it, its key not expired, is answered as a duplicate with the
-- same id and status, and changes no table.
pub ingest_twice :
    (env : Env) (cfg : Config) (req v : IngestRequest) (ch : Channel) (pri : Priority) (s : System)
    → IsValid req v ch pri
    → IsNew (delivery_for env cfg v ch pri s) s.db
    → env.clock (suc (suc (suc (suc s.moment)))) < env.clock (suc s.moment) + cfg.idempotency_ttl
    → let (first, s₁) = exec (calm env) (ingest cfg req) s in
      let (second, s₂) = exec (calm env) (ingest cfg req) s₁ in
      (first ≡ ok (accepted_answer env cfg v ch pri s))
      × (second ≡ ok (record (accepted_answer env cfg v ch pri s) { duplicate = true }))
      × (s₂.db ≡ s₁.db)
unfolding ingestion_of
ingest_twice env cfg req v ch pri s h new live =
    let (keyed, found) =
      stored_db_finds (suc (suc (suc s.moment))) (ingestion_for env cfg v ch pri s) s.db new in
    let s₁ : System = record s {
      db = stored_db (suc (suc (suc s.moment))) (ingestion_for env cfg v ch pri s) s.db;
      moment = suc (suc (suc (suc s.moment)));
    } in
    let again =
      ingest_known env cfg req v ch pri s₁ (key_row (ingestion_for env cfg v ch pri s))
        (delivery_for env cfg v ch pri s) h keyed live found in
    rw (ingest_new env cfg req v ch pri s h new) (
      refl,
      ap (λ (x : Outcome IngestResponse × System). x.0) again,
      ap (λ (x : Outcome IngestResponse × System). x.1.db) again,
    )

-- A key is not free again when it has expired. Where no call fails: a valid request whose key is in the
-- tables and has expired, before the first lookup and the last, is answered with the error `not found` and
-- changes no table, if the id that is made for it is no delivery's and not that of the row of the key.
pub ingest_expired :
    (env : Env) (cfg : Config) (req v : IngestRequest) (ch : Channel) (pri : Priority) (s : System)
    (row : KeyRow)
    → IsValid req v ch pri
    → find_key v.idempotency_key ch s.db.idempotency_keys ≡ some row
    → row.expires_at ≤ env.clock s.moment
    → row.expires_at ≤ env.clock (suc (suc (suc (suc s.moment))))
    → find_delivery (env.uuid (suc (suc s.moment))) s.db.deliveries ≡ none
    → str_eq row.delivery_id (env.uuid (suc (suc s.moment))) ≡ false
    → let (r, s') = exec (calm env) (ingest cfg req) s in (r ≡ err err_not_found) × (s'.db ≡ s.db)
unfolding exec perform ingestion_of
ingest_expired env cfg req v ch pri s row h keyed over over' fresh other =
    let ran : exec (calm env) (ingest cfg req) s
        ≡ (err err_not_found, record s { moment = suc (suc (suc (suc (suc s.moment)))) }) =
      transacted env cfg req v ch pri s h
        (expired_key (env.clock s.moment) v.idempotency_key ch s.db row keyed over)
      ∙ ap
          (λ (x : Outcome (Unit {0}) × Database).
            exec (calm env) (on_stored (delivery_for env cfg v ch pri s) x.0)
              (record s { db = x.1; moment = suc (suc (suc (suc s.moment))) }))
          (conflicting (suc (suc (suc s.moment))) (ingestion_for env cfg v ch pri s) s.db row fresh
            keyed other)
      ∙ ap
          (λ (r : Outcome Delivery).
            exec (calm env) (Ports.◌>>=◌ (settle r) λ existing. done (duplicate_of existing))
              (record s { moment = suc (suc (suc (suc (suc s.moment)))) }))
          (expired_key (env.clock (suc (suc (suc (suc s.moment))))) v.idempotency_key ch s.db row
            keyed over') in
    (
      ap (λ (x : Outcome IngestResponse × System). x.0) ran,
      ap (λ (x : Outcome IngestResponse × System). x.1.db) ran,
    )
