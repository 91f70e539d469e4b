-- ===== src/Server/Ingest/Stored.antt =====
-- What the transaction stores for a delivery whose id and key are new.
use gocourier.Common.{
  ℕ, ◌≡◌, refl, Bool, true, false, Option, none, some, List, [], ◌∷◌, ◌++◌, str_eq, eq_iff, find,
  any, Bool-cases, inl, inr,
}
use gocourier.Api.Types.{channel_eq_iff}
use gocourier.Server.Failures.{ok, ◌>>=◌}
use gocourier.Server.Delivery.{Delivery}
use gocourier.Server.Ports.{Ingestion}
use gocourier.Server.Postgres.{
  Database, KeyRow, ScheduledRow, has_id, has_key, find_delivery, find_key,
}
use gocourier.Server.Postgres.Queues.{
  ingest_steps, insert_delivery, insert_key, insert_work, insert_scheduled, enqueue, append_audit,
  new_row, statement,
}

pub find-append {ℓ} :
    {A : Type ℓ} (p : A → Bool) (xs : List A) (x : A)
    → find p xs ≡ none
    → p x ≡ true
    → find p (xs ++ x ∷ []) ≡ some x
find-append p [] x h k = rw k refl
find-append p (y ∷ ys) x h k = elim (Bool-cases (p y)) [
  | inl hit ↦ let e : some y ≡ none = rw hit at h in cc
  | inr miss ↦ rw miss (find-append p ys x (rw miss at h) k)
]

abbrev pub key_row : Ingestion → KeyRow
key_row g = record {
  idempotency_key = g.delivery.idempotency_key;
  channel = g.delivery.channel;
  delivery_id = g.delivery.id;
  expires_at = g.expires_at;
}

-- The work that is left: a scheduled row, or a row of the outbox.
abbrev pub with_work : ℕ → Ingestion → Bool → Option ℕ → Database → Database
with_work n g true (some t) db = record db {
  scheduled =
      db.scheduled
      ++ record { delivery_id = g.delivery.id; scheduled_at = t; processed = false } ∷ [];
}
with_work n g _ _ db = record db {
  outbox = db.outbox ++ new_row n g.delivery.id g.subject g.payload g.headers ∷ [];
}

-- The tables with the delivery, its key and one audit event more.
abbrev pub with_rows : Ingestion → Database → Database
with_rows g db = record db {
  deliveries = db.deliveries ++ g.delivery ∷ [];
  idempotency_keys = db.idempotency_keys ++ key_row g ∷ [];
  audit_events =
      db.audit_events
      ++ record { delivery_id = g.delivery.id; event_type = "NotificationReceived"; payload = [] }
        ∷ [];
}

-- The tables after the transaction.
abbrev pub stored_db : ℕ → Ingestion → Database → Database
stored_db n g db = with_work n g g.schedule g.delivery.scheduled_at (with_rows g db)

abbrev with_delivery_and_key : Ingestion → Database → Database
with_delivery_and_key g db = record db {
  deliveries = db.deliveries ++ g.delivery ∷ [];
  idempotency_keys = db.idempotency_keys ++ key_row g ∷ [];
}

-- Neither the id nor the key of the delivery is in the tables.
pub record IsNew (d : Delivery) (db : Database) : Type 0 where
  pub no_delivery : find_delivery d.id db.deliveries ≡ none
  pub no_key : find_key d.idempotency_key d.channel db.idempotency_keys ≡ none
  pub no_schedule : any (λ (row : ScheduledRow). str_eq row.delivery_id d.id) db.scheduled ≡ false

pub find_delivery-append :
    (d : Delivery) (ds : List Delivery)
    → find_delivery d.id ds ≡ none
    → find_delivery d.id (ds ++ d ∷ []) ≡ some d
unfolding find_delivery
find_delivery-append d ds h = find-append (has_id d.id) ds d h ((eq_iff d.id d.id).1 refl)

pub find_key-append :
    (g : Ingestion) (rows : List KeyRow)
    → find_key g.delivery.idempotency_key g.delivery.channel rows ≡ none
    → find_key g.delivery.idempotency_key g.delivery.channel (rows ++ key_row g ∷ [])
      ≡ some (key_row g)
unfolding find_key
find_key-append g rows h =
    find-append (has_key g.delivery.idempotency_key g.delivery.channel) rows (key_row g) h (
      rw
        (
          (eq_iff g.delivery.idempotency_key g.delivery.idempotency_key).1 refl,
          (channel_eq_iff g.delivery.channel g.delivery.channel).1 refl,
        )
        refl)

-- The last two statements, on tables that hold the delivery.
work_done :
    (n : ℕ) (g : Ingestion) (schedule : Bool) (t : Option ℕ) (db : Database)
    → find_delivery g.delivery.id db.deliveries ≡ some g.delivery
    → any (λ (row : ScheduledRow). str_eq row.delivery_id g.delivery.id) db.scheduled ≡ false
    → (insert_work n g schedule t db >>= λ db'.
        statement "insert audit" (append_audit g.delivery.id "NotificationReceived" [] db'))
      ≡ ok (
          with_work n g schedule t (record db {
            audit_events =
                db.audit_events
                ++ record {
                  delivery_id = g.delivery.id;
                  event_type = "NotificationReceived";
                  payload = [];
                }
                  ∷ [];
          }))
unfolding insert_work insert_scheduled enqueue append_audit
work_done n g true (some t) db found fresh = rw (fresh, found) refl
work_done n g true none db found fresh = rw (found, found) refl
work_done n g false (some t) db found fresh = rw (found, found) refl
work_done n g false none db found fresh = rw (found, found) refl

pub ingest_steps-of_IsNew :
    (n : ℕ) (g : Ingestion) (db : Database)
    → IsNew g.delivery db
    → ingest_steps n g db ≡ ok (stored_db n g db)
unfolding ingest_steps insert_delivery insert_key
ingest_steps-of_IsNew n g db new =
    let found = find_delivery-append g.delivery db.deliveries new.no_delivery in
    let keyed = find_key-append g db.idempotency_keys new.no_key in
    rw (new.no_delivery, new.no_key, keyed, (eq_iff g.delivery.id g.delivery.id).1 refl)
      (work_done n g g.schedule g.delivery.scheduled_at (with_delivery_and_key g db) found
        new.no_schedule)

keys-with_work :
    (n : ℕ) (g : Ingestion) (b : Bool) (t : Option ℕ) (db : Database)
    → ((with_work n g b t db).idempotency_keys ≡ db.idempotency_keys)
      × ((with_work n g b t db).deliveries ≡ db.deliveries)
keys-with_work n g true (some t) db = (refl, refl)
keys-with_work n g true none db = (refl, refl)
keys-with_work n g false (some t) db = (refl, refl)
keys-with_work n g false none db = (refl, refl)

-- The key and the delivery are found after the transaction.
pub stored_db_finds :
    (n : ℕ) (g : Ingestion) (db : Database)
    → IsNew g.delivery db
    → (find_key g.delivery.idempotency_key g.delivery.channel (stored_db n g db).idempotency_keys
        ≡ some (key_row g))
      × (find_delivery g.delivery.id (stored_db n g db).deliveries ≡ some g.delivery)
stored_db_finds n g db new =
    let (keys, deliveries) =
      keys-with_work n g g.schedule g.delivery.scheduled_at (with_rows g db) in
    rw (keys, deliveries)
      (
        find_key-append g db.idempotency_keys new.no_key,
        find_delivery-append g.delivery db.deliveries new.no_delivery,
      )
