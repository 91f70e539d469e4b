-- ===== src/Server/Workers/Tables.antt =====
-- The statements that leave the rows of the deliveries alone, and the transaction, which adds one.
use gocourier.Common.{
  ℕ, ◌≡◌, inl, inr, Bool, true, false, Option, none, some, [], ◌∷◌, ◌++◌, String, arith, is_some,
  Bool-cases, not, str_eq,
}
use gocourier.Api.Types.{Channel}
use gocourier.Server.Failures.{Outcome, ok, err, ◌>>=◌, err_duplicate, ok-of, guard-of}
use gocourier.Server.Delivery.{Delivery, Attempt}
use gocourier.Server.Ports.{Fields, AuditPayload, Ingestion}
use gocourier.Server.Postgres.{
  Database, find_delivery, record_attempt, or_failure, find_key, violation,
}
use gocourier.Server.Postgres.Queues.{
  ingest_steps, insert_delivery, insert_key, insert_work, enqueue, statement, append_audit,
}

pub deliveries-record_attempt :
    (i : String) (a : Attempt) (db : Database)
    → (record_attempt i a db).1.deliveries ≡ db.deliveries
unfolding record_attempt
deliveries-record_attempt i a db = ground arith

pub deliveries-enqueue :
    (n : ℕ) (i subject : String) (payload headers : Fields) (db : Database)
    → (enqueue n i subject payload headers db).1.deliveries ≡ db.deliveries
unfolding enqueue
deliveries-enqueue n i subject payload headers db = ground arith

pub deliveries-append_audit :
    (i event : String) (payload : AuditPayload) (db : Database)
    → (append_audit i event payload db).1.deliveries ≡ db.deliveries
unfolding append_audit
deliveries-append_audit i event payload db = ground arith

deliveries-insert_key :
    (k : String) (ch : Channel) (i : String) (t : ℕ) (db : Database)
    → (insert_key k ch i t db).1.deliveries ≡ db.deliveries
unfolding insert_key
deliveries-insert_key k ch i t db = ground arith

-- What a statement that succeeds leaves.
pub deliveries-statement :
    (name : String) (r : Outcome (Unit {0}) × Database) (db : Database)
    → statement name r ≡ ok db
    → r.1 ≡ db
deliveries-statement name (ok _, db') db h = cc
deliveries-statement name (err e, db') db h = cc

deliveries-insert_work :
    (n : ℕ) (g : Ingestion) (schedule : Bool) (t : Option ℕ) (db db' : Database)
    → insert_work n g schedule t db ≡ ok db'
    → db'.deliveries ≡ db.deliveries
unfolding insert_work
deliveries-insert_work n g true (some t) db db' h = ground arith
deliveries-insert_work n g true none db db' h = cc (
  deliveries-statement _ _ db' h,
  deliveries-enqueue n g.delivery.id g.subject g.payload g.headers db,
)
deliveries-insert_work n g false t db db' h = cc (
  deliveries-statement _ _ db' h,
  deliveries-enqueue n g.delivery.id g.subject g.payload g.headers db,
)

deliveries-insert_delivery :
    (d : Delivery) (db db' : Database)
    → statement "insert delivery" (insert_delivery d db) ≡ ok db'
    → (is_some (find_delivery d.id db.deliveries) ≡ false)
      × (db'.deliveries ≡ db.deliveries ++ d ∷ [])
unfolding insert_delivery
deliveries-insert_delivery d db db' h =
    elim (Bool-cases (is_some (find_delivery d.id db.deliveries))) [
      | inl old ↦
          let k : statement "insert delivery" (err violation, db) ≡ ok db' = rw old at h in cc
      | inr new ↦
          let k : statement "insert delivery"
                (ok tt, record db { deliveries = db.deliveries ++ d ∷ [] })
              ≡ ok db' =
            rw new at h in
          (new, cc)
    ]

-- A transaction that commits adds the delivery, whose id is new.
pub deliveries-ingest_steps :
    (n : ℕ) (g : Ingestion) (db db' : Database)
    → ingest_steps n g db ≡ ok db'
    → (is_some (find_delivery g.delivery.id db.deliveries) ≡ false)
      × (db'.deliveries ≡ db.deliveries ++ g.delivery ∷ [])
unfolding ingest_steps
deliveries-ingest_steps n g db db' h =
    let d = g.delivery in
    let (db₁, inserted, h) = ok-of (statement "insert delivery" (insert_delivery d db)) _ db' h in
    let (db₂, keyed, h) =
      ok-of
        (statement "insert idempotency"
          (insert_key d.idempotency_key d.channel d.id g.expires_at db₁))
        _ db' h in
    let (row, _, h) =
      ok-of (or_failure (find_key d.idempotency_key d.channel db₂.idempotency_keys) _) _ db' h in
    let (_, h) =
      guard-of (not (str_eq row.delivery_id d.id)) err_duplicate
        (insert_work n g g.schedule d.scheduled_at db₂ >>= λ x.
          statement "insert audit" (append_audit d.id "NotificationReceived" [] x))
        db' h in
    let (db₃, worked, h) = ok-of (insert_work n g g.schedule d.scheduled_at db₂) _ db' h in
    let (new, added) = deliveries-insert_delivery d db db₁ inserted in
    (
      new,
      cc (
        added,
        deliveries-statement "insert audit" _ db' h,
        deliveries-append_audit d.id "NotificationReceived" [] db₃,
        deliveries-insert_work n g g.schedule d.scheduled_at db₂ db₃ worked,
        deliveries-statement "insert idempotency" _ db₂ keyed,
        deliveries-insert_key d.idempotency_key d.channel d.id g.expires_at db₁,
      ),
    )
