-- ===== src/Server/Postgres.antt =====
-- internal/adapters/postgres: the tables, and the statements of the repositories as functions on them.
-- A statement's answer comes with the tables after it. `at` is `NOW()`, `serial` the next number of a
-- sequence.
pub mod Queues
use gocourier.Common.{
  ℕ, suc, zero, ◌+◌, Bool, true, false, not, ◌&&◌, ◌||◌, Option, none, some, List, [], ◌∷◌, ◌++◌,
  String, if◌then◌else◌, ltb, leb, ◌==◌, map, filter, find, any, length, str_eq, is_some,
}
use gocourier.Api.Types.{Channel, DeliveryStatus, status_eq, channel_eq, OutboxStatus}
use gocourier.Server.Failures.{
  Failure, Outcome, ok, err, err_not_found, err_duplicate, errorf, prefixed,
}
use gocourier.Server.Delivery.{Delivery, Attempt}
use gocourier.Server.Ports.{Fields, OutboxMessage, AuditPayload, Ingestion}

pub record KeyRow : Type 0 where
  pub idempotency_key : String
  pub channel : Channel
  pub delivery_id : String
  pub expires_at : ℕ

pub record OutboxRow : Type 0 where
  pub message : OutboxMessage
  pub status : OutboxStatus
  pub last_error : String
  pub published_at : Option ℕ

pub record ScheduledRow : Type 0 where
  pub delivery_id : String
  pub scheduled_at : ℕ
  pub processed : Bool

pub record AuditRow : Type 0 where
  pub delivery_id : String
  pub event_type : String
  pub payload : AuditPayload

-- Every list in the order of insertion.
pub record Database : Type 0 where
  pub deliveries : List Delivery
  pub idempotency_keys : List KeyRow
  pub delivery_attempts : List (String × Attempt)
  pub outbox : List OutboxRow
  pub scheduled : List ScheduledRow
  pub audit_events : List AuditRow

-- A violated constraint; its wording is the database's.
abbrev pub violation : Failure
violation = errorf ("constraint violation" ∷ [])

-- `pgx.ErrNoRows`, which is none of the application's own errors.
abbrev pub no_rows : Failure
no_rows = errorf ("no rows in result set" ∷ [])

abbrev pub has_id : String → Delivery → Bool
has_id i d = str_eq d.id i

unfoldable pub find_delivery : String → List Delivery → Option Delivery
find_delivery i ds = find (has_id i) ds

-- The columns that `UPDATE deliveries` sets.
abbrev pub overwritten : Delivery → Delivery → Delivery
overwritten new old = record old {
  status = new.status;
  retry_count = new.retry_count;
  last_error = new.last_error;
  updated_at = new.updated_at;
}

-- The rows that a test selects, written over.
unfoldable pub overwrite : (Delivery → Bool) → Delivery → List Delivery → List Delivery
overwrite p new [] = []
overwrite p new (d ∷ ds) =
    let rest = overwrite p new ds in (if p d then overwritten new d else d) ∷ rest

unfoldable pub update : Delivery → Database → Outcome (Unit {0}) × Database
update d db = (ok tt, record db { deliveries = overwrite (has_id d.id) d db.deliveries })

abbrev pub has_id_and_status : String → DeliveryStatus → Delivery → Bool
has_id_and_status i s d = str_eq d.id i && status_eq d.status s

-- The answer is whether a row was selected.
unfoldable pub update_if_status : Delivery → DeliveryStatus → Database → Outcome Bool × Database
update_if_status d expected db = (
  ok (any (has_id_and_status d.id expected) db.deliveries),
  record db { deliveries = overwrite (has_id_and_status d.id expected) d db.deliveries },
)

abbrev pub or_failure : {A : Type 0} → Option A → Failure → Outcome A
or_failure none e = err e
or_failure (some a) e = ok a

-- An id that is no UUID has no row here, where the database gives a syntax error: both are errors that
-- `errors.Is` finds none of the application's own in.
unfoldable pub find_by_id : String → Database → Outcome Delivery
find_by_id i db = or_failure (find_delivery i db.deliveries) no_rows

abbrev pub has_key : String → Channel → KeyRow → Bool
has_key k ch row = str_eq row.idempotency_key k && channel_eq row.channel ch

-- The primary key lets one row at most have the key and the channel.
unfoldable pub find_key : String → Channel → List KeyRow → Option KeyRow
find_key k ch rows = find (has_key k ch) rows

abbrev pub keyed_delivery : ℕ → Option KeyRow → Database → Option Delivery
keyed_delivery at none db = none
keyed_delivery at (some row) db =
    if ltb at row.expires_at then find_delivery row.delivery_id db.deliveries else none

unfoldable pub find_by_idempotency_key : ℕ → String → Channel → Database → Outcome Delivery
find_by_idempotency_key at k ch db =
    or_failure (keyed_delivery at (find_key k ch db.idempotency_keys) db) err_not_found

unfoldable pub record_attempt : String → Attempt → Database → Outcome (Unit {0}) × Database
record_attempt i a db =
    if any (λ row. str_eq row.1.id a.id) db.delivery_attempts
      || not (is_some (find_delivery i db.deliveries))
    then (err violation, db)
    else (ok tt, record db { delivery_attempts = db.delivery_attempts ++ (i, a) ∷ [] })
