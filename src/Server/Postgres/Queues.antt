-- ===== src/Server/Postgres/Queues.antt =====
-- internal/adapters/postgres: outbox_repo.go, scheduled_repo.go, audit_repo.go, and the transaction of
-- delivery_repo.go that takes a notification in.
use gocourier.Common.{
  ℕ, suc, zero, Bool, true, false, not, ◌&&◌, Option, none, some, List, [], ◌∷◌, ◌++◌, String,
  if◌then◌else◌, ltb, leb, ◌==◌, map, filter, any, length, str_eq, is_some,
}
use gocourier.Api.Types.{Channel, OutboxStatus}
use gocourier.Server.Failures.{Outcome, ok, err, ◌>>=◌, ◌>>◌, fail_if, err_duplicate, prefixed}
use gocourier.Server.Delivery.{Delivery}
use gocourier.Server.Ports.{Fields, OutboxMessage, AuditPayload, Ingestion}
use gocourier.Server.Postgres.{
  Database, OutboxRow, ScheduledRow, violation, no_rows, or_failure, find_delivery, find_key,
}

abbrev pub is_pending : OutboxStatus → Bool
is_pending OutboxStatus.pending = true
is_pending _ = false

abbrev pub is_published : OutboxStatus → Bool
is_published OutboxStatus.published = true
is_published _ = false

unfoldable pub new_row : ℕ → String → String → Fields → Fields → OutboxRow
new_row serial delivery_id subject payload headers = record {
  message = record {
    id = serial;
    delivery_id = delivery_id;
    subject = subject;
    payload = payload;
    headers = headers;
    attempts = 0;
  };
  status = OutboxStatus.pending;
  last_error = "";
  published_at = none;
}

unfoldable pub enqueue :
    ℕ → String → String → Fields → Fields → Database → Outcome (Unit {0}) × Database
unfolding new_row
enqueue serial delivery_id subject payload headers db =
    if is_some (find_delivery delivery_id db.deliveries)
    then (
      ok tt,
      record db { outbox = db.outbox ++ new_row serial delivery_id subject payload headers ∷ [] },
    )
    else (err violation, db)

abbrev pub take_rows {ℓ} : {A : Type ℓ} → ℕ → List A → List A
take_rows zero xs = []
take_rows (suc n) [] = []
take_rows (suc n) (x ∷ xs) = x ∷ take_rows n xs

abbrev pub row_is_pending : OutboxRow → Bool
row_is_pending row = is_pending row.status

-- The rows are inserted in the order of `created_at`.
unfoldable pub fetch_pending : ℕ → Database → List OutboxMessage
fetch_pending limit db =
    map (λ row. row.message) (take_rows limit (filter row_is_pending db.outbox))

unfoldable pub count_pending : Database → ℕ
count_pending db = length (filter row_is_pending db.outbox)

abbrev pub published_row : ℕ → OutboxRow → OutboxRow
published_row at row = record row { status = OutboxStatus.published; published_at = some at }

abbrev pub failed_row : String → OutboxRow → OutboxRow
failed_row message row = record row {
  message = record row.message { attempts = suc row.message.attempts };
  last_error = message;
}

-- The rows with an id, changed.
abbrev pub change_row : (OutboxRow → OutboxRow) → ℕ → List OutboxRow → List OutboxRow
change_row f id [] = []
change_row f id (row ∷ rows) =
    let rest = change_row f id rows in (if row.message.id == id then f row else row) ∷ rest

unfoldable pub mark_published : ℕ → ℕ → Database → Outcome (Unit {0}) × Database
mark_published at id db = (ok tt, record db { outbox = change_row (published_row at) id db.outbox })

unfoldable pub mark_failed : ℕ → String → Database → Outcome (Unit {0}) × Database
mark_failed id message db =
    (ok tt, record db { outbox = change_row (failed_row message) id db.outbox })

abbrev pub published_for : String → OutboxRow → Bool
published_for delivery_id row =
    str_eq row.message.delivery_id delivery_id && is_published row.status

unfoldable pub has_published_for_delivery : String → Database → Bool
has_published_for_delivery delivery_id db = any (published_for delivery_id) db.outbox

-- `ORDER BY scheduled_at ASC`.
insert_due : ScheduledRow → List ScheduledRow → List ScheduledRow
insert_due r [] = r ∷ []
insert_due r (s ∷ rows) =
    let rest = insert_due r rows in
    if ltb s.scheduled_at r.scheduled_at then s ∷ rest else r ∷ s ∷ rows

by_time : List ScheduledRow → List ScheduledRow
unfolding insert_due
by_time [] = []
by_time (r ∷ rows) = insert_due r (by_time rows)

unfoldable pub fetch_due : ℕ → ℕ → Database → List String
unfolding by_time
fetch_due before limit db =
    map (λ row. row.delivery_id)
      (take_rows limit
        (by_time (filter (λ row. not row.processed && leb row.scheduled_at before) db.scheduled)))

processed_rows : String → List ScheduledRow → List ScheduledRow
processed_rows i [] = []
processed_rows i (r ∷ rows) =
    let rest = processed_rows i rows in
    (if str_eq r.delivery_id i then record r { processed = true } else r) ∷ rest

unfoldable pub mark_processed : String → Database → Outcome (Unit {0}) × Database
unfolding processed_rows
mark_processed i db = (ok tt, record db { scheduled = processed_rows i db.scheduled })

unfoldable pub append_audit :
    String → String → AuditPayload → Database → Outcome (Unit {0}) × Database
append_audit i event payload db =
    if is_some (find_delivery i db.deliveries)
    then (
      ok tt,
      record db {
        audit_events =
            db.audit_events
            ++ record { delivery_id = i; event_type = event; payload = payload } ∷ [];
      },
    )
    else (err violation, db)

-- What a statement of the transaction leaves, its error named.
abbrev pub statement : String → Outcome (Unit {0}) × Database → Outcome Database
statement name (ok _, db) = ok db
statement name (err e, db) = err (prefixed name e)

unfoldable pub insert_delivery : Delivery → Database → Outcome (Unit {0}) × Database
insert_delivery d db =
    if is_some (find_delivery d.id db.deliveries)
    then (err violation, db)
    else (ok tt, record db { deliveries = db.deliveries ++ d ∷ [] })

-- `ON CONFLICT (idempotency_key, channel) DO NOTHING`: an expired row conflicts too.
unfoldable pub insert_key : String → Channel → String → ℕ → Database → Outcome (Unit {0}) × Database
insert_key k ch i expires_at db =
    if is_some (find_key k ch db.idempotency_keys) then (ok tt, db) else (
      ok tt,
      record db {
        idempotency_keys =
            db.idempotency_keys
            ++ record {
              idempotency_key = k;
              channel = ch;
              delivery_id = i;
              expires_at = expires_at;
            }
              ∷ [];
      },
    )

unfoldable pub insert_scheduled : String → ℕ → Database → Outcome (Unit {0}) × Database
insert_scheduled i t db =
    if any (λ row. str_eq row.delivery_id i) db.scheduled then (err violation, db) else (
      ok tt,
      record db {
        scheduled =
            db.scheduled ++ record { delivery_id = i; scheduled_at = t; processed = false } ∷ [];
      },
    )

-- `if schedule && d.ScheduledAt != nil`.
unfoldable pub insert_work : ℕ → Ingestion → Bool → Option ℕ → Database → Outcome Database
unfolding insert_scheduled
insert_work serial g true (some t) db =
    statement "insert scheduled" (insert_scheduled g.delivery.id t db)
insert_work serial g _ _ db =
    statement "insert outbox" (enqueue serial g.delivery.id g.subject g.payload g.headers db)

unfoldable pub ingest_steps : ℕ → Ingestion → Database → Outcome Database
unfolding insert_work
ingest_steps serial g db = do
  let d = g.delivery
  db ← statement "insert delivery" (insert_delivery d db)
  db ← statement "insert idempotency" (insert_key d.idempotency_key d.channel d.id g.expires_at db)
  row ←
      or_failure (find_key d.idempotency_key d.channel db.idempotency_keys)
        (prefixed "verify idempotency" no_rows)
  fail_if (not (str_eq row.delivery_id d.id)) err_duplicate
  db ← insert_work serial g g.schedule d.scheduled_at db
  statement "insert audit" (append_audit d.id "NotificationReceived" [] db)

-- The commit, or the rollback that is deferred.
abbrev pub commit : Database → Outcome Database → Outcome (Unit {0}) × Database
commit db (ok db') = (ok tt, db')
commit db (err e) = (err e, db)

unfoldable pub ingest_transactional : ℕ → Ingestion → Database → Outcome (Unit {0}) × Database
unfolding ingest_steps
ingest_transactional serial g db = commit db (ingest_steps serial g db)
