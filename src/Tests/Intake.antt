-- ===== src/Tests/Intake.antt =====
-- Runs of the server's model: ingest, the outbox, the scheduler, and what they use.
use gocourier.Common.{
  ◌+◌, ℕ, ◌*◌, ◌^◌, ◌/◌, ◌<◌, ◌≤◌, ◌≡◌, ◌⊎◌, refl, true, none, some, [], ◌∷◌, min, arith, decimal,
  ◌↔◌,
}
use gocourier.Api.Types.{status_eq, email, sms, high, normal, queued, channel_of_text, channel_eq}
use gocourier.Server.Failures.{ok, err, err_not_found}
use gocourier.Server.Words.{trim_space, to_lower, byte_length}
use gocourier.Server.Schema.{validate, parse_channel, parse_priority}
use gocourier.Server.Schema.Valid
use gocourier.Server.Schema.Valid.{IsAcceptable, validate-accepts}
use gocourier.Server.Routing.{parse_notification_subject, notification_subject}
use gocourier.Server.Routing.Roundtrip.{parse_notification_subject-notification_subject}
use gocourier.Server.Retry.{delay, product64}
use gocourier.Server.Retry.Bounds.{delay_bounds}
use gocourier.Server.Breaker
use gocourier.Server.Breaker.Invariant.{IsBelow, run, asks, fails, succeeds, run-IsBelow}
use gocourier.Server.Postgres.{find_delivery, find_key, KeyRow}
use gocourier.Server.Run.{System, exec}
use gocourier.Server.Dispatch.Calm.{calm}
use gocourier.Server.Ingest.{ingest}
use gocourier.Server.Ingest.Stored.{IsNew}
use gocourier.Server.Ingest.Runs.{IsValid, delivery_for}
use gocourier.Server.Ingest.Idempotency.{accepted_answer, ingest_twice, ingest_expired}
use gocourier.Server.Outbox.{flush_message}
use gocourier.Server.Outbox.NoLoss.{IsFlushed, flush_message-IsFlushed}
use gocourier.Server.Scheduler.{process_one}
use gocourier.Server.Scheduler.Skips.{process_one_skips}
use gocourier.Tests.Services.{
  env, settings, delivery, tables, system, request, filled, message, outbox_row,
}

abbrev empty : System
empty = system (tables [])

request-IsValid : IsValid request filled email normal
unfolding validate parse_channel parse_priority trim_space to_lower byte_length channel_of_text
request-IsValid = record { valid = refl; channel_is = refl; priority_is = refl }

request-IsNew : IsNew (delivery_for env settings.ingest_config filled email normal empty) empty.db
unfolding find_delivery find_key
request-IsNew = record { no_delivery = refl; no_key = refl; no_schedule = refl }

ingest_twice_example :
    let (first, s₁) = exec (calm env) (ingest settings.ingest_config request) empty in
    let (second, s₂) = exec (calm env) (ingest settings.ingest_config request) s₁ in
    (first ≡ ok (accepted_answer env settings.ingest_config filled email normal empty))
    × (second
        ≡ ok (record (accepted_answer env settings.ingest_config filled email normal empty) {
          duplicate = true;
        }))
    × (s₂.db ≡ s₁.db)
ingest_twice_example =
    ingest_twice env settings.ingest_config request filled email normal empty request-IsValid
      request-IsNew (omega arith)

abbrev expired : KeyRow
expired = record {
  idempotency_key = "order-2";
  channel = email;
  delivery_id = "d0";
  expires_at = 900;
}

abbrev with_expired : System
with_expired = system (record (tables []) { idempotency_keys = expired ∷ [] })

ingest_expired_example :
    let (r, s') = exec (calm env) (ingest settings.ingest_config request) with_expired in
    (r ≡ err err_not_found) × (s'.db ≡ with_expired.db)
unfolding find_delivery find_key channel_eq decimal
ingest_expired_example =
    ingest_expired env settings.ingest_config request filled email normal with_expired expired
      request-IsValid refl (omega arith) (omega arith) refl refl

abbrev pending_outbox : System
pending_outbox =
    system (record (tables (delivery "d1" queued "a" ∷ [])) { outbox = outbox_row ∷ [] })

flush_message-IsFlushed_example :
    IsFlushed message pending_outbox (exec env (flush_message message) pending_outbox).1
flush_message-IsFlushed_example = flush_message-IsFlushed env message pending_outbox

abbrev queued_system : System
queued_system = system (tables (delivery "d1" queued "a" ∷ []))

process_one_skips_example :
    exec env (process_one "notifications" 2000 "d1") queued_system
    ≡ (ok tt, record queued_system { moment = 1 })
unfolding find_delivery status_eq
process_one_skips_example =
    process_one_skips env "notifications" "d1" 2000 (delivery "d1" queued "a") queued_system refl
      refl

run-IsBelow_example :
    IsBelow (run (fails 1 ∷ fails 2 ∷ asks 40 ∷ succeeds ∷ fails 50 ∷ []) (Breaker.new 2 60 30))
run-IsBelow_example =
    run-IsBelow 2 60 30 (fails 1 ∷ fails 2 ∷ asks 40 ∷ succeeds ∷ fails 50 ∷ []) (omega arith)

parse_notification_subject-notification_subject_example :
    parse_notification_subject "n" (notification_subject "n" sms high) ≡ ok (sms, high)
parse_notification_subject-notification_subject_example =
    parse_notification_subject-notification_subject "n" sms high (refl, tt)

half : (n : ℕ) → 0 < n → n / 2 < n
half n h = omega arith

delay_bounds_example :
    ((delay (λ n. n / 2) 3 100 300 ≡ none)
      × ((2 ^ 63 ≤ product64 100 2) ⊎ (min 300 (product64 100 2) ≤ 1)))
    ⊎ ((x : ℕ) × (delay (λ n. n / 2) 3 100 300 ≡ some x)
        × (product64 100 2 < 2 ^ 63)
        × (x ≡ min 300 (product64 100 2) + min 300 (product64 100 2) / 2 / 2)
        × (min 300 (product64 100 2) ≤ x)
        × (2 * x < 3 * min 300 (product64 100 2)))
delay_bounds_example = delay_bounds (λ n. n / 2) 3 100 300 half

validate-accepts_example :
    (validate request ≡ ok filled) ↔ (IsAcceptable request × (filled ≡ Valid.filled request))
validate-accepts_example = validate-accepts request filled
