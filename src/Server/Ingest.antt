-- ===== src/Server/Ingest.antt =====
-- internal/application/ingest/service.go, as a program over the ports.
pub mod Stored
pub mod Runs
pub mod Idempotency
use gocourier.Common.{ℕ, ◌+◌, Bool, true, false, not, List, [], ◌∷◌, String, if◌then◌else◌}
use gocourier.Api.Types.{Channel, channel_text}
use gocourier.Server.Failures.{Failure, Kind, Outcome, ok, err, is, err_validation, extended}
use gocourier.Server.Schema.{IngestRequest, IngestResponse, validate, parse_channel}
use gocourier.Server.Delivery.{Delivery, new_delivery_from_request, should_schedule, queue}
use gocourier.Server.Routing.{notification_subject}
use gocourier.Server.Ports.{
  Op, Ingestion, Prog, done, fail, call, settle, act, try_call, ◌>>=◌, ◌>>◌, Answer, Fields,
}

pub record Config : Type 0 where
  pub stream_prefix : String
  pub idempotency_ttl : ℕ

abbrev pub duplicate_of : Delivery → IngestResponse
duplicate_of d = record { delivery_id = d.id; status = d.status; duplicate = true }

-- `fmt.Errorf("%w: %v", apperrors.ErrValidation, err)`.
abbrev pub invalid : {A : Type 0} → Outcome A → Outcome A
invalid (ok a) = ok a
invalid (err e) = err (extended err_validation e.message)

-- `if !schedule { delivery.Queue(now) }`.
abbrev pub ready : ℕ → Bool → Delivery → Outcome Delivery
ready now true d = ok d
ready now false d = queue now d

abbrev pub envelope_of : Delivery → Fields
envelope_of d = ("delivery_id", d.id) ∷ []

abbrev pub headers_of : Delivery → Fields
headers_of d =
    ("delivery_id", d.id)
    ∷ ("correlation_id", d.correlation_id)
    ∷ ("idempotency_key", d.idempotency_key)
    ∷ ("channel", channel_text d.channel)
    ∷ []

unfoldable pub ingestion_of : Config → ℕ → Bool → Delivery → Ingestion
ingestion_of cfg now schedule d = record {
  delivery = d;
  expires_at = now + cfg.idempotency_ttl;
  subject = notification_subject cfg.stream_prefix d.channel d.priority;
  payload = envelope_of d;
  headers = headers_of d;
  schedule = schedule;
}

-- The answer to the transaction: a duplicate that another request has stored meanwhile is looked up.
abbrev pub on_stored : Delivery → Outcome (Unit {0}) → Prog IngestResponse
on_stored d (ok _) = done (record { delivery_id = d.id; status = d.status; duplicate = false })
on_stored d (err e) =
    if is Kind.duplicate e
    then (do
      existing ← act (Op.find_by_idempotency_key d.idempotency_key d.channel)
      done (duplicate_of existing))
    else fail e

unfoldable pub store : Config → IngestRequest → Prog IngestResponse
unfolding ingestion_of new_delivery_from_request should_schedule queue
store cfg req = do
  now ← act Op.now
  id ← act Op.new_uuid
  made ← settle (invalid (new_delivery_from_request id req now))
  let schedule = should_schedule now made
  d ← settle (ready now schedule made)
  stored ← try_call (Op.ingest_transactional (ingestion_of cfg now schedule d))
  on_stored d stored

abbrev pub on_found : Config → IngestRequest → Outcome Delivery → Prog IngestResponse
on_found cfg req (ok existing) = done (duplicate_of existing)
on_found cfg req (err e) = if not (is Kind.not_found e) then fail e else store cfg req

unfoldable pub ingest : Config → IngestRequest → Prog IngestResponse
unfolding store validate parse_channel
ingest cfg req = do
  valid ← settle (invalid (validate req))
  channel ← settle (parse_channel valid.channel)
  found ← try_call (Op.find_by_idempotency_key valid.idempotency_key channel)
  on_found cfg valid found
