-- ===== src/Server/Delivery.antt =====
-- internal/domain/notification: delivery.go and status.go. A method that changes `*Delivery` returns the
-- new record; where it may refuse, an `Outcome`.
use gocourier.Common.{
  ℕ, suc, Bool, true, false, not, Option, none, some, List, [], ◌∷◌, ◌++◌, String, if◌then◌else◌,
  ltb, is_empty,
}
use gocourier.Api.Types.{
  Channel, Priority, DeliveryStatus, pending, queued, processing, retrying, succeeded, failed, dlq,
  cancelled, rejected, status_text, status_eq,
}
use gocourier.Server.Failures.{Outcome, ok, err, ◌>>=◌, errorf}
use gocourier.Server.Schema.{IngestRequest, validate, parse_channel, parse_priority}

pub record ProviderResult : Type 0 where
  pub provider_message_id : String
  pub response : String

-- `provider_response` holds what was marshalled, and `none` where nothing was set.
pub record Attempt : Type 0 where
  pub id : String
  pub attempt_number : ℕ
  pub started_at : ℕ
  pub finished_at : Option ℕ
  pub error_message : String
  pub provider_response : Option ProviderResult
  pub success : Bool

pub record Delivery : Type 0 where
  pub id : String
  pub idempotency_key : String
  pub tenant_id : String
  pub channel : Channel
  pub priority : Priority
  pub recipient : String
  pub template : String
  pub payload : String
  pub status : DeliveryStatus
  pub attempts : List Attempt
  pub scheduled_at : Option ℕ
  pub correlation_id : String
  pub causation_id : String
  pub created_at : ℕ
  pub updated_at : ℕ
  pub retry_count : ℕ
  pub last_error : String

unfoldable pub is_terminal : DeliveryStatus → Bool
is_terminal succeeded = true
is_terminal failed = true
is_terminal dlq = true
is_terminal cancelled = true
is_terminal rejected = true
is_terminal _ = false

unfoldable pub can_dispatch : DeliveryStatus → Bool
can_dispatch queued = true
can_dispatch retrying = true
can_dispatch processing = true
can_dispatch _ = false

-- `uuid.NewString()` is the argument `id`. A later time in the request changes nothing here.
unfoldable pub new_delivery_from_request : String → IngestRequest → ℕ → Outcome Delivery
new_delivery_from_request id req now = do
  valid ← validate req
  channel ← parse_channel valid.channel
  priority ← parse_priority valid.priority
  ok (record {
    id = id;
    idempotency_key = valid.idempotency_key;
    tenant_id = valid.metadata.tenant_id;
    channel = channel;
    priority = priority;
    recipient = valid.recipient;
    template = valid.template;
    payload = valid.payload;
    status = pending;
    attempts = [];
    scheduled_at = valid.scheduled_at;
    correlation_id = valid.metadata.correlation_id;
    causation_id = valid.metadata.causation_id;
    created_at = now;
    updated_at = now;
    retry_count = 0;
    last_error = "";
  })

unfoldable pub queue : ℕ → Delivery → Outcome Delivery
queue now d =
    if not (status_eq d.status pending)
    then err (errorf ("cannot queue from status " ∷ status_text d.status ∷ []))
    else ok (record d { status = queued; updated_at = now })

abbrev pub processing_from : DeliveryStatus → ℕ → Delivery → Outcome Delivery
processing_from queued now d = ok (record d { status = processing; updated_at = now })
processing_from retrying now d = ok (record d { status = processing; updated_at = now })
processing_from succeeded now d = err (errorf ("already succeeded" ∷ []))
processing_from s now d = err (errorf ("cannot process from status " ∷ status_text s ∷ []))

unfoldable pub start_processing : ℕ → Delivery → Outcome Delivery
start_processing now d = processing_from d.status now d

-- The time is a reading of the clock of its own; each caller below overwrites it.
unfoldable pub record_attempt : Attempt → ℕ → Delivery → Delivery
record_attempt a now d = record d { attempts = d.attempts ++ a ∷ []; updated_at = now }

-- The attempt is passed by value: the caller's copy stays as it was.
unfoldable pub mark_succeeded : Attempt → ℕ → Delivery → Delivery
unfolding record_attempt
mark_succeeded a now d =
    record (record_attempt (record a { success = true; finished_at = some now }) now d) {
      status = succeeded;
      updated_at = now;
      last_error = "";
    }

abbrev failed_attempt : Attempt → String → ℕ → Attempt
failed_attempt a message now = record a {
  success = false;
  error_message = message;
  finished_at = some now;
}

unfoldable pub mark_retrying : Attempt → String → ℕ → Delivery → Delivery
unfolding record_attempt
mark_retrying a message now d = record (record_attempt (failed_attempt a message now) now d) {
  status = retrying;
  retry_count = suc d.retry_count;
  last_error = message;
  updated_at = now;
}

-- `notification.Attempt{}`, whose id is empty, is not recorded.
unfoldable pub mark_dlq : Attempt → String → ℕ → Delivery → Delivery
unfolding record_attempt
mark_dlq a message now d =
    let d' = if is_empty a.id then d else record_attempt (failed_attempt a message now) now d in
    record d' { status = dlq; last_error = message; updated_at = now }

abbrev pub replay_from : DeliveryStatus → ℕ → Delivery → Outcome Delivery
replay_from dlq now d = ok (record d { status = queued; updated_at = now })
replay_from failed now d = ok (record d { status = queued; updated_at = now })
replay_from s now d = err (errorf ("cannot replay from status " ∷ status_text s ∷ []))

unfoldable pub replay : ℕ → Delivery → Outcome Delivery
replay now d = replay_from d.status now d

abbrev after : ℕ → Option ℕ → Bool
after now none = false
after now (some t) = ltb now t

unfoldable pub should_schedule : ℕ → Delivery → Bool
should_schedule now d = after now d.scheduled_at
