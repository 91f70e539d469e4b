-- ===== src/Server/Dispatch.antt =====
-- internal/application/dispatch/service.go, as programs over the ports. Metrics, traces and logs are left
-- out, and with them `retry.Delay`, whose result is only logged.
pub mod Calm
pub mod Endings
pub mod Ends
pub mod Limit
pub mod Replaying
use gocourier.Common.{
  ℕ, suc, ◌+◌, Bool, true, false, not, ◌||◌, Option, none, some, List, [], ◌∷◌, String,
  if◌then◌else◌, leb, str_eq, is_empty,
}
use gocourier.Api.Types.{Channel, DeliveryStatus, succeeded, dlq, status_eq}
use gocourier.Server.Failures.{
  Failure, Outcome, ok, err, is_permanent, err_transient, errorf, prefixed,
}
use gocourier.Server.Delivery.{
  Delivery, Attempt, ProviderResult, start_processing, mark_succeeded, mark_retrying, mark_dlq,
  replay,
}
use gocourier.Server.Routing.{dlq_subject, notification_subject}
use gocourier.Server.Ports.{
  Fields, AuditValue, text, number, flag, Op, Prog, done, fail, call, settle, act, try_call, ◌>>=◌,
  ◌>>◌, ignoring_errors,
}

-- `has_provider` is membership in the map of providers, hence in that of breakers.
pub record Config : Type 0 where
  pub max_attempts : ℕ
  pub stream_prefix : String
  pub has_provider : Channel → Bool

-- The attempt that `Dispatch` makes.
unfoldable pub new_attempt : String → ℕ → Delivery → Attempt
new_attempt id now d = record {
  id = id;
  attempt_number = d.retry_count + 1;
  started_at = now;
  finished_at = none;
  error_message = "";
  provider_response = none;
  success = false;
}

abbrev pub ended : Attempt → String → ℕ → Attempt
ended a message now = record a { error_message = message; finished_at = some now }

-- From the update on; an error of the broker is only logged.
unfoldable pub bury : Delivery → String → Prog (Unit {0})
bury d message = do
  act (Op.update d)
  ignoring_errors (
      Op.publish (dlq_subject d.channel) (("delivery_id", d.id) ∷ ("error", message) ∷ [])
        (("delivery_id", d.id) ∷ []))
  act (Op.append_audit d.id "NotificationMovedToDLQ" (("error", text message) ∷ []))

abbrev no_attempt : Attempt
no_attempt = record {
  id = "";
  attempt_number = 0;
  started_at = 0;
  finished_at = none;
  error_message = "";
  provider_response = none;
  success = false;
}

unfoldable pub move_to_dlq : Delivery → ℕ → String → Option Attempt → Prog (Unit {0})
unfolding bury
move_to_dlq d now message (some a) = do
  let a' = ended a message now
  act (Op.record_attempt d.id a')
  bury (mark_dlq a' message now d) message
move_to_dlq d now message none = bury (mark_dlq no_attempt message now d) message

unfoldable pub schedule_retry : Delivery → Attempt → String → ℕ → Prog (Unit {0})
schedule_retry d a message now = do
  let a' = ended a message now
  act (Op.update (mark_retrying a' message now d))
  act (Op.record_attempt d.id a')
  ignoring_errors (
      Op.append_audit d.id "DispatchFailed" (
        ("error", text message) ∷ ("attempt", number a.attempt_number) ∷ ("retry", flag true) ∷ []))
  fail err_transient

unfoldable pub handle_failure : Config → Delivery → Attempt → Failure → Prog (Unit {0})
unfolding move_to_dlq schedule_retry
handle_failure cfg d a e = do
  now ← act Op.now
  if is_permanent e || leb cfg.max_attempts (d.retry_count + 1)
      then move_to_dlq d now e.message (some a)
      else schedule_retry d a e.message now

-- What follows a notification that was sent. The attempt that is stored is the caller's copy, to which
-- `MarkSucceeded` did nothing.
unfoldable pub settle_success : Delivery → Attempt → ProviderResult → Prog (Unit {0})
settle_success d a result = do
  act (Op.record_success d.channel)
  let a' = record a { provider_response = some result }
  now ← act Op.now
  act (Op.update (mark_succeeded a' now d))
  act (Op.record_attempt d.id a')
  act (Op.append_audit d.id "DispatchSucceeded" (("attempt", number a.attempt_number) ∷ []))

abbrev pub on_reply : Config → Delivery → Attempt → Outcome ProviderResult → Prog (Unit {0})
on_reply cfg d a (ok result) = settle_success d a result
on_reply cfg d a (err e) = do act (Op.record_failure d.channel); handle_failure cfg d a e

-- `breaker.Allow()`, and the two ways on.
abbrev pub on_allowed : Config → ℕ → Delivery → Outcome (Unit {0}) → Prog (Unit {0})
on_allowed cfg now d (err _) = do
  id ← act Op.new_uuid
  handle_failure cfg d (new_attempt id now d) err_transient
on_allowed cfg now d (ok _) = do
  id ← act Op.new_uuid
  reply ← try_call (Op.send d)
  on_reply cfg d (new_attempt id now d) reply

-- From the claim on.
unfoldable pub deliver : Config → ℕ → Delivery → Prog (Unit {0})
unfolding handle_failure move_to_dlq settle_success new_attempt
deliver cfg now d =
    if not (cfg.has_provider d.channel)
    then move_to_dlq d now "no provider for channel" none
    else (do allowed ← try_call (Op.allow d.channel); on_allowed cfg now d allowed)

abbrev pub on_started : Config → ℕ → Delivery → Outcome Delivery → Prog (Unit {0})
on_started cfg now d (err e) = if status_eq d.status succeeded then done tt else fail e
on_started cfg now d (ok claimed) = do
  updated ← act (Op.update_if_status claimed d.status)
  if not updated then done tt else deliver cfg now claimed

unfoldable pub dispatch : Config → String → Prog (Unit {0})
unfolding deliver start_processing
dispatch cfg id = do
  d ← act (Op.find_by_id id)
  if status_eq d.status succeeded
      then done tt
      else if status_eq d.status dlq
      then done tt
      else (do now ← act Op.now; on_started cfg now d (start_processing now d))

unfoldable pub member : String → Fields → String
member k [] = ""
member k ((j, v) ∷ fs) = let rest = member k fs in if str_eq j k then v else rest

-- The id in the envelope, or else in the headers.
unfoldable pub message_id : Fields → Fields → String
unfolding member
message_id envelope headers =
    let id = member "delivery_id" envelope in
    if is_empty id then member "delivery_id" headers else id

abbrev pub dispatch_id : Config → String → Prog (Unit {0})
dispatch_id cfg id =
    if is_empty id then fail (errorf ("missing delivery_id" ∷ [])) else dispatch cfg id

-- A payload is what `json.Unmarshal` reads into the envelope, or its error.
unfoldable pub handle_message : Config → Outcome Fields → Fields → Prog (Unit {0})
unfolding dispatch message_id
handle_message cfg (err e) headers = fail (prefixed "unmarshal envelope" e)
handle_message cfg (ok envelope) headers = dispatch_id cfg (message_id envelope headers)

unfoldable pub replay_delivery : Config → String → Prog (Unit {0})
unfolding replay
replay_delivery cfg id = do
  d ← act (Op.find_by_id id)
  now ← act Op.now
  replayed ← settle (replay now d)
  let d' = record replayed { retry_count = 0 }
  act (Op.update d')
  act (
      Op.publish (notification_subject cfg.stream_prefix d'.channel d'.priority)
        (("delivery_id", d'.id) ∷ []) (("delivery_id", d'.id) ∷ ("replay", "true") ∷ []))
  act (Op.append_audit d'.id "NotificationReplayed" (("operator", text "api") ∷ []))
