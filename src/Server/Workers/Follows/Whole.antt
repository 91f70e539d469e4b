-- ===== src/Server/Workers/Follows/Whole.antt =====
-- The whole programs keep to the protocol: the handling of a message, a request, a flush.
use gocourier.Common.{
  ◌≡◌, refl, ℕ, Bool, true, false, not, [], ◌∷◌, String, if◌then◌else◌, str_eq, is_empty,
}
use gocourier.Api.Types.{DeliveryStatus, queued, retrying, succeeded, dlq, status_eq}
use gocourier.Server.Failures.{Outcome, ok, err, errorf}
use gocourier.Server.Delivery.{Delivery, start_processing, processing_from}
use gocourier.Server.Ports.{Fields, done, fail, settle, ◌>>=◌}
use gocourier.Server.Dispatch.{
  Config, on_started, deliver, dispatch, dispatch_id, message_id, handle_message,
}
use gocourier.Server.Workers.Protocol.{out, won, Follows}
use gocourier.Server.Workers.Follows.{next, branch, deliver-Follows}

-- The answer to a claim.
on_claimed :
    (i : String) (cfg : Config) (now : ℕ) (d : Delivery) (r : Outcome Bool)
    → Follows i
        (if str_eq d.id i then won out r else out)
        (settle r >>= λ updated. if not updated then done tt else deliver cfg now d)
on_claimed i cfg now d (ok true) =
    deliver-Follows i _ cfg now d (λ same. rw same refl, λ apart. rw apart refl)
on_claimed i cfg now d (ok false) = tt
on_claimed i cfg now d (err e) = tt

on_started-Follows :
    (i : String) (cfg : Config) (now : ℕ) (d : Delivery) (s : DeliveryStatus)
    → d.status ≡ s
    → Follows i out (on_started cfg now d (processing_from s now d))
on_started-Follows i cfg now d queued eq = (λ _. rw eq refl, λ r. on_claimed i cfg now _ r)
on_started-Follows i cfg now d retrying eq = (λ _. rw eq refl, λ r. on_claimed i cfg now _ r)
on_started-Follows i cfg now d _ eq = branch i out (status_eq d.status succeeded) _ _ tt tt

pub dispatch-Follows : (i : String) (cfg : Config) (id : String) → Follows i out (dispatch cfg id)
unfolding dispatch start_processing
dispatch-Follows i cfg id = (
  tt,
  λ r. next i out r _ λ d. branch i out (status_eq d.status succeeded) _ _ tt (
      branch i out (status_eq d.status dlq) _ _ tt
        (tt, λ r. next i out r _ λ now. on_started-Follows i cfg now d d.status refl)),
)

dispatch_id-Follows : (i : String) (cfg : Config) (id : String) → Follows i out (dispatch_id cfg id)
dispatch_id-Follows i cfg id =
    branch i out (is_empty id) (fail (errorf ("missing delivery_id" ∷ []))) (dispatch cfg id) tt
      (dispatch-Follows i cfg id)

pub handle_message-Follows :
    (i : String) (cfg : Config) (payload : Outcome Fields) (headers : Fields)
    → Follows i out (handle_message cfg payload headers)
unfolding handle_message
handle_message-Follows i cfg (err e) headers = tt
handle_message-Follows i cfg (ok envelope) headers =
    dispatch_id-Follows i cfg (message_id envelope headers)
