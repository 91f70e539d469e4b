-- ===== src/Server/Dispatch/Endings.antt =====
-- The ends of a dispatch: the answer, the row, what was sent and the attempt that is stored.
use gocourier.Common.{
  ℕ, suc, ◌+◌, ◌≡◌, refl, Bool, true, false, ◌||◌, some, List, [], ◌∷◌, ◌++◌, String, if◌then◌else◌,
  leb, Bool-cases, inl, inr, arith, subst,
}
use gocourier.Api.Types.{DeliveryStatus, retrying, succeeded, dlq}
use gocourier.Server.Failures.{Failure, Outcome, ok, err, is_permanent, err_transient}
use gocourier.Server.Delivery.{
  Delivery, Attempt, ProviderResult, mark_retrying, mark_dlq, mark_succeeded,
}
use gocourier.Server.Postgres.{has_id, overwrite, overwritten, find_delivery}
use gocourier.Server.Run.{Env, System}
use gocourier.Server.Dispatch.{Config, ended}
use gocourier.Server.Dispatch.Calm.{find_delivery-overwrite, settled}
use gocourier.Server.Dispatch.Calm.Failing.{failed_with, id-mark_dlq, dead, buried, retried}

-- The answer to the broker, and the status and the retry count of the delivery.
pub record End : Type 0 where
  pub answer : Outcome (Unit {0})
  pub status : DeliveryStatus
  pub retry_count : ℕ
  pub accepted : Bool

-- By the limit, the retry count before and the reply.
unfoldable pub end_of : ℕ → ℕ → Outcome ProviderResult → End
end_of limit count (ok _) = record {
  answer = ok tt;
  status = succeeded;
  retry_count = count;
  accepted = true;
}
end_of limit count (err e) =
    if is_permanent e || leb limit (count + 1)
    then record { answer = ok tt; status = dlq; retry_count = count; accepted = false }
    else record {
      answer = err err_transient;
      status = retrying;
      retry_count = suc count;
      accepted = false;
    }

-- The answer and the system of a dispatch are those of that end: the row, what was sent, and one more
-- attempt, with the number that comes next.
pub record EndsAs (id : String) (count : ℕ) (sent : List String)
    (attempts : List (String × Attempt)) (e : End) (r : Outcome (Unit {0}) × System) : Type 0 where
  pub answers : r.0 ≡ e.answer
  pub row : Delivery
  pub found : find_delivery id r.1.db.deliveries ≡ some row
  pub status_is : row.status ≡ e.status
  pub retry_count_is : row.retry_count ≡ e.retry_count
  pub sent_is : r.1.sent ≡ (if e.accepted then sent ++ id ∷ [] else sent)
  pub stored : Attempt
  pub attempts_are : r.1.db.delivery_attempts ≡ attempts ++ (id, stored) ∷ []
  pub number_is : stored.attempt_number ≡ count + 1
  pub success_is : stored.success ≡ false

retry_count-mark_dlq :
    (a : Attempt) (message : String) (now : ℕ) (d : Delivery)
    → (mark_dlq a message now d).retry_count ≡ d.retry_count
unfolding mark_dlq
retry_count-mark_dlq a message now d = ground arith

status-mark_dlq :
    (a : Attempt) (message : String) (now : ℕ) (d : Delivery)
    → (mark_dlq a message now d).status ≡ dlq
unfolding mark_dlq
status-mark_dlq a message now d = refl

dead-EndsAs :
    (d row : Delivery) (now : ℕ) (message : String) (a : Attempt) (s : System)
    → find_delivery d.id s.db.deliveries ≡ some row
    → a.attempt_number ≡ d.retry_count + 1
    → a.success ≡ false
    → EndsAs d.id d.retry_count s.sent s.db.delivery_attempts
        (record { answer = ok tt; status = dlq; retry_count = d.retry_count; accepted = false })
        (ok tt, dead d now message a s)
unfolding dead buried
dead-EndsAs d row now message a s found number unsuccessful =
    let d' = mark_dlq (ended a message now) message now d in
    let same = id-mark_dlq (ended a message now) message now d in
    record {
      answers = refl;
      row = overwritten d' row;
      found =
          subst
            (λ (i : String).
              find_delivery i (overwrite (has_id d'.id) d' s.db.deliveries)
              ≡ some (overwritten d' row))
            same (find_delivery-overwrite d'.id d' row s.db.deliveries (rw same found));
      status_is = status-mark_dlq (ended a message now) message now d;
      retry_count_is = retry_count-mark_dlq (ended a message now) message now d;
      sent_is = refl;
      stored = ended a message now;
      attempts_are = refl;
      number_is = number;
      success_is = unsuccessful;
    }

retried-EndsAs :
    (d row : Delivery) (now : ℕ) (message : String) (a : Attempt) (s : System)
    → find_delivery d.id s.db.deliveries ≡ some row
    → a.attempt_number ≡ d.retry_count + 1
    → a.success ≡ false
    → EndsAs d.id d.retry_count s.sent s.db.delivery_attempts
        (record {
          answer = err err_transient;
          status = retrying;
          retry_count = suc d.retry_count;
          accepted = false;
        })
        (err err_transient, retried d a message now s)
unfolding retried mark_retrying
retried-EndsAs d row now message a s found number unsuccessful =
    let d' = mark_retrying (ended a message now) message now d in
    record {
      answers = refl;
      row = overwritten d' row;
      found = find_delivery-overwrite d.id d' row s.db.deliveries found;
      status_is = refl;
      retry_count_is = refl;
      sent_is = refl;
      stored = ended a message now;
      attempts_are = refl;
      number_is = number;
      success_is = unsuccessful;
    }

pub failed_with-EndsAs :
    (env : Env) (cfg : Config) (d row : Delivery) (a : Attempt) (e : Failure) (s : System)
    → find_delivery d.id s.db.deliveries ≡ some row
    → a.attempt_number ≡ d.retry_count + 1
    → a.success ≡ false
    → EndsAs d.id d.retry_count s.sent s.db.delivery_attempts
        (end_of cfg.max_attempts d.retry_count (err e))
        (failed_with env cfg d a e s)
unfolding failed_with end_of
failed_with-EndsAs env cfg d row a e s found number unsuccessful =
    let s' = record s { moment = suc s.moment } in
    elim (Bool-cases (is_permanent e || leb cfg.max_attempts (d.retry_count + 1))) [
      | inl over ↦
          rw over (dead-EndsAs d row (env.clock s.moment) e.message a s' found number unsuccessful)
      | inr again ↦
          rw again
            (retried-EndsAs d row (env.clock s.moment) e.message a s' found number unsuccessful)
    ]

pub settled-EndsAs :
    (env : Env) (limit : ℕ) (d row : Delivery) (a : Attempt) (result : ProviderResult) (s : System)
    (sent : List String)
    → find_delivery d.id s.db.deliveries ≡ some row
    → a.attempt_number ≡ d.retry_count + 1
    → a.success ≡ false
    → s.sent ≡ sent ++ d.id ∷ []
    → EndsAs d.id d.retry_count sent s.db.delivery_attempts
        (end_of limit d.retry_count (ok result))
        (ok tt, settled env d a result s)
unfolding settled mark_succeeded end_of
settled-EndsAs env limit d row a result s sent found number unsuccessful accepted =
    let a' = record a { provider_response = some result } in
    let d' = mark_succeeded a' (env.clock (suc s.moment)) d in
    record {
      answers = refl;
      row = overwritten d' row;
      found = find_delivery-overwrite d.id d' row s.db.deliveries found;
      status_is = refl;
      retry_count_is = refl;
      sent_is = accepted;
      stored = a';
      attempts_are = refl;
      number_is = number;
      success_is = unsuccessful;
    }
