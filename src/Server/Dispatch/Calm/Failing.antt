-- ===== src/Server/Dispatch/Calm/Failing.antt =====
-- A failed attempt on its own: what `move_to_dlq` and `schedule_retry` leave, and which of them runs.
use gocourier.Common.{
  ℕ, suc, ◌+◌, ◌≡◌, true, ◌||◌, some, [], ◌∷◌, String, if◌then◌else◌, leb, Bool-cases, inl, inr,
  ◌∙◌, arith,
}
use gocourier.Server.Failures.{Failure, Outcome, ok, err, is_permanent, err_transient}
use gocourier.Server.Delivery.{Delivery, Attempt, mark_retrying, mark_dlq}
use gocourier.Server.Routing.{dlq_subject}
use gocourier.Server.Ports.{
  Op, AuditPayload, text, number, flag, fail, settle, ◌>>◌, ignoring_errors,
}
use gocourier.Server.Postgres.{overwritten, find_delivery, update}
use gocourier.Server.Run.{Env, System, Message, accepted, perform, exec}
use gocourier.Server.Dispatch.{Config, ended, bury, move_to_dlq, schedule_retry, handle_failure}
use gocourier.Server.Dispatch.Calm.{
  calm, IsFresh, with_attempt, with_audit, with_row, left, find_delivery-overwrite,
  exec-record_attempt, exec-append_audit,
}

pub id-mark_dlq :
    (a : Attempt) (message : String) (now : ℕ) (d : Delivery) → (mark_dlq a message now d).id ≡ d.id
unfolding mark_dlq
id-mark_dlq a message now d = ground arith

-- The system after `bury`.
unfoldable pub buried : Delivery → String → System → System
buried d message s =
    let s₁ = left (with_row d s.db) s in
    let note : Message = record {
      subject = dlq_subject d.channel;
      payload = ("delivery_id", d.id) ∷ ("error", message) ∷ [];
      headers = ("delivery_id", d.id) ∷ [];
    } in
    let s₂ = record (accepted note s₁) { moment = suc s₁.moment } in
    left (with_audit d.id "NotificationMovedToDLQ" (("error", text message) ∷ []) s₂.db) s₂

-- The system after `move_to_dlq` with an attempt.
unfoldable pub dead : Delivery → ℕ → String → Attempt → System → System
unfolding buried
dead d now message a s =
    let a' = ended a message now in
    buried (mark_dlq a' message now d) message (left (with_attempt d.id a' s.db) s)

-- The system after `schedule_retry`.
unfoldable pub retried : Delivery → Attempt → String → ℕ → System → System
unfolding mark_retrying
retried d a message now s =
    let a' = ended a message now in
    let s₁ = left (with_row (mark_retrying a' message now d) s.db) s in
    let s₂ = left (with_attempt d.id a' s₁.db) s₁ in
    left
      (with_audit d.id "DispatchFailed"
        (("error", text message) ∷ ("attempt", number a.attempt_number) ∷ ("retry", flag true) ∷ [])
        s₂.db)
      s₂

module _ (env : Env) where
  exec-bury :
      (d row : Delivery) (message : String) (s : System)
      → find_delivery d.id s.db.deliveries ≡ some row
      → exec (calm env) (bury d message) s ≡ (ok tt, buried d message s)
  unfolding bury exec perform update buried
  exec-bury d row message s found =
      let s₁ = left (with_row d s.db) s in
      let note : Message = record {
        subject = dlq_subject d.channel;
        payload = ("delivery_id", d.id) ∷ ("error", message) ∷ [];
        headers = ("delivery_id", d.id) ∷ [];
      } in
      exec-append_audit env d.id "NotificationMovedToDLQ" (("error", text message) ∷ []) settle
        (record (accepted note s₁) { moment = suc s₁.moment }) (overwritten d row)
        (find_delivery-overwrite d.id d row s.db.deliveries found)

  exec-move_to_dlq :
      (d row : Delivery) (now : ℕ) (message : String) (a : Attempt) (s : System)
      → find_delivery d.id s.db.deliveries ≡ some row
      → IsFresh a.id s.db
      → exec (calm env) (move_to_dlq d now message (some a)) s ≡ (ok tt, dead d now message a s)
  unfolding move_to_dlq exec dead
  exec-move_to_dlq d row now message a s found fresh =
      let a' = ended a message now in
      exec-record_attempt env d.id a' (λ r. settle r >> bury (mark_dlq a' message now d) message) s
        row fresh found
      ∙ exec-bury (mark_dlq a' message now d) row message (left (with_attempt d.id a' s.db) s)
          (rw (id-mark_dlq a' message now d) found)

  exec-schedule_retry :
      (d row : Delivery) (a : Attempt) (message : String) (now : ℕ) (s : System)
      → find_delivery d.id s.db.deliveries ≡ some row
      → IsFresh a.id s.db
      → exec (calm env) (schedule_retry d a message now) s
        ≡ (err err_transient, retried d a message now s)
  unfolding schedule_retry exec perform update mark_retrying retried
  exec-schedule_retry d row a message now s found fresh =
      let a' = ended a message now in
      let d' = mark_retrying a' message now d in
      let kept = find_delivery-overwrite d.id d' row s.db.deliveries found in
      let s₁ = left (with_row d' s.db) s in
      let note : AuditPayload =
        ("error", text message)
        ∷ ("attempt", number a.attempt_number)
        ∷ ("retry", flag true)
        ∷ [] in
      exec-record_attempt env d.id a'
        (λ r.
          settle r
          >> (ignoring_errors (Op.append_audit d.id "DispatchFailed" note) >> fail err_transient))
        s₁ (overwritten d' row) fresh kept
      ∙ exec-append_audit env d.id "DispatchFailed" note (λ _. fail err_transient)
          (left (with_attempt d.id a' s₁.db) s₁) (overwritten d' row) kept

  -- The system after `handle_failure`.
  unfoldable pub failed_with :
      Config → Delivery → Attempt → Failure → System → Outcome (Unit {0}) × System
  unfolding dead retried
  failed_with cfg d a e s =
      let s' = record s { moment = suc s.moment } in
      if is_permanent e || leb cfg.max_attempts (d.retry_count + 1)
      then (ok tt, dead d (env.clock s.moment) e.message a s')
      else (err err_transient, retried d a e.message (env.clock s.moment) s')

  pub exec-handle_failure :
      (cfg : Config) (d row : Delivery) (a : Attempt) (e : Failure) (s : System)
      → find_delivery d.id s.db.deliveries ≡ some row
      → IsFresh a.id s.db
      → exec (calm env) (handle_failure cfg d a e) s ≡ failed_with cfg d a e s
  unfolding handle_failure exec perform failed_with
  exec-handle_failure cfg d row a e s found fresh =
      let s' = record s { moment = suc s.moment } in
      elim (Bool-cases (is_permanent e || leb cfg.max_attempts (d.retry_count + 1))) [
        | inl over ↦
            rw over (exec-move_to_dlq d row (env.clock s.moment) e.message a s' found fresh)
        | inr again ↦
            rw again (exec-schedule_retry d row a e.message (env.clock s.moment) s' found fresh)
      ]
