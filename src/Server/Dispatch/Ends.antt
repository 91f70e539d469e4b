-- ===== src/Server/Dispatch/Ends.antt =====
-- What a dispatch does to the delivery that it attempts, by the reply and the attempts before it.
use gocourier.Common.{suc, ◌+◌, ◌≡◌, refl, false, some, [], ◌∷◌, ◌++◌, ◌⊎◌, inl, inr}
use gocourier.Server.Failures.{Failure, Outcome, ok, err, err_transient}
use gocourier.Server.Delivery.{Delivery, Attempt, ProviderResult}
use gocourier.Server.Postgres.{overwritten, find_delivery}
use gocourier.Server.Breaker.{allow, record_failure}
use gocourier.Server.Run.{Env, System, with_breaker, provided, perform, exec}
use gocourier.Server.Dispatch.{Config, new_attempt, on_reply, dispatch}
use gocourier.Server.Dispatch.Calm.{calm, IsFresh, exec-settle_success}
use gocourier.Server.Dispatch.Calm.Failing.{exec-handle_failure}
use gocourier.Server.Dispatch.Calm.Whole.{
  IsReady, claimed, attempt, reply_to, let_through, claimed_system, refused_circuit, deliver_ready,
  dispatch_ready, claim_found,
}
use gocourier.Server.Dispatch.Endings.{failed_with-EndsAs, settled-EndsAs, EndsAs, end_of}

Outcome-cases {ℓ} :
    {A : Type ℓ} (r : Outcome A) → ((a : A) × (r ≡ ok a)) ⊎ ((e : Failure) × (r ≡ err e))
Outcome-cases (ok a) = inl (a, refl)
Outcome-cases (err e) = inr (e, refl)

module _ (env : Env) (cfg : Config) where
  -- From the provider's reply on.
  on_reply-EndsAs :
      (d row : Delivery) (a : Attempt) (s : System) (reply : Outcome ProviderResult)
      → find_delivery d.id s.db.deliveries ≡ some row
      → IsFresh a.id s.db
      → a.attempt_number ≡ d.retry_count + 1
      → a.success ≡ false
      → let (r, s') = provided reply d s in
        EndsAs d.id d.retry_count s.sent s.db.delivery_attempts
          (end_of cfg.max_attempts d.retry_count reply)
          (exec (calm env) (on_reply cfg d a r) (record s' { moment = suc s.moment }))
  unfolding exec perform
  on_reply-EndsAs d row a s (ok result) found fresh number unsuccessful =
      let s' = record s { sent = s.sent ++ d.id ∷ []; moment = suc s.moment } in
      rw (exec-settle_success env d row a result s' found fresh) (
        settled-EndsAs env cfg.max_attempts d row a result s' s.sent found number unsuccessful refl)
  on_reply-EndsAs d row a s (err e) found fresh number unsuccessful =
      let s' : System =
        record (with_breaker d.channel
          (record_failure (env.clock (suc s.moment)) (s.breakers d.channel)) s) {
            moment = suc (suc s.moment);
          } in
      rw (exec-handle_failure env cfg d row a e s' found fresh)
        (failed_with-EndsAs env cfg d row a e s' found number unsuccessful)

  -- A dispatch of a delivery that is ready ends as its reply says. Where the provider accepts it, its row
  -- has succeeded. Otherwise, if the error is permanent or this was the last attempt that the limit allows,
  -- its row is in the dead letter queue and the broker's message is acknowledged. Otherwise it is retrying,
  -- with one more retry, and the message is to come again. An open circuit counts as an error that is not
  -- permanent. One attempt is stored, with the next number, and never as a success. This holds for calls that
  -- do not fail.
  pub dispatch-EndsAs :
      (d : Delivery) (s : System)
      → IsReady env cfg s d
      → EndsAs d.id d.retry_count s.sent s.db.delivery_attempts
          (end_of cfg.max_attempts d.retry_count (reply_to env cfg d s))
          (exec (calm env) (dispatch cfg d.id) s)
  unfolding new_attempt
  dispatch-EndsAs d s ready =
      let c = claimed env cfg d s in
      let s₃ = claimed_system env cfg d s in
      let kept = (claim_found d.id c d s.db.deliveries ready.found).1 in
      rw (dispatch_ready env cfg d s ready)
        (elim (Outcome-cases
          (allow (env.clock (suc (suc (suc s.moment)))) (s.breakers d.channel)).0) [
            | inl (_, through) ↦
                rw
                  (
                    deliver_ready env cfg (env.clock (suc s.moment)) c s₃ ready.has_provider
                        through,
                    through,
                  )
                  (on_reply-EndsAs c (overwritten c d) (attempt env cfg d s)
                    (record (let_through env cfg c s₃) { moment = suc (suc s₃.moment) })
                    (env.provider (suc (suc s₃.moment)) c) kept ready.fresh refl refl)
            | inr (e, closed) ↦
                rw
                  (
                    refused_circuit env cfg (env.clock (suc s.moment)) c s₃ e ready.has_provider
                        closed,
                    closed,
                  )
                  (rw
                    (exec-handle_failure env cfg c (overwritten c d) (attempt env cfg d s)
                      err_transient
                      (record (let_through env cfg c s₃) { moment = suc (suc s₃.moment) }) kept
                      ready.fresh)
                    (failed_with-EndsAs env cfg c (overwritten c d) (attempt env cfg d s)
                      err_transient
                      (record (let_through env cfg c s₃) { moment = suc (suc s₃.moment) }) kept refl
                      refl))
          ])
