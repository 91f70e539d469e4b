-- ===== src/LoadTest/Run/Sequential.antt =====
-- `runSequential`, and its agreement with `runParallel`.
use Prim.Native.Nat.add
use gocourier.Common.{
  ℕ, zero, suc, ◌+◌, ◌-◌, ◌≡◌, refl, Bool, ◌&&◌, Option, arith, ltb, length, length-append,
  sum_below, sum_below-one, if◌then◌else◌, ap, sym, ◌∙◌, Bool-cases, inl, inr,
}
use gocourier.World.{World}
use gocourier.Api.Types.{SendNotificationResp}
use gocourier.LoadTest.Run.{
  Outcome, send_one, first_series, Pool, Series, finish, Reach, sequential_round, sequential_from,
  run_sequential,
}
use gocourier.LoadTest.Run.Claim.{build_all, HasBuilt}
use gocourier.LoadTest.Run.Progress.{score, score-tally, tally-total}
use gocourier.LoadTest.Run.Complete.{
  weigh_ok, weigh_fail, weigh_duplicate, Completed, outstanding, run_parallel-Completed,
}

module _ {Req : Type 0} (build : ℕ → World → Req × World) (timer : ℕ → ℕ) (watched : Bool)
    (count : ℕ) (stagger_ms : ℕ) (w : World) (reply : ℕ → Option SendNotificationResp) where
  -- Before the round of index `i`.
  record Before (i : ℕ) (s : Series Req) : Type 0 where
    counted : (p : Outcome → ℕ) → score p s.result ≡ sum_below (λ j. p (send_one (reply j))) i
    total_is : s.result.total ≡ count
    built : HasBuilt build w i s.sent s.world

  Before-round :
      (i : ℕ) (s : Series Req)
      → Before i s
      → Before (suc i) (sequential_round build timer watched count stagger_ms reply i s)
  unfolding sequential_round sum_below build_all
  Before-round i s v = record {
    counted = λ p.
        score-tally p (send_one (reply i)) s.result
        ∙ ap (λ (t : ℕ). t + p (send_one (reply i))) (v.counted p);
    total_is = tally-total _ _ ∙ v.total_is;
    built = record {
      sent_is = cc (v.built.sent_is, v.built.world_is);
      world_is = cc (v.built.world_is);
    };
  }

  Before-from :
      (left i : ℕ) (s : Series Req)
      → Before i s
      → Before (left + i) (sequential_from build timer watched count stagger_ms reply left i s)
  unfolding sequential_from
  Before-from zero i s v = rw add.zero v
  Before-from (suc left) i s v =
      let e : suc left + i ≡ left + suc i = omega arith in
      let d : i + 1 ≡ suc i = omega arith in
      rw (e, d) (Before-from left (suc i) _ (Before-round i s v))

  Before-all :
      Before count
        (sequential_from build timer watched count stagger_ms reply count 0 (first_series count w))
  unfolding sum_below build_all
  Before-all =
      let e : count + 0 ≡ count = omega arith in
      rw e at (
        Before-from count 0 (first_series count w) (record {
          counted = λ p. omega arith;
          total_is = refl;
          built = record { sent_is = refl; world_is = refl };
        }))

  -- The loop of `runSequential` ends with every request counted by its outcome and sent once, in
  -- the order of the indices.
  pub run_sequential-Completed :
      Completed build count w reply
        (run_sequential build timer watched count stagger_ms reply w).result
        (run_sequential build timer watched count stagger_ms reply w).sent
  unfolding run_sequential
  run_sequential-Completed =
      let v = Before-all in
      record {
        accepted = omega (arith, v.counted weigh_ok);
        failed = omega (arith, v.counted weigh_fail);
        repeated = omega (arith, v.counted weigh_duplicate);
        all_counted = omega (arith, v.counted (λ _. 1), v.total_is, sum_below-one count);
        total_is = v.total_is;
        all_sent = v.built.sent_is;
      }

  -- The two runners agree: under every order of the replies `runParallel` sends the requests that
  -- `runSequential` sends and comes to the same counters.
  pub run_parallel-agrees :
      {concurrency n : ℕ} {s : Pool Req}
      → Reach build timer watched count concurrency w reply n s
      → outstanding s ≡ 0
      → (s.sent ≡ (run_sequential build timer watched count stagger_ms reply w).sent)
        × (s.result.ok ≡ (run_sequential build timer watched count stagger_ms reply w).result.ok)
        × (s.result.fail
            ≡ (run_sequential build timer watched count stagger_ms reply w).result.fail)
        × (s.result.duplicates
            ≡ (run_sequential build timer watched count stagger_ms reply w).result.duplicates)
  unfolding finish
  run_parallel-agrees r h =
      let a = run_parallel-Completed build timer watched count _ w reply r h in
      let b = run_sequential-Completed in
      (
        a.all_sent ∙ sym b.all_sent,
        a.accepted ∙ sym b.accepted,
        a.failed ∙ sym b.failed,
        a.repeated ∙ sym b.repeated,
      )

  sleeps-round :
      (i : ℕ) (s : Series Req)
      → length (sequential_round build timer watched count stagger_ms reply i s).sleeps
        ≡ length s.sleeps + (if ltb 0 stagger_ms && ltb i (count - 1) then 1 else 0)
  unfolding sequential_round
  sleeps-round i s = elim (Bool-cases (ltb 0 stagger_ms && ltb i (count - 1))) [
    | inl slept ↦ rw slept (length-append {0} s.sleeps _)
    | inr awake ↦ rw awake (omega arith)
  ]

  sleeps-from :
      (left i : ℕ) (s : Series Req)
      → left + i ≡ count
      → length (sequential_from build timer watched count stagger_ms reply left i s).sleeps
        ≡ length s.sleeps + (if ltb 0 stagger_ms then left - 1 else 0)
  unfolding sequential_from
  sleeps-from zero i s h = ground arith
  sleeps-from (suc left) i s h =
      let s' = sequential_round build timer watched count stagger_ms reply i s in
      ground (arith, sleeps-round i s, sleeps-from left (i + 1) s' (omega arith))

  -- `runSequential` pauses once less than there are requests, and not at all without a delay.
  pub run_sequential-sleeps :
      length (run_sequential build timer watched count stagger_ms reply w).sleeps
      ≡ (if ltb 0 stagger_ms then count - 1 else 0)
  unfolding run_sequential
  run_sequential-sleeps = ground (arith, sleeps-from count 0 (first_series count w) (omega arith))
