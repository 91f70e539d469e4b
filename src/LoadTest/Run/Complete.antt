-- ===== src/LoadTest/Run/Complete.antt =====
-- What `runParallel` guarantees under every order of the replies.
use gocourier.Common.{
  ◌-◌, subst, ℕ, zero, suc, ◌+◌, ◌≤◌, ◌<◌, ◌≡◌, refl, ◌↔◌, Bool, Option, some, List, [], ◌∷◌, arith,
  min, get_elem?, total, sum_below, sum_below-one,
}
use gocourier.World.{World}
use gocourier.Api.Types.{SendNotificationResp}
use gocourier.LoadTest.Config.{LoadRunResult}
use gocourier.LoadTest.Run.{
  Outcome, ok, fail, duplicate, send_one, Worker, in_flight, stopped, Pool, limit, finish, Reach,
  then_settle, settle,
}
use gocourier.LoadTest.Run.Claim.{awaited, build_all}
use gocourier.LoadTest.Run.Progress.{Reach-Inv}

-- The workers that await a reply.
abbrev pub outstanding : {Req : Type 0} → Pool Req → ℕ
outstanding s = total (awaited (λ _. 1)) s.workers

-- A sum of such weights that is positive has a worker that awaits a reply.
find_in_flight :
    (ws : List Worker)
    → 0 < total (awaited (λ _. 1)) ws
    → (k i : ℕ) × (get_elem? ws k ≡ some (in_flight i))
unfolding total
find_in_flight [] h = absurd (omega arith)
find_in_flight (in_flight i ∷ ws) h = (0, i, refl)
find_in_flight (stopped ∷ ws) h = let (k, i, e) = find_in_flight ws (omega arith) in (suc k, i, e)

-- Where no reply is awaited, none is under any other weight.
none_awaited :
    (f : ℕ → ℕ) (ws : List Worker) → total (awaited (λ _. 1)) ws ≡ 0 → total (awaited f) ws ≡ 0
unfolding total
none_awaited f [] h = refl
none_awaited f (in_flight i ∷ ws) h = absurd (omega arith)
none_awaited f (stopped ∷ ws) h = omega (arith, none_awaited f ws (omega arith))

abbrev pub weigh_ok : Outcome → ℕ
weigh_ok ok = 1
weigh_ok _ = 0

abbrev pub weigh_fail : Outcome → ℕ
weigh_fail fail = 1
weigh_fail _ = 0

abbrev pub weigh_duplicate : Outcome → ℕ
weigh_duplicate duplicate = 1
weigh_duplicate _ = 0

-- A completed run, beside the description of it that mentions no order.
pub record Completed {Req : Type 0} (build : ℕ → World → Req × World) (count : ℕ) (w : World)
    (reply : ℕ → Option SendNotificationResp) (result : LoadRunResult) (sent : List Req)
    : Type 0 where
  pub accepted : result.ok ≡ sum_below (λ i. weigh_ok (send_one (reply i))) count
  pub failed : result.fail ≡ sum_below (λ i. weigh_fail (send_one (reply i))) count
  pub repeated : result.duplicates ≡ sum_below (λ i. weigh_duplicate (send_one (reply i))) count
  pub all_counted : result.ok + result.fail + result.duplicates ≡ result.total
  pub total_is : result.total ≡ count
  pub all_sent : sent ≡ (build_all build count w).0

-- The runs from one state to another, with the number of replies that come on the way.
pub data Continues {Req : Type 0} (build : ℕ → World → Req × World) (timer : ℕ → ℕ) (watched : Bool)
    (count : ℕ) (reply : ℕ → Option SendNotificationResp) : Pool Req → ℕ → Pool Req → Type 0 where
  over : {s : Pool Req} → Continues build timer watched count reply s 0 s
  reply_first :
      {s t : Pool Req} {n : ℕ} (k i : ℕ)
      → get_elem? s.workers k ≡ some (in_flight i)
      → Continues build timer watched count reply
          (settle build timer watched count k (reply i) s)
          n
          t
      → Continues build timer watched count reply s (suc n) t

module _ {Req : Type 0} (build : ℕ → World → Req × World) (timer : ℕ → ℕ) (watched : Bool)
    (count : ℕ) (concurrency : ℕ) (w : World) (reply : ℕ → Option SendNotificationResp) where
  -- After `n` replies, in whatever order, `n` requests are counted, the total is `count`, and the
  -- requests that were sent are those of the first `limit + n` indices, or of all; as many replies
  -- are awaited as were sent and not counted, and never more than `limit`.
  pub Reach-accounts :
      {n : ℕ} {s : Pool Req}
      → Reach build timer watched count concurrency w reply n s
      → (s.result.ok + s.result.fail + s.result.duplicates ≡ n)
        × (s.result.total ≡ count)
        × (n + outstanding s ≡ min (limit build timer watched count concurrency + n) count)
        × (outstanding s ≤ limit build timer watched count concurrency)
        × (s.sent
            ≡ (build_all build (min (limit build timer watched count concurrency + n) count) w).0)
  Reach-accounts {n} {s} r =
      let v = Reach-Inv build timer watched count w reply r in
      let one = sum_below-one (min s.next count) in
      let c = v.counted (λ _. 1) in
      (
        v.settled,
        v.total_is,
        omega (arith, v.claimed, v.settled),
        omega (arith, v.split),
        rw v.claimed at v.built.sent_is,
      )

  -- While not every request is counted, some worker of `runParallel` awaits a reply: the run is
  -- never stuck.
  pub Reach-awaits :
      {n : ℕ} {s : Pool Req}
      → Reach build timer watched count concurrency w reply n s
      → n < count
      → (k i : ℕ) × (get_elem? s.workers k ≡ some (in_flight i))
  unfolding limit
  Reach-awaits {n} {s} r h =
      let (_, _, out, _, _) = Reach-accounts r in find_in_flight s.workers (omega arith)

  -- All workers of `runParallel` have stopped exactly when `count` replies have come, and more
  -- than `count` never come.
  pub Reach-finished :
      {n : ℕ} {s : Pool Req}
      → Reach build timer watched count concurrency w reply n s
      → ((outstanding s ≡ 0) ↔ (n ≡ count)) × (n ≤ count)
  unfolding limit
  Reach-finished {n} {s} r =
      let (_, _, out, _, _) = Reach-accounts r in
      ((λ h. omega arith, λ h. omega arith), omega arith)

  -- With as many replies left as there are.
  ends_after :
      (left : ℕ) {n : ℕ} {s : Pool Req}
      → Reach build timer watched count concurrency w reply n s
      → n + left ≡ count
      → (t : Pool Req) × Continues build timer watched count reply s left t
        × Reach build timer watched count concurrency w reply count t
        × (outstanding t ≡ 0)
  ends_after zero {n} {s} r h =
      let all : n ≡ count = omega (arith, h) in
      (
        s,
        over,
        subst (λ (m : ℕ). Reach build timer watched count concurrency w reply m s) all r,
        (Reach-finished r).0.1 all,
      )
  ends_after (suc left) {n} {s} r h =
      let (k, i, at) = Reach-awaits r (omega (arith, h)) in
      let (t, more, reached, ended) = ends_after left (then_settle r k i at) (omega (arith, h)) in
      (t, reply_first k i at more, reached, ended)

  -- A run of `runParallel` can always go on to its end: from every state of it, whatever replies have
  -- come, it reaches in `count - n` more replies, `n` having come, a state in which all workers have
  -- stopped.
  pub run_parallel-ends :
      {n : ℕ} {s : Pool Req}
      → Reach build timer watched count concurrency w reply n s
      → (t : Pool Req) × Continues build timer watched count reply s (count - n) t
        × Reach build timer watched count concurrency w reply count t
        × (outstanding t ≡ 0)
  run_parallel-ends {n} r = ends_after (count - n) r (omega (arith, (Reach-finished r).1))

  -- Whatever the order in which the replies come, when all workers have stopped the counters are
  -- those of the outcomes of all requests, and each request was sent once, in the order of the
  -- indices.
  pub run_parallel-Completed :
      {n : ℕ} {s : Pool Req}
      → Reach build timer watched count concurrency w reply n s
      → outstanding s ≡ 0
      → Completed build count w reply (finish build timer watched count s) s.sent
  unfolding finish
  run_parallel-Completed {n} {s} r h =
      let v = Reach-Inv build timer watched count w reply r in
      let over : n ≡ count = (Reach-finished r).0.0 h in
      let all : min s.next count ≡ count = omega (arith, v.claimed) in
      let none_left = λ (p : Outcome → ℕ). none_awaited (λ i. p (send_one (reply i))) s.workers h in
      let sums = λ (p : Outcome → ℕ). rw all at (v.counted p) in
      record {
        accepted = omega (arith, sums weigh_ok, none_left weigh_ok);
        failed = omega (arith, sums weigh_fail, none_left weigh_fail);
        repeated = omega (arith, sums weigh_duplicate, none_left weigh_duplicate);
        all_counted = omega (arith, v.settled, v.total_is);
        total_is = v.total_is;
        all_sent = rw all at v.built.sent_is;
      }
