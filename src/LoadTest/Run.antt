-- ===== src/LoadTest/Run.antt =====
-- web/src/lib/loadTest.ts: `sendOne`, `runParallel` and `runSequential`.
-- The workers of `runParallel` share one thread: each runs from one `await` to the next without a
-- break. So the run is a sequence of settlements, each of one awaited request, in an order that the
-- network chooses; `settle` is all that the source does from a settlement to the next `await`.
pub mod Claim
pub mod Progress
pub mod Sequential
pub mod Complete
use gocourier.Common.{
  ℕ, zero, suc, ◌+◌, ◌-◌, ◌≡◌, Bool, true, false, ◌&&◌, Option, none, some, List, [], ◌∷◌, ◌++◌,
  min, max, ltb, leb, get_elem?, set, if◌then◌else◌, ◌or_else◌,
}
use gocourier.World.{World}
use gocourier.Api.Types.{SendNotificationResp}
use gocourier.LoadTest.Config.{LoadRunResult}

pub data Outcome : Type 0 where
  ok fail duplicate : Outcome

-- `none` is a promise of `send` that is rejected.
unfoldable pub send_one : Option SendNotificationResp → Outcome
send_one none = fail
send_one (some res) = if res.duplicate or_else false then duplicate else ok

unfoldable pub tally : Outcome → LoadRunResult → LoadRunResult
tally ok r = record r { ok = r.ok + 1 }
tally duplicate r = record r { duplicates = r.duplicates + 1 }
tally fail r = record r { fail = r.fail + 1 }

abbrev pub zero_result : ℕ → LoadRunResult
zero_result count = record { ok = 0; fail = 0; duplicates = 0; total = count; elapsed_us = 0 }

-- Where a worker stands: it awaits the reply to the request of an index, or its loop has ended.
pub data Worker : Type 0 where
  in_flight : ℕ → Worker
  stopped : Worker

-- The variables that the workers share, and what they have done: the requests that were sent and the
-- calls of `onProgress`, both in order. `timed` counts the readings of `performance.now()`.
pub record Pool (Req : Type 0) : Type 0 where
  pub next : ℕ
  pub workers : List Worker
  pub result : LoadRunResult
  pub sent : List Req
  pub progress : List LoadRunResult
  pub world : World
  pub timed : ℕ

-- The state of `runSequential`, with the pauses that it made.
pub record Series (Req : Type 0) : Type 0 where
  pub result : LoadRunResult
  pub sent : List Req
  pub progress : List LoadRunResult
  pub world : World
  pub timed : ℕ
  pub sleeps : List ℕ

abbrev pub first_series : {Req : Type 0} → ℕ → World → Series Req
first_series count w = record {
  result = zero_result count;
  sent = [];
  progress = [];
  world = w;
  timed = 1;
  sleeps = [];
}

-- `build` makes the request of an index, `timer` gives the n-th reading of `performance.now()` in
-- microseconds, and `watched` says whether `onProgress` is given.
module _ {Req : Type 0} (build : ℕ → World → Req × World) (timer : ℕ → ℕ) (watched : Bool)
    (count : ℕ) where
  -- From the head of a worker's loop to its next `await`, or to its end.
  unfoldable pub take_next : Pool Req → Worker × Pool Req
  take_next s =
      let i = s.next in
      let made = build i s.world in
      if leb count i
      then (stopped, record s { next = i + 1 })
      else (in_flight i, record s { next = i + 1; sent = s.sent ++ made.0 ∷ []; world = made.1 })

  unfoldable pub spawn : ℕ → Pool Req → Pool Req
  spawn zero s = s
  spawn (suc n) s =
      let (worker, s') = take_next s in spawn n (record s' { workers = s'.workers ++ worker ∷ [] })

  unfoldable pub limit : ℕ → ℕ
  limit concurrency = max 1 (min concurrency count)

  -- The run up to the point where every worker awaits a reply. The first reading of the timer is
  -- `started`.
  unfoldable pub start : ℕ → World → Pool Req
  start concurrency w = spawn (limit concurrency) (record {
    next = 0;
    workers = [];
    result = zero_result count;
    sent = [];
    progress = [];
    world = w;
    timed = 1;
  })

  -- `onProgress?.({ ...result, elapsedMs: performance.now() - started })`
  unfoldable pub notify : Pool Req → Pool Req
  notify s =
      if watched
      then record s {
        progress = s.progress ++ record s.result { elapsed_us = timer s.timed - timer 0 } ∷ [];
        timed = s.timed + 1;
      }
      else s

  -- The reply to what worker `k` awaits arrives.
  unfoldable pub settle : ℕ → Option SendNotificationResp → Pool Req → Pool Req
  settle k reply s =
      let (worker, s') =
        take_next (notify (record s { result = tally (send_one reply) s.result })) in
      record s' { workers = set s'.workers k worker }

  -- What `runParallel` returns once all workers have stopped.
  unfoldable pub finish : Pool Req → LoadRunResult
  finish s = record s.result { elapsed_us = timer s.timed - timer 0 }

  -- The states of a run, with the number of settlements, where `reply i` is the reply to the request
  -- of index `i`.
  pub data Reach (concurrency : ℕ) (w : World) (reply : ℕ → Option SendNotificationResp)
      : ℕ → Pool Req → Type 0 where
    begin : Reach concurrency w reply 0 (start concurrency w)
    then_settle :
        {n : ℕ} {s : Pool Req}
        → Reach concurrency w reply n s
        → (k i : ℕ) → get_elem? s.workers k ≡ some (in_flight i)
        → Reach concurrency w reply (suc n) (settle k (reply i) s)

  -- One round of the loop of `runSequential`, and its pause.
  unfoldable pub sequential_round :
      ℕ → (ℕ → Option SendNotificationResp) → ℕ → Series Req → Series Req
  sequential_round stagger_ms reply i s =
      let made = build i s.world in
      let result = tally (send_one (reply i)) s.result in
      let told =
        if watched
        then s.progress ++ record result { elapsed_us = timer s.timed - timer 0 } ∷ []
        else s.progress in
      record {
        result = result;
        sent = s.sent ++ made.0 ∷ [];
        progress = told;
        world = made.1;
        timed = if watched then s.timed + 1 else s.timed;
        sleeps =
            if ltb 0 stagger_ms && ltb i (count - 1) then s.sleeps ++ stagger_ms ∷ [] else s.sleeps;
      }

  -- The rounds that are left, from an index on.
  unfoldable pub sequential_from :
      ℕ → (ℕ → Option SendNotificationResp) → ℕ → ℕ → Series Req → Series Req
  sequential_from stagger_ms reply zero i s = s
  sequential_from stagger_ms reply (suc left) i s =
      sequential_from stagger_ms reply left (i + 1) (sequential_round stagger_ms reply i s)

  unfoldable pub run_sequential : ℕ → (ℕ → Option SendNotificationResp) → World → Series Req
  run_sequential stagger_ms reply w =
      let s = sequential_from stagger_ms reply count 0 (first_series count w) in
      record s { result = record s.result { elapsed_us = timer s.timed - timer 0 } }
