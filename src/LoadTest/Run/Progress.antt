-- ===== src/LoadTest/Run/Progress.antt =====
-- The invariant of `runParallel`, kept by every settlement in whatever order they come.
use Prim.Native.Nat.add
use gocourier.Common.{
  ℕ, zero, suc, ◌+◌, ◌*◌, ◌≤◌, ◌≡◌, refl, ◌⊎◌, inl, inr, Bool, true, Option, some, List, [], ◌∷◌,
  ◌++◌, arith, min, length, get_elem?, set, total, total-append, total-set, length-append,
  length-set, sum_below, ap, ◌∙◌,
}
use gocourier.World.{World}
use gocourier.Api.Types.{SendNotificationResp}
use gocourier.LoadTest.Config.{LoadRunResult}
use gocourier.LoadTest.Run.{
  Outcome, ok, fail, duplicate, send_one, tally, zero_result, Worker, in_flight, Pool, take_next,
  spawn, limit, start, notify, settle, Reach, begin, then_settle,
}
use gocourier.LoadTest.Run.Claim.{
  awaited, idle, build_all, HasBuilt, take_next-keeps, take_next-awaited, take_next-idle,
  take_next-HasBuilt,
}

-- The counters, weighed by outcome.
abbrev pub score : (Outcome → ℕ) → LoadRunResult → ℕ
score p r = r.ok * p ok + r.fail * p fail + r.duplicates * p duplicate

pub score-tally :
    (p : Outcome → ℕ) (o : Outcome) (r : LoadRunResult) → score p (tally o r) ≡ score p r + p o
unfolding tally
score-tally p ok r = omega arith
score-tally p fail r = omega arith
score-tally p duplicate r = omega arith

pub tally-total : (o : Outcome) (r : LoadRunResult) → (tally o r).total ≡ r.total
unfolding tally
tally-total o r = ground arith

pub tally-settled :
    (o : Outcome) (r : LoadRunResult)
    → (tally o r).ok + (tally o r).fail + (tally o r).duplicates ≡ r.ok + r.fail + r.duplicates + 1
unfolding tally
tally-settled ok r = omega arith
tally-settled fail r = omega arith
tally-settled duplicate r = omega arith

module _ {Req : Type 0} (build : ℕ → World → Req × World) (timer : ℕ → ℕ) (watched : Bool)
    (count : ℕ) (w : World) (reply : ℕ → Option SendNotificationResp) where
  -- The weight of the outcome of the request of an index.
  abbrev pub outcome : (Outcome → ℕ) → ℕ → ℕ
  outcome p i = p (send_one (reply i))

  -- After `n` settlements among `l` workers.
  pub record Inv (l n : ℕ) (s : Pool Req) : Type 0 where
    pub size : length s.workers ≡ l
    pub claimed : s.next ≡ l + n
    pub settled : s.result.ok + s.result.fail + s.result.duplicates ≡ n
    pub total_is : s.result.total ≡ count
    pub counted :
        (p : Outcome → ℕ)
        → score p s.result + total (awaited (outcome p)) s.workers
          ≡ sum_below (outcome p) (min s.next count)
    pub split : total idle s.workers + total (awaited (λ _. 1)) s.workers ≡ l
    pub busy : (total idle s.workers ≡ 0) ⊎ (count ≤ s.next)
    pub built : HasBuilt build w (min s.next count) s.sent s.world
    pub told : watched ≡ true → length s.progress ≡ n

  Inv-empty : Inv 0 0 (record {
    next = 0;
    workers = [];
    result = zero_result count;
    sent = [];
    progress = [];
    world = w;
    timed = 1;
  })
  unfolding total sum_below build_all
  Inv-empty = record {
    size = refl;
    claimed = omega arith;
    settled = refl;
    total_is = refl;
    counted = λ p. let e : min 0 count ≡ 0 = omega arith in rw e (omega arith);
    split = omega arith;
    busy = inl refl;
    built =
        let e : min 0 count ≡ 0 = omega arith in rw e (record { sent_is = refl; world_is = refl });
    told = λ _. refl;
  }

  total-snoc :
      (f : Worker → ℕ) (xs : List Worker) (x : Worker) → total f (xs ++ x ∷ []) ≡ total f xs + f x
  unfolding total
  total-snoc f xs x = omega (arith, total-append f xs (x ∷ []))

  -- One more worker starts.
  Inv-spawn :
      (l n : ℕ) (s : Pool Req) → Inv l n s → Inv (l + 1) n (spawn build timer watched count 1 s)
  unfolding spawn
  Inv-spawn l n s v =
      let r = take_next build timer watched count s in
      let (next, workers, result, progress, timed) = take_next-keeps build timer watched count s in
      let (idle_or, one) = take_next-idle build timer watched count s in
      record {
        size = rw workers (omega (arith, v.size, length-append s.workers (r.0 ∷ [])));
        claimed = omega (arith, next, v.claimed);
        settled = rw result v.settled;
        total_is = rw result v.total_is;
        counted = λ p.
            rw (result, workers, next)
              (omega (
                arith,
                v.counted p,
                take_next-awaited build timer watched count (outcome p) s,
                total-snoc (awaited (outcome p)) s.workers r.0,
              ));
        split = rw workers (
            omega (
              arith,
              v.split,
              one,
              total-snoc idle s.workers r.0,
              total-snoc (awaited (λ _. 1)) s.workers r.0,
            ));
        busy = elim (v.busy) [
          | inl none_idle ↦ elim idle_or [
            | inl awake ↦ inl (rw workers (omega (arith, total-snoc idle s.workers r.0)))
            | inr spent ↦ inr (omega (arith, next))
          ]
          | inr spent ↦ inr (omega (arith, next))
        ];
        built = rw next (take_next-HasBuilt build timer watched count w s v.built);
        told = rw progress v.told;
      }

  Inv-start :
      (m l : ℕ) (s : Pool Req) → Inv l 0 s → Inv (m + l) 0 (spawn build timer watched count m s)
  unfolding spawn
  Inv-start zero l s v = rw add.zero v
  Inv-start (suc m) l s v =
      let e : suc m + l ≡ m + (l + 1) = omega arith in
      rw e (Inv-start m (l + 1) _ (Inv-spawn l 0 s v))

  notify-keeps :
      (s : Pool Req)
      → ((notify build timer watched count s).next ≡ s.next)
        × ((notify build timer watched count s).workers ≡ s.workers)
        × ((notify build timer watched count s).result ≡ s.result)
        × ((notify build timer watched count s).sent ≡ s.sent)
        × ((notify build timer watched count s).world ≡ s.world)
        × (watched ≡ true
            → length (notify build timer watched count s).progress ≡ length s.progress + 1)
  unfolding notify
  notify-keeps s = (
    ground arith,
    ground arith,
    ground arith,
    ground arith,
    ground arith,
    λ h. rw h (omega (arith, length-append {0} s.progress _)),
  )

  -- What a settlement does to the pool `s`: it becomes `u`, and worker `k` goes on as `x`.
  record Settles (s u : Pool Req) (o : Outcome) (x : Worker) : Type 0 where
    next : u.next ≡ s.next + 1
    workers : u.workers ≡ s.workers
    result : u.result ≡ tally o s.result
    progress : watched ≡ true → length u.progress ≡ length s.progress + 1
    claim :
        (f : ℕ → ℕ) → sum_below f (min s.next count) + awaited f x ≡ sum_below f (min u.next count)
    idle_or : (idle x ≡ 0) ⊎ (count ≤ s.next)
    one : idle x + awaited (λ _. 1) x ≡ 1
    built : HasBuilt build w (min u.next count) u.sent u.world

  Inv-replace :
      (l n : ℕ) (s u : Pool Req) (k i : ℕ) (x : Worker)
      → Inv l n s
      → get_elem? s.workers k ≡ some (in_flight i)
      → Settles s u (send_one (reply i)) x
      → Inv l (suc n) (record u { workers = set u.workers k x })
  Inv-replace l n s u k i x v at c = record {
    size = omega (arith, v.size, length-set u.workers k x, ap length c.workers);
    claimed = omega (arith, c.next, v.claimed);
    settled = rw c.result (omega (arith, v.settled, tally-settled (send_one (reply i)) s.result));
    total_is = rw c.result (tally-total _ _ ∙ v.total_is);
    counted = λ p.
        rw (c.result, c.workers)
          (omega (
            arith,
            v.counted p,
            c.claim (outcome p),
            score-tally p (send_one (reply i)) s.result,
            total-set (awaited (outcome p)) s.workers k (in_flight i) x at,
          ));
    split = rw c.workers (
        omega (
          arith,
          v.split,
          c.one,
          total-set idle s.workers k (in_flight i) x at,
          total-set (awaited (λ _. 1)) s.workers k (in_flight i) x at,
        ));
    busy = elim (v.busy) [
      | inl none_idle ↦ elim (c.idle_or) [
        | inl awake ↦
            inl (rw c.workers (omega (arith, total-set idle s.workers k (in_flight i) x at)))
        | inr spent ↦ inr (omega (arith, c.next))
      ]
      | inr spent ↦ inr (omega (arith, c.next))
    ];
    built = c.built;
    told = λ h. omega (arith, c.progress h, v.told h);
  }

  -- A reply keeps the invariant, whichever worker gets it.
  Inv-settle :
      (l n : ℕ) (s : Pool Req) (k i : ℕ)
      → Inv l n s
      → get_elem? s.workers k ≡ some (in_flight i)
      → Inv l (suc n) (settle build timer watched count k (reply i) s)
  unfolding settle
  Inv-settle l n s k i v at =
      let counted_in : Pool Req = record s { result = tally (send_one (reply i)) s.result } in
      let s₁ = notify build timer watched count counted_in in
      let (next₁, workers₁, result₁, sent₁, world₁, progress₁) = notify-keeps counted_in in
      let r = take_next build timer watched count s₁ in
      let (next, workers, result, progress, timed) = take_next-keeps build timer watched count s₁ in
      let (idle_or, one) = take_next-idle build timer watched count s₁ in
      let moved : r.1.next ≡ s.next + 1 = omega (arith, next, next₁) in
      let built : HasBuilt build w (min s₁.next count) s₁.sent s₁.world =
        rw (next₁, sent₁, world₁) v.built in
      Inv-replace l n s r.1 k i r.0 v at (record {
        next = moved;
        workers = workers ∙ workers₁;
        result = result ∙ result₁;
        progress = λ h. rw progress (progress₁ h);
        claim = λ f. omega (
          arith,
          take_next-awaited build timer watched count f s₁,
          ap (λ (t : ℕ). sum_below f (min t count)) next₁,
          ap (λ (t : ℕ). sum_below f (min t count)) next,
        );
        idle_or = elim idle_or [ inl awake ↦ inl awake | inr spent ↦ inr (omega (arith, next₁)) ];
        one = one;
        built = rw next (take_next-HasBuilt build timer watched count w s₁ built);
      })

  -- Every state of a run satisfies the invariant.
  pub Reach-Inv :
      {concurrency n : ℕ} {s : Pool Req}
      → Reach build timer watched count concurrency w reply n s
      → Inv (limit build timer watched count concurrency) n s
  unfolding start
  Reach-Inv {concurrency} begin =
      let l = limit build timer watched count concurrency in
      let e : l + 0 ≡ l = omega arith in rw e at (Inv-start l 0 _ Inv-empty)
  Reach-Inv (then_settle {n} {s} r k i at) = Inv-settle _ n s k i (Reach-Inv r) at
