-- ===== src/LoadTest/Run/Claim.antt =====
-- How the workers of `runParallel` hand out the indices: what one claim of an index does.
use gocourier.Common.{
  ℕ, zero, suc, ◌+◌, ◌≤◌, ◌≡◌, ◌⊎◌, inl, inr, Bool, List, [], ◌∷◌, ◌++◌, arith, min, leb, sum_below,
  sum_below-min_of_lt, sum_below-min_of_le, Bool-cases,
}
use gocourier.World.{World}
use gocourier.LoadTest.Run.{Worker, in_flight, stopped, Pool, take_next}

-- The weight of what a worker awaits.
abbrev pub awaited : (ℕ → ℕ) → Worker → ℕ
awaited f (in_flight i) = f i
awaited f stopped = 0

-- A worker whose loop has ended counts 1.
abbrev pub idle : Worker → ℕ
idle (in_flight i) = 0
idle stopped = 1

module _ {Req : Type 0} (build : ℕ → World → Req × World) where
  -- What `build` makes of the indices below `n`, in order, and the world after that.
  unfoldable pub build_all : ℕ → World → List Req × World
  build_all zero w = ([], w)
  build_all (suc n) w =
      let (reqs, w') = build_all n w in let made = build n w' in (reqs ++ made.0 ∷ [], made.1)

-- The requests of the pool are those of the indices below a bound.
pub record HasBuilt {Req : Type 0} (build : ℕ → World → Req × World) (w : World) (n : ℕ)
    (sent : List Req) (world : World) : Type 0 where
  pub sent_is : sent ≡ (build_all build n w).0
  pub world_is : world ≡ (build_all build n w).1

module _ {Req : Type 0} (build : ℕ → World → Req × World) (timer : ℕ → ℕ) (watched : Bool)
    (count : ℕ) where
  pub take_next-keeps :
      (s : Pool Req)
      → ((take_next build timer watched count s).1.next ≡ s.next + 1)
        × ((take_next build timer watched count s).1.workers ≡ s.workers)
        × ((take_next build timer watched count s).1.result ≡ s.result)
        × ((take_next build timer watched count s).1.progress ≡ s.progress)
        × ((take_next build timer watched count s).1.timed ≡ s.timed)
  unfolding take_next
  take_next-keeps s = ground arith

  -- The claimed index is the next term of the sum, if there is one left.
  pub take_next-awaited :
      (f : ℕ → ℕ) (s : Pool Req)
      → sum_below f (min s.next count) + awaited f (take_next build timer watched count s).0
        ≡ sum_below f (min (s.next + 1) count)
  unfolding take_next
  take_next-awaited f s = elim (Bool-cases (leb count s.next)) [
    | inl done ↦ rw done (omega (arith, sum_below-min_of_le f s.next count (ground arith)))
    | inr more ↦ rw more (omega (arith, sum_below-min_of_lt f s.next count (ground arith)))
  ]

  -- A worker stops only when no index is left.
  pub take_next-idle :
      (s : Pool Req)
      → ((idle (take_next build timer watched count s).0 ≡ 0) ⊎ (count ≤ s.next))
        × (idle (take_next build timer watched count s).0
              + awaited (λ _. 1) (take_next build timer watched count s).0
            ≡ 1)
  unfolding take_next
  take_next-idle s = ground arith

  pub take_next-HasBuilt :
      (w : World) (s : Pool Req)
      → HasBuilt build w (min s.next count) s.sent s.world
      → HasBuilt build w
          (min (s.next + 1) count)
          (take_next build timer watched count s).1.sent
          (take_next build timer watched count s).1.world
  unfolding take_next build_all
  take_next-HasBuilt w s h = elim (Bool-cases (leb count s.next)) [
    | inl done ↦ let e : min (s.next + 1) count ≡ min s.next count = ground arith in rw (done, e) h
    | inr more ↦
        let e : min (s.next + 1) count ≡ suc s.next = ground arith in
        let d : min s.next count ≡ s.next = ground arith in
        let k : HasBuilt build w s.next s.sent s.world = rw d at h in
        rw (more, e) (record { sent_is = cc (k.sent_is, k.world_is); world_is = cc (k.world_is) })
  ]
