-- ===== src/Server/Breaker/Invariant.antt =====
-- The breaker: how many failures a closed one has seen, and how an open one closes.
use gocourier.Common.{
  ℕ, ◌+◌, ◌≤◌, ◌<◌, ◌≡◌, refl, true, ◌||◌, List, [], ◌∷◌, length, leb, arith, Bool-cases, inl, inr,
  if◌then◌else◌,
}
use gocourier.Server.Failures.{ok, err, err_circuit_open}
use gocourier.Server.Breaker.{
  Breaker, State, closed, open_circuit, half_open, new, allow, record_success, record_failure,
  recent_failures, is_half_open, allow_in,
}

-- A call of the breaker's methods.
pub data Event : Type 0 where
  asks fails : ℕ → Event
  succeeds : Event

unfoldable pub handle : Event → Breaker → Breaker
handle (asks now) b = (allow now b).1
handle (fails now) b = record_failure now b
handle succeeds b = record_success b

unfoldable pub run : List Event → Breaker → Breaker
unfolding handle
run [] b = b
run (e ∷ es) b = run es (handle e b)

-- A closed breaker has fewer failures than its threshold.
abbrev pub IsBelowIn : State → Breaker → Type 0
IsBelowIn closed b = length b.failures < b.threshold
IsBelowIn _ b = Unit

abbrev pub IsBelow : Breaker → Type 0
IsBelow b = (0 < b.threshold) × IsBelowIn b.state b

allow_in-IsBelow :
    (st : State) (now : ℕ) (b : Breaker)
    → 0 < b.threshold
    → IsBelowIn b.state b
    → IsBelow (allow_in st now b).1
allow_in-IsBelow open_circuit now b pos h = elim (Bool-cases (leb (b.opened_at + b.cooldown) now)) [
  | inl late ↦ rw late (pos, tt)
  | inr early ↦ rw early (pos, h)
]
allow_in-IsBelow half_open now b pos h = (pos, h)
allow_in-IsBelow closed now b pos h = (pos, h)

failed-IsBelow :
    (st : State) (recent : List ℕ) (now : ℕ) (b : Breaker)
    → 0 < b.threshold
    → b.state ≡ st
    → IsBelow (
        if is_half_open st || leb b.threshold (length recent)
        then record b { failures = recent; state = open_circuit; opened_at = now }
        else record b { failures = recent })
failed-IsBelow half_open recent now b pos eq = (pos, tt)
failed-IsBelow open_circuit recent now b pos eq =
    elim (Bool-cases (leb b.threshold (length recent))) [
      | inl full ↦ rw full (pos, tt)
      | inr below ↦ rw (below, eq) (pos, tt)
    ]
failed-IsBelow closed recent now b pos eq = elim (Bool-cases (leb b.threshold (length recent))) [
  | inl full ↦ rw full (pos, tt)
  | inr below ↦ rw (below, eq) (pos, ground (arith, below))
]

handle-IsBelow : (e : Event) (b : Breaker) → IsBelow b → IsBelow (handle e b)
unfolding handle allow record_failure record_success
handle-IsBelow (asks now) b (pos, h) = allow_in-IsBelow b.state now b pos h
handle-IsBelow (fails now) b (pos, h) =
    failed-IsBelow b.state (recent_failures now b) now b pos refl
handle-IsBelow succeeds b (pos, h) = (pos, pos)

run-IsBelow_from : (es : List Event) (b : Breaker) → IsBelow b → IsBelow (run es b)
unfolding run
run-IsBelow_from [] b h = h
run-IsBelow_from (e ∷ es) b h = run-IsBelow_from es (handle e b) (handle-IsBelow e b h)

-- After any calls of a new breaker with a positive threshold, it is closed only if it has fewer failures
-- on record than the threshold, which is still positive.
pub run-IsBelow :
    (threshold window cooldown : ℕ) (es : List Event)
    → 0 < threshold
    → IsBelow (run es (new threshold window cooldown))
unfolding new
run-IsBelow threshold window cooldown es h =
    run-IsBelow_from es (new threshold window cooldown) (h, h)

-- A failure that is a trial's, or reaches the threshold within the window, opens the breaker for the time of the cooldown: until then a request is
-- refused and changes nothing. From then on a request passes as a trial, after which one failure opens the
-- breaker again, at its own time, and a success closes it with no failures on record.
pub record_failure-opens :
    (b : Breaker) (t u v : ℕ)
    → (is_half_open b.state || leb b.threshold (length (recent_failures t b))) ≡ true
    → (u < t + b.cooldown
        → allow u (record_failure t b) ≡ (err err_circuit_open, record_failure t b))
      × (t + b.cooldown ≤ u
          → let (answer, trial) = allow u (record_failure t b) in
            (answer ≡ ok tt)
            × ((record_failure v trial).state ≡ open_circuit)
            × ((record_failure v trial).opened_at ≡ v)
            × ((record_success trial).state ≡ closed)
            × ((record_success trial).failures ≡ []))
unfolding allow record_failure record_success
record_failure-opens b t u v trips = rw trips (λ early. ground arith, λ late. ground arith)
