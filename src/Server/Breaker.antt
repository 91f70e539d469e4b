-- ===== src/Server/Breaker.antt =====
-- pkg/circuitbreaker/breaker.go. Each method holds the mutex throughout, so a call is one step; the time
-- is an argument.
pub mod Invariant
use gocourier.Common.{
  ℕ, ◌+◌, Bool, ◌||◌, List, [], ◌∷◌, ◌++◌, if◌then◌else◌, ltb, leb, length, filter, true, false,
}
use gocourier.Server.Failures.{Outcome, ok, err, err_circuit_open}

pub data State : Type 0 where
  closed open_circuit half_open : State

pub record Breaker : Type 0 where
  pub threshold : ℕ
  pub window : ℕ
  pub cooldown : ℕ
  pub failures : List ℕ
  pub state : State
  pub opened_at : ℕ

-- `New`; the zero time of `openedAt` is 0.
unfoldable pub new : ℕ → ℕ → ℕ → Breaker
new threshold window cooldown = record {
  threshold = threshold;
  window = window;
  cooldown = cooldown;
  failures = [];
  state = closed;
  opened_at = 0;
}

abbrev pub allow_in : State → ℕ → Breaker → Outcome (Unit {0}) × Breaker
allow_in open_circuit now b =
    if leb (b.opened_at + b.cooldown) now
    then (ok tt, record b { state = half_open })
    else (err err_circuit_open, b)
allow_in half_open now b = (ok tt, b)
allow_in closed now b = (ok tt, b)

unfoldable pub allow : ℕ → Breaker → Outcome (Unit {0}) × Breaker
allow now b = allow_in b.state now b

unfoldable pub record_success : Breaker → Breaker
record_success b = record b { failures = []; state = closed }

abbrev pub is_half_open : State → Bool
is_half_open half_open = true
is_half_open _ = false

-- The failures inside the window that ends now, the present one last.
unfoldable pub recent_failures : ℕ → Breaker → List ℕ
recent_failures now b = filter (λ t. ltb now (t + b.window)) b.failures ++ now ∷ []

unfoldable pub record_failure : ℕ → Breaker → Breaker
record_failure now b =
    let recent = recent_failures now b in
    if is_half_open b.state || leb b.threshold (length recent)
    then record b { failures = recent; state = open_circuit; opened_at = now }
    else record b { failures = recent }
