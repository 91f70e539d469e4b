-- ===== src/Server/Retry/Bounds.antt =====
-- How long a delay is, and when `Delay` panics.
use gocourier.Common.{
  ℕ, ◌+◌, ◌-◌, ◌*◌, ◌/◌, ◌^◌, ◌≤◌, ◌<◌, ◌≡◌, refl, ◌⊎◌, inl, inr, none, some, ltb, leb, max, min,
  arith, Bool-cases, if◌then◌else◌,
}
use gocourier.Server.Retry.{product64, delay}

-- If `rand.Int63n(n)` is below `n` for a positive `n`: either the product overflows the 63 bits, or the smaller of the
-- product and the maximum is at most one nanosecond, and `Delay` panics; or the delay is the
-- smaller of the two with a random number added that is below half of it, and so less than one and a half
-- times it. What is added is not cut at the maximum.
pub delay_bounds :
    (int63n : ℕ → ℕ) (attempt base maximum : ℕ)
    → ((n : ℕ) → 0 < n → int63n n < n)
    → let product = product64 base (max attempt 1 - 1) in
      let d = min maximum product in
      ((delay int63n attempt base maximum ≡ none) × ((2 ^ 63 ≤ product) ⊎ (d ≤ 1)))
      ⊎ ((x : ℕ) × (delay int63n attempt base maximum ≡ some x)
          × (product < 2 ^ 63)
          × (x ≡ d + int63n (d / 2))
          × (d ≤ x)
          × (2 * x < 3 * d))
unfolding delay
delay_bounds int63n attempt base maximum below =
    let product = product64 base (max attempt 1 - 1) in
    let d = if ltb maximum product then maximum else product in
    elim (Bool-cases (leb (2 ^ 63) product)) [
      | inl over ↦ inl (rw over refl, inl (ground (arith, over)))
      | inr fits ↦ elim (Bool-cases (ltb 1 d)) [
        | inl long ↦ inr (
          d + int63n (d / 2),
          rw (fits, long) refl,
          ground (arith, fits),
          ground arith,
          ground arith,
          ground (arith, long, below (d / 2)),
        )
        | inr short ↦ inl (rw (fits, short) refl, inr (ground (arith, short)))
      ]
    ]

-- Where the product of the base and the power of two fits, it is that product.
pub product64-of_lt : (base k : ℕ) → base * 2 ^ k < 2 ^ 64 → product64 base k ≡ base * 2 ^ k
unfolding product64
product64-of_lt base k h = omega arith
