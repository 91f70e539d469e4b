-- ===== src/World.antt =====
-- The browser as the program's functions use it: random numbers and the clock, read one after another.
-- `Math.random()` is `numerator / 2^53`, and only products `Math.floor(Math.random() * n)` and its
-- text in radix 36 are taken; that text is the engine's choice (ECMAScript, Number::toString), so the
-- world holds it. Times are whole: milliseconds for `Date.now()`.
use gocourier.Common.{ℕ, ◌+◌, ◌^◌, ◌<◌, String}

pub record World : Type 0 where
  -- the numerator of the n-th random number, and what `toString(36)` prints of a random number
  pub random : ℕ → ℕ
  pub radix36 : ℕ → String
  -- the n-th reading of `Date.now()`
  pub clock : ℕ → ℕ
  -- how many of each were taken
  pub drawn : ℕ
  pub ticked : ℕ

-- `Math.random()` lies in [0, 1).
pub record IsBrowser (w : World) : Type 0 where
  pub random_lt : (n : ℕ) → w.random n < 2 ^ 53

abbrev pub M : Type 0 → Type 0
M A = World → A × World

infixl 5 ◌>>=◌ ◌>>◌
abbrev pub ◌>>=◌ : {A B : Type 0} → M A → (A → M B) → M B
◌>>=◌ m f w = let r = m w in f r.0 r.1

abbrev pub ◌>>◌ : {A B : Type 0} → M A → M B → M B
m >> k = m >>= λ _. k

abbrev pub pure : {A : Type 0} → A → M A
pure a w = (a, w)

unfoldable pub math_random : M ℕ
math_random w = (w.random w.drawn, record w { drawn = w.drawn + 1 })

unfoldable pub date_now : M ℕ
date_now w = (w.clock w.ticked, record w { ticked = w.ticked + 1 })
