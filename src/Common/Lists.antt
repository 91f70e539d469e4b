-- ===== src/Common/Lists.antt =====
-- Lists over the native numbers: lengths, positions, writes, weighted sums, and predicates.
use Prim.Native.Nat.{ℕ, zero, suc, ◌+◌, ◌≤◌, ◌<◌, min}
use mathlib.Core.Path.{◌≡◌, refl}
use mathlib.Core.Bool.{Bool, true, false, ◌&&◌, ◌||◌}
use mathlib.Core.Option.{Option, none, some}
use mathlib.Core.List.{List, [], ◌∷◌, ◌++◌}
use native.Mathlib.Omega.{arith}
use gocourier.Common.Tests.{if◌then◌else◌}

module _ {ℓ} {A : Type ℓ} where
  abbrev pub length : List A → ℕ
  length [] = 0
  length (x ∷ xs) = suc (length xs)

  abbrev pub get_elem? : List A → ℕ → Option A
  get_elem? [] i = none
  get_elem? (x ∷ xs) zero = some x
  get_elem? (x ∷ xs) (suc i) = get_elem? xs i

  abbrev pub set : List A → ℕ → A → List A
  set [] i v = []
  set (x ∷ xs) zero v = v ∷ xs
  set (x ∷ xs) (suc i) v = x ∷ set xs i v

  abbrev pub all : (A → Bool) → List A → Bool
  all p [] = true
  all p (x ∷ xs) = p x && all p xs

  abbrev pub any : (A → Bool) → List A → Bool
  any p [] = false
  any p (x ∷ xs) = p x || any p xs

  abbrev pub filter : (A → Bool) → List A → List A
  filter p [] = []
  filter p (x ∷ xs) = let rest = filter p xs in if p x then x ∷ rest else rest

  abbrev pub find : (A → Bool) → List A → Option A
  find p [] = none
  find p (x ∷ xs) = let rest = find p xs in if p x then some x else rest

  pub length-append : (xs ys : List A) → length (xs ++ ys) ≡ length xs + length ys
  length-append [] ys = omega arith
  length-append (x ∷ xs) ys = omega (arith, length-append xs ys)

  pub length-set : (xs : List A) (i : ℕ) (v : A) → length (set xs i v) ≡ length xs
  length-set [] i v = refl
  length-set (x ∷ xs) zero v = refl
  length-set (x ∷ xs) (suc i) v = omega (arith, length-set xs i v)

  -- A position that is in range holds an element.
  pub get_elem?-of_lt : (xs : List A) (i : ℕ) → i < length xs → (a : A) × (get_elem? xs i ≡ some a)
  get_elem?-of_lt [] i h = absurd (omega arith)
  get_elem?-of_lt (x ∷ xs) zero h = (x, refl)
  get_elem?-of_lt (x ∷ xs) (suc i) h = get_elem?-of_lt xs i (omega arith)

  -- The list holds the element, at a position that is given.
  abbrev pub Contains : List A → A → Type ℓ
  Contains xs a = (i : ℕ) × (get_elem? xs i ≡ some a)

  pub Contains-cons : (xs : List A) (x a : A) → Contains xs a → Contains (x ∷ xs) a
  Contains-cons xs x a (i, h) = (suc i, h)

  -- A position at which an element stands is in range.
  pub lt_of_get_elem? : (xs : List A) (i : ℕ) (a : A) → get_elem? xs i ≡ some a → i < length xs
  lt_of_get_elem? [] i a h = cc
  lt_of_get_elem? (x ∷ xs) zero a h = omega arith
  lt_of_get_elem? (x ∷ xs) (suc i) a h = omega (arith, lt_of_get_elem? xs i a h)

  -- The sum of a weight over a list.
  unfoldable pub total : (A → ℕ) → List A → ℕ
  total w [] = 0
  total w (x ∷ xs) = w x + total w xs

  pub total-append : (w : A → ℕ) (xs ys : List A) → total w (xs ++ ys) ≡ total w xs + total w ys
  unfolding total
  total-append w [] ys = omega arith
  total-append w (x ∷ xs) ys = omega (arith, total-append w xs ys)

  -- A write moves the sum by the difference of the two weights.
  pub total-set :
      (w : A → ℕ) (xs : List A) (i : ℕ) (a b : A)
      → get_elem? xs i ≡ some a
      → total w (set xs i b) + w a ≡ total w xs + w b
  unfolding total
  total-set w [] i a b h = cc
  total-set w (x ∷ xs) zero a b h = ground arith
  total-set w (x ∷ xs) (suc i) a b h = omega (arith, total-set w xs i a b h)

  -- A member's weight is at most the sum.
  pub get_elem?-le-total :
      (w : A → ℕ) (xs : List A) (i : ℕ) (a : A) → get_elem? xs i ≡ some a → w a ≤ total w xs
  unfolding total
  get_elem?-le-total w [] i a h = cc
  get_elem?-le-total w (x ∷ xs) zero a h = ground arith
  get_elem?-le-total w (x ∷ xs) (suc i) a h = omega (arith, get_elem?-le-total w xs i a h)

module _ {ℓ κ} {A : Type ℓ} (P : A → Type κ) where
  abbrev pub All : List A → Type κ
  All [] = Unit
  All (x ∷ xs) = P x × All xs

  pub All-append : (xs ys : List A) → All xs → All ys → All (xs ++ ys)
  All-append [] ys _ k = k
  All-append (x ∷ xs) ys (p, h) k = (p, All-append xs ys h k)

-- f 0 + … + f (n - 1).
unfoldable pub sum_below : (ℕ → ℕ) → ℕ → ℕ
sum_below f zero = 0
sum_below f (suc n) = sum_below f n + f n

pub sum_below-one : (n : ℕ) → sum_below (λ _. 1) n ≡ n
unfolding sum_below
sum_below-one zero = refl
sum_below-one (suc n) = omega (arith, sum_below-one n)

-- The sum up to a bound that `c` caps, when the bound moves up by one.
pub sum_below-min_of_lt :
    (f : ℕ → ℕ) (n c : ℕ) → n < c → sum_below f (min (n + 1) c) ≡ sum_below f (min n c) + f n
unfolding sum_below
sum_below-min_of_lt f n c h =
    let e : min (n + 1) c ≡ suc n = omega arith in let d : min n c ≡ n = omega arith in rw (e, d)

pub sum_below-min_of_le :
    (f : ℕ → ℕ) (n c : ℕ) → c ≤ n → sum_below f (min (n + 1) c) ≡ sum_below f (min n c)
sum_below-min_of_le f n c h =
    let e : min (n + 1) c ≡ c = omega arith in let d : min n c ≡ c = omega arith in rw (e, d)
