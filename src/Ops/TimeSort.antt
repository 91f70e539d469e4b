-- ===== src/Ops/TimeSort.antt =====
-- Sorting by time, as web/src/components/ops/DeliveriesTable.tsx and DeliveryDetail.tsx do it with
-- `getTime()`, and what a stable sort keeps.
use gocourier.Common.{
  ℕ, ◌+◌, ◌≡◌, refl, ◌≢◌, Bool, true, false, ◌&&◌, Option, none, some, List, [], ◌∷◌, arith,
  if◌then◌else◌, leb, filter, All, Bool-cases, inl, inr,
}

-- Whether the comparison of `sort` gives no positive number. An invalid date makes it NaN, which
-- `sort` takes for 0.
abbrev pub times_in_order : Bool → Option ℕ → Option ℕ → Bool
times_in_order desc (some a) (some b) = if desc then leb b a else leb a b
times_in_order desc _ _ = true

times_in_order_trans :
    (desc : Bool) (a b c : Option ℕ)
    → b ≢ none
    → times_in_order desc a b ≡ true
    → times_in_order desc b c ≡ true
    → times_in_order desc a c ≡ true
times_in_order_trans desc a b c = ground arith

times_in_order-total :
    (desc : Bool) (a b : Option ℕ)
    → times_in_order desc a b ≡ false
    → times_in_order desc b a ≡ true
times_in_order-total desc a b = ground arith

module _ {A : Type 0} where
  -- How many elements of a list satisfy a test.
  abbrev pub count_of : (A → Bool) → List A → ℕ
  count_of q [] = 0
  count_of q (x ∷ xs) = (if q x then 1 else 0) + count_of q xs

  pub count_of-filter :
      (q p : A → Bool) (xs : List A) → count_of q (filter p xs) ≡ count_of (λ r. p r && q r) xs
  count_of-filter q p [] = refl
  count_of-filter q p (x ∷ xs) = elim (Bool-cases (p x)) [
    | inl kept ↦ rw kept (omega (arith, count_of-filter q p xs))
    | inr dropped ↦ rw dropped (omega (arith, count_of-filter q p xs))
  ]

  pub All-filter : (P : A → Type 0) (p : A → Bool) (xs : List A) → All P xs → All P (filter p xs)
  All-filter P p [] h = tt
  All-filter P p (x ∷ xs) h = elim (Bool-cases (p x)) [
    | inl kept ↦ rw kept (h.0, All-filter P p xs h.1)
    | inr dropped ↦ rw dropped (All-filter P p xs h.1)
  ]

module _ {A : Type 0} (time : A → Option ℕ) where
  abbrev pub in_order : Bool → A → A → Bool
  in_order desc a b = times_in_order desc (time a) (time b)

  -- A stable sort, as `Array.prototype.sort` is: where the comparison is consistent, every stable sort
  -- gives this list.
  unfoldable pub insert_by : Bool → A → List A → List A
  insert_by desc x [] = x ∷ []
  insert_by desc x (y ∷ ys) =
      let later = insert_by desc x ys in if in_order desc x y then x ∷ y ∷ ys else y ∷ later

  unfoldable pub sort_by : Bool → List A → List A
  sort_by desc [] = []
  sort_by desc (x ∷ xs) = insert_by desc x (sort_by desc xs)

  count_of-insert :
      (q : A → Bool) (desc : Bool) (x : A) (ys : List A)
      → count_of q (insert_by desc x ys) ≡ (if q x then 1 else 0) + count_of q ys
  unfolding insert_by
  count_of-insert q desc x [] = refl
  count_of-insert q desc x (y ∷ ys) = elim (Bool-cases (in_order desc x y)) [
    | inl first ↦ rw first
    | inr later ↦ rw later (omega (arith, count_of-insert q desc x ys))
  ]

  pub count_of-sort :
      (q : A → Bool) (desc : Bool) (xs : List A) → count_of q (sort_by desc xs) ≡ count_of q xs
  unfolding sort_by
  count_of-sort q desc [] = refl
  count_of-sort q desc (x ∷ xs) =
      omega (arith, count_of-insert q desc x (sort_by desc xs), count_of-sort q desc xs)

  -- A list in order: each is in order with all behind it.
  abbrev pub IsSorted : Bool → List A → Type 0
  IsSorted desc [] = Unit
  IsSorted desc (x ∷ xs) = All (λ y. in_order desc x y ≡ true) xs × IsSorted desc xs

  -- An element whose time is valid.
  abbrev pub IsDated : A → Type 0
  IsDated r = time r ≢ none

  All-insert :
      (P : A → Type 0) (desc : Bool) (x : A) (ys : List A)
      → P x
      → All P ys
      → All P (insert_by desc x ys)
  unfolding insert_by
  All-insert P desc x [] p h = (p, tt)
  All-insert P desc x (y ∷ ys) p h = elim (Bool-cases (in_order desc x y)) [
    | inl first ↦ rw first (p, h)
    | inr later ↦ rw later (h.0, All-insert P desc x ys p h.1)
  ]

  pub All-sort : (P : A → Type 0) (desc : Bool) (xs : List A) → All P xs → All P (sort_by desc xs)
  unfolding sort_by
  All-sort P desc [] h = tt
  All-sort P desc (x ∷ xs) h = All-insert P desc x _ h.0 (All-sort P desc xs h.1)

  -- What is in order with a dated element is in order with all that the element is in order with.
  All-trans :
      (desc : Bool) (x y : A) (ys : List A)
      → IsDated y
      → in_order desc x y ≡ true
      → All (λ z. in_order desc y z ≡ true) ys
      → All (λ z. in_order desc x z ≡ true) ys
  All-trans desc x y [] d e h = tt
  All-trans desc x y (z ∷ zs) d e h =
      (times_in_order_trans desc _ _ _ d e h.0, All-trans desc x y zs d e h.1)

  insert-IsSorted :
      (desc : Bool) (x : A) (ys : List A)
      → All IsDated ys
      → IsSorted desc ys
      → IsSorted desc (insert_by desc x ys)
  unfolding insert_by
  insert-IsSorted desc x [] d s = (tt, tt)
  insert-IsSorted desc x (y ∷ ys) d s = elim (Bool-cases (in_order desc x y)) [
    | inl first ↦ rw first ((first, All-trans desc x y ys d.0 first s.0), s)
    | inr later ↦ rw later (
      All-insert _ desc x ys (times_in_order-total desc (time x) _ later) s.0,
      insert-IsSorted desc x ys d.1 s.1,
    )
  ]

  pub sort-IsSorted : (desc : Bool) (xs : List A) → All IsDated xs → IsSorted desc (sort_by desc xs)
  unfolding sort_by
  sort-IsSorted desc [] d = tt
  sort-IsSorted desc (x ∷ xs) d =
      insert-IsSorted desc x _ (All-sort IsDated desc xs d.1) (sort-IsSorted desc xs d.1)

  -- A test that only elements of one time pass.
  abbrev pub IsOfTime : ℕ → (A → Bool) → Type 0
  IsOfTime at q = (r : A) → q r ≡ true → time r ≡ some at

  insert-stable :
      (at : ℕ) (q : A → Bool) (desc : Bool) (x : A) (ys : List A)
      → IsOfTime at q
      → filter q (insert_by desc x ys) ≡ filter q (x ∷ ys)
  unfolding insert_by
  insert-stable at q desc x [] one = refl
  insert-stable at q desc x (y ∷ ys) one =
      ground (arith, one x, one y, insert-stable at q desc x ys one)

  pub sort-stable :
      (at : ℕ) (q : A → Bool) (desc : Bool) (xs : List A)
      → IsOfTime at q
      → filter q (sort_by desc xs) ≡ filter q xs
  unfolding sort_by
  sort-stable at q desc [] one = refl
  sort-stable at q desc (x ∷ xs) one =
      ground (arith, insert-stable at q desc x (sort_by desc xs) one, sort-stable at q desc xs one)
