-- ===== src/Server/Workers/Rows.antt =====
-- The rows of one delivery, weighed by their status, under the writes of the repositories.
use gocourier.Common.{
  ℕ, ◌+◌, ◌≤◌, ◌≡◌, refl, Bool, true, false, List, [], ◌∷◌, ◌++◌, String, if◌then◌else◌, str_eq,
  arith, any, is_some, Bool-cases, inl, inr,
}
use gocourier.Api.Types.{DeliveryStatus, status_eq, status_eq_iff}
use gocourier.Server.Delivery.{Delivery}
use gocourier.Server.Postgres.{has_id, has_id_and_status, overwrite, find_delivery}

abbrev weight : Bool → ℕ
weight b = if b then 1 else 0

abbrev pub every : DeliveryStatus → Bool
every s = true

-- How many rows of the delivery `i` have a status that passes the test.
unfoldable pub rows : String → (DeliveryStatus → Bool) → List Delivery → ℕ
rows i p [] = 0
rows i p (d ∷ ds) = (if str_eq d.id i then weight (p d.status) else 0) + rows i p ds

pub rows-append :
    (i : String) (p : DeliveryStatus → Bool) (xs ys : List Delivery)
    → rows i p (xs ++ ys) ≡ rows i p xs + rows i p ys
unfolding rows
rows-append i p [] ys = omega arith
rows-append i p (x ∷ xs) ys = omega (arith, rows-append i p xs ys)

-- Tests that exclude each other count no row twice.
pub rows_disjoint :
    (i : String) (p q : DeliveryStatus → Bool) (ds : List Delivery)
    → ((s : DeliveryStatus) → p s ≡ true → q s ≡ false)
    → rows i p ds + rows i q ds ≤ rows i every ds
unfolding rows
rows_disjoint i p q [] h = omega arith
rows_disjoint i p q (d ∷ ds) h = ground (arith, rows_disjoint i p q ds h, h d.status)

pub rows_mono :
    (i : String) (p q : DeliveryStatus → Bool) (ds : List Delivery)
    → ((s : DeliveryStatus) → p s ≡ true → q s ≡ true)
    → rows i p ds ≤ rows i q ds
unfolding rows
rows_mono i p q [] h = omega arith
rows_mono i p q (d ∷ ds) h = ground (arith, rows_mono i p q ds h, h d.status)

-- A write to another delivery.
pub rows-overwrite_ne :
    (i : String) (p : DeliveryStatus → Bool) (t : Delivery → Bool) (new : Delivery)
    (ds : List Delivery)
    → ((d : Delivery) → t d ≡ true → str_eq d.id i ≡ false)
    → rows i p (overwrite t new ds) ≡ rows i p ds
unfolding rows overwrite
rows-overwrite_ne i p t new [] h = refl
rows-overwrite_ne i p t new (d ∷ ds) h = ground (arith, rows-overwrite_ne i p t new ds h, h d)

-- A write to every row of the delivery.
pub rows-overwrite :
    (i : String) (p : DeliveryStatus → Bool) (new : Delivery) (ds : List Delivery)
    → rows i p (overwrite (has_id i) new ds) ≡ (if p new.status then rows i every ds else 0)
unfolding rows overwrite
rows-overwrite i p new [] = ground arith
rows-overwrite i p new (d ∷ ds) = ground (arith, rows-overwrite i p new ds)

-- A write to the rows of one status: how many pass the test before and after.
pub rows-overwrite_if :
    (i : String) (p : DeliveryStatus → Bool) (new : Delivery) (e : DeliveryStatus)
    (ds : List Delivery)
    → rows i p (overwrite (has_id_and_status i e) new ds)
        + (if p e then rows i (λ s. status_eq s e) ds else 0)
      ≡ rows i p ds + (if p new.status then rows i (λ s. status_eq s e) ds else 0)
unfolding rows overwrite
rows-overwrite_if i p new e [] = ground arith
rows-overwrite_if i p new e (d ∷ ds) = elim (Bool-cases (status_eq d.status e)) [
  | inl same ↦
      let at : d.status ≡ e = (status_eq_iff d.status e).0 same in
      rw (same, at) (ground (arith, rows-overwrite_if i p new e ds))
  | inr other ↦ rw other (ground (arith, rows-overwrite_if i p new e ds))
]

-- The answer of a compare and set: whether there is a row of that status.
pub any-rows :
    (i : String) (e : DeliveryStatus) (ds : List Delivery)
    → any (has_id_and_status i e) ds ≡ true
    → 1 ≤ rows i (λ s. status_eq s e) ds
unfolding rows
any-rows i e [] h = cc
any-rows i e (d ∷ ds) h = ground (arith, any-rows i e ds)

pub rows_of_none :
    (i : String) (p : DeliveryStatus → Bool) (ds : List Delivery)
    → is_some (find_delivery i ds) ≡ false
    → rows i p ds ≡ 0
unfolding rows find_delivery
rows_of_none i p [] h = refl
rows_of_none i p (d ∷ ds) h = ground (arith, rows_of_none i p ds)
