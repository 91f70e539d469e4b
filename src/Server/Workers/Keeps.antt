-- ===== src/Server/Workers/Keeps.antt =====
-- What one call does to the rows of a delivery and to what was sent, if the protocol allows it.
use gocourier.Common.{
  ℕ, ◌+◌, ◌≤◌, ◌≡◌, refl, Bool, true, false, List, String, if◌then◌else◌, str_eq, eq_iff, arith,
  any, Bool-cases, inl, inr,
}
use gocourier.Api.Types.{DeliveryStatus, status_eq, status_eq_iff}
use gocourier.Server.Failures.{ok}
use gocourier.Server.Delivery.{Delivery}
use gocourier.Server.Postgres.{has_id, has_id_and_status, overwrite}
use gocourier.Server.Workers.Protocol.{
  Part, out, claimed, delivered, claims, delivers, is_claimable, is_processing, may_update,
  may_claim, won, won,
}
use gocourier.Server.Workers.Rows.{
  every, rows, rows_disjoint, rows_mono, rows-overwrite_ne, rows-overwrite, rows-overwrite_if,
  any-rows,
}

-- A delivery has one row at most and was sent once at most. Each holder has a row that is processing. What
-- was sent, is claimed, or can be claimed, is one in all.
pub record IsSafe (i : String) (ds : List Delivery) (sent claiming delivering : ℕ) : Type 0 where
  pub one_row : rows i every ds ≤ 1
  pub sent_le : sent ≤ rows i every ds
  pub held : claiming + delivering ≤ rows i is_processing ds
  pub once : sent + claiming + rows i is_claimable ds ≤ 1

processing-not_claimable : (s : DeliveryStatus) → is_processing s ≡ true → is_claimable s ≡ false
processing-not_claimable DeliveryStatus.processing h = refl
processing-not_claimable _ h = ground arith

pub row_bounds :
    (i : String) (ds : List Delivery)
    → rows i is_processing ds + rows i is_claimable ds ≤ rows i every ds
row_bounds i ds = rows_disjoint i is_processing is_claimable ds processing-not_claimable

-- What leaves the counts of the rows alone.
pub IsSafe-of_rows :
    (i : String) (ds es : List Delivery) (sent c e : ℕ)
    → IsSafe i ds sent c e
    → ((p : DeliveryStatus → Bool) → rows i p es ≡ rows i p ds)
    → IsSafe i es sent c e
IsSafe-of_rows i ds es sent c e safe same = record {
  one_row = rw (same every) safe.one_row;
  sent_le = rw (same every) safe.sent_le;
  held = rw (same is_processing) safe.held;
  once = rw (same is_claimable) safe.once;
}

-- A holder's write.
update_own :
    (i : String) (d : Delivery) (h : Part) (s : DeliveryStatus) (ds : List Delivery) (sent c e : ℕ)
    → IsSafe i ds sent (c + claims h) (e + delivers h)
    → d.status ≡ s
    → may_update h s ≡ true
    → IsSafe i (overwrite (has_id i) d ds) sent (c + 0) (e + 0)
update_own i d claimed s ds sent c e safe eq allowed = ground (
  arith,
  row_bounds i ds,
  rows-overwrite i every d ds,
  rows-overwrite i is_processing d ds,
  rows-overwrite i is_claimable d ds,
  processing-not_claimable d.status,
)
update_own i d delivered DeliveryStatus.succeeded ds sent c e safe eq allowed = ground (
  arith,
  row_bounds i ds,
  rows-overwrite i every d ds,
  rows-overwrite i is_processing d ds,
  rows-overwrite i is_claimable d ds,
)
update_own i d _ s ds sent c e safe eq allowed = cc

pub update_at :
    (i j : String) (d : Delivery) (h : Part) (ds : List Delivery) (sent c e : ℕ)
    → IsSafe i ds sent (c + claims h) (e + delivers h)
    → (str_eq j i ≡ true → may_update h d.status ≡ true)
    → IsSafe i
        (overwrite (has_id j) d ds)
        sent
        (c + claims (if str_eq j i then out else h))
        (e + delivers (if str_eq j i then out else h))
update_at i j d h ds sent c e safe allowed = elim (Bool-cases (str_eq j i)) [
  | inl same ↦
      rw (same, (eq_iff j i).0 same)
        (update_own i d h d.status ds sent c e safe refl (allowed same))
  | inr other ↦
      let apart : (x : Delivery) → has_id j x ≡ true → str_eq x.id i ≡ false =
        λ x h. rw ((eq_iff x.id j).0 h) other in
      rw other (
        IsSafe-of_rows i ds _ sent (c + claims h) (e + delivers h) safe
          (λ p. rows-overwrite_ne i p (has_id j) d ds apart))
]

is_claimable-of_eq :
    (e : DeliveryStatus)
    → is_claimable e ≡ true
    → (s : DeliveryStatus) → status_eq s e ≡ true
    → is_claimable s ≡ true
is_claimable-of_eq e h s k = rw ((status_eq_iff s e).0 k) h

-- A successful compare and set of a program that holds nothing, and one that changes a row with its answer lost.
claim_own :
    (i : String) (d : Delivery) (h : Part) (expected : DeliveryStatus) (ds : List Delivery)
    (sent c e : ℕ)
    → IsSafe i ds sent (c + claims h) (e + delivers h)
    → may_claim h d.status expected ≡ true
    → IsSafe i (overwrite (has_id_and_status i expected) d ds) sent (c + claims h) (e + delivers h)
      × (any (has_id_and_status i expected) ds ≡ true
          → IsSafe i (overwrite (has_id_and_status i expected) d ds) sent (c + 1) (e + 0))
claim_own i d out expected ds sent c e safe allowed = (
  ground (
    arith,
    row_bounds i ds,
    matched_le,
    rows-overwrite_if i every d expected ds,
    rows-overwrite_if i is_processing d expected ds,
    rows-overwrite_if i is_claimable d expected ds,
    processing-not_claimable d.status,
    processing-not_claimable expected,
  ),
  λ won. ground (
    arith,
    row_bounds i ds,
    matched_le,
    any-rows i expected ds won,
    rows-overwrite_if i every d expected ds,
    rows-overwrite_if i is_processing d expected ds,
    rows-overwrite_if i is_claimable d expected ds,
    processing-not_claimable d.status,
    processing-not_claimable expected,
  ),
)
  where
    matched_le :
        is_claimable expected ≡ true
        → rows i (λ s. status_eq s expected) ds ≤ rows i is_claimable ds
    matched_le h =
        rows_mono i (λ s. status_eq s expected) is_claimable ds (is_claimable-of_eq expected h)
claim_own i d _ expected ds sent c e safe allowed = cc

-- The part after a compare and set with that answer, on the rows that it leaves.
pub claim_at :
    (i j : String) (d : Delivery) (h : Part) (expected : DeliveryStatus) (ds : List Delivery)
    (sent c e : ℕ)
    → IsSafe i ds sent (c + claims h) (e + delivers h)
    → (str_eq j i ≡ true → may_claim h d.status expected ≡ true)
    → IsSafe i (overwrite (has_id_and_status j expected) d ds) sent (c + claims h) (e + delivers h)
      × IsSafe i
          (overwrite (has_id_and_status j expected) d ds)
          sent
          (c
            + claims (if str_eq j i then won h (ok (any (has_id_and_status j expected) ds)) else h))
          (e
            + delivers
                (if str_eq j i then won h (ok (any (has_id_and_status j expected) ds)) else h))
claim_at i j d h expected ds sent c e safe allowed = elim (Bool-cases (str_eq j i)) [
  | inl same ↦
      let own = claim_own i d h expected ds sent c e safe (allowed same) in
      rw (same, (eq_iff j i).0 same)
        (
          own.0,
          elim (Bool-cases (any (has_id_and_status i expected) ds)) [
            | inl matched ↦ rw matched (own.1 matched)
            | inr unmatched ↦ rw unmatched own.0
          ],
        )
  | inr other ↦
      let apart : (x : Delivery) → has_id_and_status j expected x ≡ true → str_eq x.id i ≡ false =
        λ x t. ground (arith, eq_iff x.id j, eq_iff x.id i, eq_iff j i) in
      let kept =
        IsSafe-of_rows i ds _ sent (c + claims h) (e + delivers h) safe
          (λ p. rows-overwrite_ne i p (has_id_and_status j expected) d ds apart) in
      rw other (kept, kept)
]
