-- ===== src/Ops/DeliveriesTable/Rows.antt =====
-- Which rows the table of web/src/components/ops/DeliveriesTable.tsx shows, and in what order.
use gocourier.Common.{
  ℕ, ◌≤◌, ◌≡◌, ◌∙◌, ◌⊎◌, inl, inr, ◌↔◌, refl, sym, ap, arith, Bool, true, false, ◌&&◌, Option, none,
  some, List, [], ◌∷◌, filter, All, if◌then◌else◌,
}
use gocourier.Api.Types.{DeliveryRow, DeliveryStatus, Channel, status_eq_iff, channel_eq_iff}
use gocourier.Dates.{get_time}
use gocourier.Ops.TimeSort.{
  count_of, in_order, IsSorted, IsDated, IsOfTime, count_of-sort, count_of-filter, All-filter,
  All-sort, sort-IsSorted, sort-stable,
}
use gocourier.Ops.DeliveriesTable.{Table, has_status, has_channel, row_time, filtered_rows}

-- What the filters ask of a row: a filter is off, or names what the row has.
abbrev pub Passes : Table → DeliveryRow → Type 0
Passes t r =
    ((t.status_filter ≡ none) ⊎ (t.status_filter ≡ some r.status))
    × ((t.channel_filter ≡ none) ⊎ (t.channel_filter ≡ some r.channel))

has_status_iff :
    (f : Option DeliveryStatus) (r : DeliveryRow)
    → (has_status f r ≡ true) ↔ ((f ≡ none) ⊎ (f ≡ some r.status))
has_status_iff none r = (λ h. inl refl, λ h. refl)
has_status_iff (some s) r = (
  λ h. inr (ap some (sym ((status_eq_iff r.status s).0 h))),
  λ h. elim h [ inl e ↦ cc | inr e ↦ (status_eq_iff r.status s).1 (cc e) ],
)

has_channel_iff :
    (f : Option Channel) (r : DeliveryRow)
    → (has_channel f r ≡ true) ↔ ((f ≡ none) ⊎ (f ≡ some r.channel))
has_channel_iff none r = (λ h. inl refl, λ h. refl)
has_channel_iff (some c) r = (
  λ h. inr (ap some (sym ((channel_eq_iff r.channel c).0 h))),
  λ h. elim h [ inl e ↦ cc | inr e ↦ (channel_eq_iff r.channel c).1 (cc e) ],
)

-- Two tests that hold of the same are equal.
same_test : (a b : Bool) → (a ≡ true → b ≡ true) → (b ≡ true → a ≡ true) → a ≡ b
same_test true b f g = sym (f refl)
same_test false true f g = g refl
same_test false false f g = refl

Passes-tests :
    (t : Table) (r : DeliveryRow) (b : Bool)
    → ((b ≡ true) ↔ Passes t r)
    → b ≡ (has_status t.status_filter r && has_channel t.channel_filter r)
Passes-tests t r b h =
    let by_status = has_status_iff t.status_filter r in
    let by_channel = has_channel_iff t.channel_filter r in
    same_test b (has_status t.status_filter r && has_channel t.channel_filter r)
      (λ e. rw (by_status.1 (h.0 e).0, by_channel.1 (h.0 e).1) refl)
      (λ e. h.1 (by_status.0 (ground (arith, e)), by_channel.0 (ground (arith, e))))

count_of-same :
    (p q : DeliveryRow → Bool) (xs : List DeliveryRow)
    → ((r : DeliveryRow) → p r ≡ q r)
    → count_of p xs ≡ count_of q xs
count_of-same p q [] h = refl
count_of-same p q (x ∷ xs) h = rw (h x, count_of-same p q xs h) refl

assoc : (a b c : Bool) → (a && (b && c)) ≡ (a && b && c)
assoc true b c = refl
assoc false b c = refl

-- The table shows each row as often as it was given, if each filter is off or names the row's own status or
-- channel, and no other row. `passes` is any test of that, and `q` any test by which rows are counted.
pub filtered_rows-count :
    (t : Table) (rows : List DeliveryRow) (passes q : DeliveryRow → Bool)
    → ((r : DeliveryRow) → (passes r ≡ true) ↔ Passes t r)
    → count_of q (filtered_rows t rows) ≡ count_of (λ r. passes r && q r) rows
unfolding filtered_rows
filtered_rows-count t rows passes q h =
    count_of-sort row_time q t.sort_desc _
    ∙ count_of-filter q (has_channel t.channel_filter) _
    ∙ count_of-filter _ (has_status t.status_filter) rows
    ∙ count_of-same _ _ rows λ r.
      assoc (has_status t.status_filter r) (has_channel t.channel_filter r) (q r)
      ∙ ap (λ (b : Bool). b && q r) (sym (Passes-tests t r (passes r) (h r)))

-- The first of two rows was made no earlier than the second; or no later.
abbrev pub IsPlaced : Bool → DeliveryRow → DeliveryRow → Type 0
IsPlaced newest_first r s =
    (a b : ℕ) × (get_time r.created_at ≡ some a)
    × (get_time s.created_at ≡ some b)
    × (if newest_first then b ≤ a else a ≤ b)

-- Each row is placed before all that come after it.
abbrev pub IsInOrder : Bool → List DeliveryRow → Type 0
IsInOrder newest_first [] = Unit
IsInOrder newest_first (r ∷ rs) = All (IsPlaced newest_first r) rs × IsInOrder newest_first rs

placed :
    (desc : Bool) (r s : DeliveryRow) (a b : Option ℕ)
    → get_time r.created_at ≡ a
    → get_time s.created_at ≡ b
    → IsDated row_time r
    → IsDated row_time s
    → in_order row_time desc r s ≡ true
    → IsPlaced desc r s
placed desc r s none b at_r at_s given_r given_s h = absurd (given_r at_r)
placed desc r s (some a) none at_r at_s given_r given_s h = absurd (given_s at_s)
placed true r s (some a) (some b) at_r at_s given_r given_s h =
    (a, b, at_r, at_s, ground (arith, h, at_r, at_s))
placed false r s (some a) (some b) at_r at_s given_r given_s h =
    (a, b, at_r, at_s, ground (arith, h, at_r, at_s))

All-IsPlaced :
    (desc : Bool) (r : DeliveryRow) (rs : List DeliveryRow)
    → IsDated row_time r
    → All (IsDated row_time) rs
    → All (λ s. in_order row_time desc r s ≡ true) rs
    → All (IsPlaced desc r) rs
All-IsPlaced desc r [] given all_given h = tt
All-IsPlaced desc r (s ∷ rs) given (given_s, all_given) (h, hs) =
    (placed desc r s _ _ refl refl given given_s h, All-IsPlaced desc r rs given all_given hs)

sorted-IsInOrder :
    (desc : Bool) (rs : List DeliveryRow)
    → All (IsDated row_time) rs
    → IsSorted row_time desc rs
    → IsInOrder desc rs
sorted-IsInOrder desc [] given h = tt
sorted-IsInOrder desc (r ∷ rs) (given, all_given) (h, hs) =
    (All-IsPlaced desc r rs given all_given h, sorted-IsInOrder desc rs all_given hs)

-- If all rows have valid dates, those that are shown are in order of the time at which they were made: the
-- newest first where the table sorts downwards, and else the oldest first.
pub filtered_rows-IsSorted :
    (t : Table) (rows : List DeliveryRow)
    → All (IsDated row_time) rows
    → IsInOrder t.sort_desc (filtered_rows t rows)
unfolding filtered_rows
filtered_rows-IsSorted t rows d =
    let shown =
      All-filter (IsDated row_time) (has_channel t.channel_filter) _
        (All-filter (IsDated row_time) (has_status t.status_filter) rows d) in
    sorted-IsInOrder t.sort_desc _ (All-sort row_time (IsDated row_time) t.sort_desc _ shown)
      (sort-IsSorted row_time t.sort_desc _ shown)

-- Rows of one time stay in the order in which they were given, in both directions of the sort.
pub filtered_rows-stable :
    (t : Table) (rows : List DeliveryRow) (at : ℕ) (q : DeliveryRow → Bool)
    → IsOfTime row_time at q
    → filter q (filtered_rows t rows)
      ≡ filter q (filter (has_channel t.channel_filter) (filter (has_status t.status_filter) rows))
unfolding filtered_rows
filtered_rows-stable t rows at q one = sort-stable row_time at q t.sort_desc _ one
