-- ===== src/Ops/DeliveryDetail/Renders.antt =====
-- Where rendering the panel of web/src/components/ops/DeliveryDetail.tsx throws.
use gocourier.Common.{
  ◌≡◌, ◌∙◌, refl, sym, ap, inl, inr, Bool, true, false, not, ◌&&◌, ◌||◌, Option, none, some, List,
  [], ◌∷◌, String, Bool-cases, arith, is_some, any, map, ltb,
}
use gocourier.Html.{Node, nodes, throws, throws_all}
use gocourier.Dates.{get_time}
use gocourier.Api.Types.{DeliveryRow, AttemptRow, AuditRow, OutboxRow, DeliveryDetailResp}
use gocourier.Api.Result.{Result, returned, thrown}
use gocourier.Hooks.{has_id}
use gocourier.Ops.TimeSort.{count_of, count_of-sort}
use gocourier.Ops.StatusBadge.{status_badge}
use gocourier.Ops.DeliveryDetail.State.{fmt, sorted_audit, audit_time}
use gocourier.Ops.DeliveryDetail.Parts.{
  is_given, shown, dated, section_label, meta_row, lookup_bar, detail_header, last_error,
  notification, metadata,
}
use gocourier.Ops.DeliveryDetail.Series.{
  timeline, attempt_list, outbox_list, audit_item, attempt_item, outbox_item,
}
use gocourier.Ops.DeliveryDetail.View.{loaded, Query, loaded_or_throw, for_data, delivery_detail}

-- A date that `new Date` cannot read.
abbrev pub is_invalid : String → Bool
is_invalid iso = not (is_some (get_time iso))

-- A date that is given and that `new Date` cannot read.
abbrev pub is_given_invalid : Option String → Bool
is_given_invalid o = is_given o && is_invalid (shown o)

-- Whether a date of a response is invalid: of the delivery, of an event, of an attempt, or of a row of the
-- outbox. The times of sending later and of publishing count if they are given.
abbrev pub has_invalid_date : DeliveryDetailResp → Bool
has_invalid_date d =
    is_invalid d.delivery.created_at
    || is_invalid d.delivery.updated_at
    || is_given_invalid d.delivery.scheduled_at
    || any (λ a. is_invalid a.created_at) d.audit
    || any (λ a. is_invalid a.started_at) d.attempts
    || any (λ o. is_invalid o.created_at || is_given_invalid o.published_at) d.outbox

dated-throws : (f : String → String) (iso : String) → throws (dated f (fmt iso)) ≡ is_invalid iso
unfolding throws fmt
dated-throws f iso = ground arith

module _ {A : Type 0} {Msg : Type 0} where
  each-throws :
      (f : A → Node Msg) (p : A → Bool) (xs : List A)
      → ((x : A) → throws (f x) ≡ p x)
      → throws_all (nodes (map f xs)) ≡ any p xs
  unfolding throws
  each-throws f p [] h = refl
  each-throws f p (x ∷ xs) h = rw (h x, each-throws f p xs h) refl

any-count : {A : Type 0} (p : A → Bool) (xs : List A) → any p xs ≡ ltb 0 (count_of p xs)
any-count p [] = refl
any-count p (x ∷ xs) = ground (arith, any-count p xs)

any-sorted_audit :
    (p : AuditRow → Bool) (audit : List AuditRow) → any p (sorted_audit audit) ≡ any p audit
unfolding sorted_audit
any-sorted_audit p audit =
    any-count p (sorted_audit audit)
    ∙ ap (ltb 0) (count_of-sort audit_time p false audit)
    ∙ sym (any-count p audit)

audit_item-throws : (a : AuditRow) → throws (audit_item a) ≡ is_invalid a.created_at
unfolding audit_item throws
audit_item-throws a = rw (dated-throws (λ s. s) a.created_at) (ground arith)

timeline-throws :
    (audit : List AuditRow) → throws (timeline audit) ≡ any (λ a. is_invalid a.created_at) audit
unfolding timeline throws section_label
timeline-throws audit =
    rw (each-throws audit_item (λ a. is_invalid a.created_at) audit audit_item-throws)
      (ground arith)

attempt_item-throws : (a : AttemptRow) → throws (attempt_item a) ≡ is_invalid a.started_at
unfolding attempt_item throws
attempt_item-throws a = rw (dated-throws (λ s. s) a.started_at) (ground arith)

attempt_list-throws :
    (xs : List AttemptRow) → throws (attempt_list xs) ≡ any (λ a. is_invalid a.started_at) xs
unfolding attempt_list throws section_label
attempt_list-throws xs =
    rw (each-throws attempt_item (λ a. is_invalid a.started_at) xs attempt_item-throws)
      (ground arith)

outbox_item-throws :
    (o : OutboxRow)
    → throws (outbox_item o) ≡ (is_invalid o.created_at || is_given_invalid o.published_at)
unfolding outbox_item throws
outbox_item-throws o = elim (Bool-cases (is_given o.published_at)) [
  | inl given ↦
      rw (given, dated-throws (λ s. s) o.created_at, dated-throws _ (shown o.published_at))
        (ground arith)
  | inr missing ↦ rw (missing, dated-throws (λ s. s) o.created_at) (ground arith)
]

outbox_list-throws :
    (xs : List OutboxRow)
    → throws (outbox_list xs)
      ≡ any (λ o. is_invalid o.created_at || is_given_invalid o.published_at) xs
unfolding outbox_list throws section_label
outbox_list-throws xs =
    rw
      (each-throws outbox_item (λ o. is_invalid o.created_at || is_given_invalid o.published_at) xs
        outbox_item-throws)
      (ground arith)

metadata-throws :
    (d : DeliveryRow)
    → throws (metadata d)
      ≡ (is_invalid d.created_at || is_invalid d.updated_at || is_given_invalid d.scheduled_at)
unfolding metadata throws section_label meta_row
metadata-throws d =
    rw (dated-throws (λ s. s) d.created_at, dated-throws (λ s. s) d.updated_at)
      (elim (Bool-cases (is_given d.scheduled_at)) [
        | inl given ↦ rw (given, dated-throws (λ s. s) (shown d.scheduled_at)) (ground arith)
        | inr missing ↦ rw missing (ground arith)
      ])

notification-throws : (d : DeliveryRow) → throws (notification d) ≡ false
unfolding notification throws section_label meta_row
notification-throws d = ground arith

last_error-throws : (d : DeliveryRow) → throws (last_error d) ≡ false
unfolding last_error throws
last_error-throws d = ground arith

lookup_bar-throws : (lookup : String) (busy : Bool) → throws (lookup_bar lookup busy) ≡ false
unfolding lookup_bar throws
lookup_bar-throws lookup busy = refl

header-throws : (replaying : Bool) (d : DeliveryRow) → throws (detail_header replaying d) ≡ false
unfolding detail_header throws status_badge
header-throws replaying d = ground arith

loaded-throws :
    (lookup : String) (busy replaying : Bool) (d : DeliveryDetailResp)
    → throws (loaded lookup busy replaying d) ≡ has_invalid_date d
unfolding loaded throws
loaded-throws lookup busy replaying d =
    rw
      (
        lookup_bar-throws lookup busy,
        header-throws replaying d.delivery,
        last_error-throws d.delivery,
        notification-throws d.delivery,
        metadata-throws d.delivery,
        timeline-throws (sorted_audit d.audit),
        any-sorted_audit (λ a. is_invalid a.created_at) d.audit,
        attempt_list-throws d.attempts,
        outbox_list-throws d.outbox,
      )
      (ground arith)

abbrev pub is_returned {ℓ} : {A : Type ℓ} → Result A → Bool
is_returned (returned _) = true
is_returned (thrown _) = false

-- Whether the data of a query, if it has any, have no invalid date.
abbrev pub has_valid_dates : Option DeliveryDetailResp → Bool
has_valid_dates none = true
has_valid_dates (some d) = not (has_invalid_date d)

for_data-is_returned :
    (lookup : String) (replaying : Bool) (q : Query) (id : String)
    (data_now : Option DeliveryDetailResp)
    → is_returned (for_data lookup replaying q id data_now)
      ≡ (q.is_error || has_valid_dates data_now)
unfolding loaded_or_throw
for_data-is_returned lookup replaying q id none = ground arith
for_data-is_returned lookup replaying q id (some d) =
    rw (loaded-throws lookup q.is_loading replaying d) (ground arith)

-- The panel is rendered, except where a delivery is selected whose query has data and no error, and a date in
-- the data is invalid: one of the delivery itself, of an event, of an attempt or of a row of the outbox, where
-- the times of sending later and of publishing count if they are given. Then rendering throws.
pub delivery_detail-renders :
    (id : Option String) (lookup : String) (q : Query) (replaying : Bool)
    → is_returned (delivery_detail id lookup q replaying)
      ≡ (not (has_id id) || q.is_error || has_valid_dates q.data_now)
unfolding delivery_detail
delivery_detail-renders id lookup q replaying = elim (Bool-cases (has_id id)) [
  | inl given ↦ rw given (for_data-is_returned lookup replaying q _ q.data_now)
  | inr empty ↦ rw empty refl
]
