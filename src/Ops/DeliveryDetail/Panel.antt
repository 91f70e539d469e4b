-- ===== src/Ops/DeliveryDetail/Panel.antt =====
-- What the panel of web/src/components/ops/DeliveryDetail.tsx shows and offers.
use gocourier.Common.{
  ℕ, ◌≡◌, refl, Bool, true, false, not, ◌&&◌, List, [], ◌∷◌, ◌++◌, String, if◌then◌else◌, All,
  arith, filter, map,
}
use gocourier.Html.{Node, nodes, clicks, clicks_all, submits, when}
use gocourier.Api.Types.{
  dlq, DeliveryRow, AttemptRow, AuditRow, OutboxRow, DeliveryDetailResp, status_eq,
}
use gocourier.Ops.TimeSort.{
  count_of, IsSorted, IsDated, IsOfTime, count_of-sort, sort-IsSorted, sort-stable,
}
use gocourier.Ops.StatusBadge.{status_badge}
use gocourier.Ops.DeliveryDetail.State.{
  submit_lookup, copy, replay, close, sorted_audit, audit_time,
}
use gocourier.Ops.DeliveryDetail.Parts.{
  section_label, meta_row, lookup_bar, detail_header, last_error, notification, metadata,
}
use gocourier.Ops.DeliveryDetail.Series.{
  timeline, attempt_list, outbox_list, audit_item, attempt_item, outbox_item,
}
use gocourier.Ops.DeliveryDetail.View.{loaded}

module _ {A : Type 0} {Msg : Type 0} where
  -- A list whose elements offer no click offers none.
  each-clicks_none :
      (f : A → Node Msg) (xs : List A)
      → ((x : A) → clicks (f x) ≡ [])
      → clicks_all (nodes (map f xs)) ≡ []
  unfolding clicks
  each-clicks_none f [] h = refl
  each-clicks_none f (x ∷ xs) h = rw (h x) (each-clicks_none f xs h)

module _ {Msg : Type 0} where
  when-clicks_none : (b : Bool) (x : Node Msg) → clicks x ≡ [] → clicks (when b x) ≡ []
  unfolding clicks
  when-clicks_none true x h = h
  when-clicks_none false x h = refl

header-clicks :
    (replaying : Bool) (d : DeliveryRow)
    → clicks (detail_header replaying d)
      ≡ copy ∷ (if status_eq d.status dlq && not replaying then replay ∷ close ∷ [] else close ∷ [])
unfolding detail_header clicks status_badge
header-clicks replaying d = ground arith

audit_item-clicks : (x : AuditRow) → clicks (audit_item x) ≡ []
unfolding audit_item clicks
audit_item-clicks x = ground arith

timeline-clicks : (audit : List AuditRow) → clicks (timeline audit) ≡ []
unfolding timeline clicks section_label
timeline-clicks audit = rw (each-clicks_none audit_item audit audit_item-clicks) (ground arith)

attempt_item-clicks : (x : AttemptRow) → clicks (attempt_item x) ≡ []
unfolding attempt_item clicks
attempt_item-clicks x = ground arith

attempt_list-clicks : (attempts : List AttemptRow) → clicks (attempt_list attempts) ≡ []
unfolding attempt_list clicks section_label
attempt_list-clicks attempts =
    rw (each-clicks_none attempt_item attempts attempt_item-clicks) (ground arith)

outbox_item-clicks : (x : OutboxRow) → clicks (outbox_item x) ≡ []
unfolding outbox_item clicks
outbox_item-clicks x = ground arith

outbox_list-clicks : (outbox : List OutboxRow) → clicks (outbox_list outbox) ≡ []
unfolding outbox_list clicks section_label
outbox_list-clicks outbox =
    rw (each-clicks_none outbox_item outbox outbox_item-clicks) (ground arith)

metadata-clicks : (d : DeliveryRow) → clicks (metadata d) ≡ []
unfolding metadata clicks section_label meta_row
metadata-clicks d = ground arith

notification-clicks : (d : DeliveryRow) → clicks (notification d) ≡ []
unfolding notification clicks section_label meta_row
notification-clicks d = ground arith

last_error-clicks : (d : DeliveryRow) → clicks (last_error d) ≡ []
unfolding last_error clicks
last_error-clicks d = ground arith

lookup_bar-clicks :
    (lookup : String) (busy : Bool)
    → clicks (lookup_bar lookup busy) ≡ (if busy then [] else submit_lookup ∷ [])
unfolding lookup_bar clicks submits
lookup_bar-clicks lookup busy = ground arith

-- The panel of a delivery offers these clicks, in this order: to look up what was typed, unless the query is
-- loading; to copy the id; to replay the delivery, if its status is that of the dead letter queue and no
-- replay is under way; and to close the panel.
pub loaded-clicks :
    (lookup : String) (busy replaying : Bool) (d : DeliveryDetailResp)
    → clicks (loaded lookup busy replaying d)
      ≡ (if busy then [] else submit_lookup ∷ [])
        ++ copy
          ∷ (if status_eq d.delivery.status dlq && not replaying
              then replay ∷ close ∷ []
              else close ∷ [])
unfolding loaded clicks
loaded-clicks lookup busy replaying d =
    rw
      (
        lookup_bar-clicks lookup busy,
        last_error-clicks d.delivery,
        notification-clicks d.delivery,
        metadata-clicks d.delivery,
        timeline-clicks (sorted_audit d.audit),
        attempt_list-clicks d.attempts,
        outbox_list-clicks d.outbox,
        header-clicks replaying d.delivery,
      )
      (ground arith)

-- The timeline holds each event as often as the response does; where all dates are valid an event
-- never stands before an earlier one; and events of one time keep the order of the response.
pub sorted_audit-keeps :
    (audit : List AuditRow)
    → ((q : AuditRow → Bool) → count_of q (sorted_audit audit) ≡ count_of q audit)
      × (All (IsDated audit_time) audit → IsSorted audit_time false (sorted_audit audit))
      × ((at : ℕ) (q : AuditRow → Bool)
          → IsOfTime audit_time at q
          → filter q (sorted_audit audit) ≡ filter q audit)
unfolding sorted_audit
sorted_audit-keeps audit = (
  λ q. count_of-sort audit_time q false audit,
  λ d. sort-IsSorted audit_time false audit d,
  λ at q one. sort-stable audit_time at q false audit one,
)
