-- ===== src/Tests/Views.antt =====
-- What the views of web/src/components/ops show of concrete data.
use gocourier.Common.{
  ◌≡◌, ◌↔◌, inl, inr, refl, sym, ap, true, Bool, false, not, ◌&&◌, ◌||◌, some, none, List, [], ◌∷◌,
  ◌++◌, All, if◌then◌else◌,
}
use gocourier.Html.{clicks}
use gocourier.Api.Types.{dlq, queued, DeliveryRow, DeliveryDetailResp, status_eq, status_eq_iff}
use gocourier.Hooks.{has_id}
use gocourier.Dates.{get_time}
use gocourier.Ops.TimeSort.{count_of, IsDated}
use gocourier.Ops.DeliveriesTable.{Table, first_table, row_time, filtered_rows}
use gocourier.Ops.DeliveriesTable.Rows.{
  Passes, IsInOrder, filtered_rows-count, filtered_rows-IsSorted,
}
use gocourier.Ops.DeliveryDetail.State.{submit_lookup, copy, replay, close}
use gocourier.Ops.DeliveryDetail.View.{Query, loaded, delivery_detail}
use gocourier.Ops.DeliveryDetail.Panel.{loaded-clicks}
use gocourier.Ops.DeliveryDetail.Renders.{is_returned, has_valid_dates, delivery_detail-renders}
use gocourier.Tests.Data.{delivery}

abbrev rows : List DeliveryRow
rows =
    delivery "d1" dlq "2024-01-01T00:00:00Z"
    ∷ delivery "d2" queued "2024-01-02T00:00:00Z"
    ∷ delivery "d3" dlq "2024-01-01T00:00:00Z"
    ∷ []

abbrev table : Table
table = record first_table { status_filter = some dlq }

abbrev is_dlq : DeliveryRow → Bool
is_dlq r = status_eq r.status dlq

is_dlq-Passes : (r : DeliveryRow) → (is_dlq r ≡ true) ↔ Passes table r
is_dlq-Passes r = (
  λ h. (inr (ap some (sym ((status_eq_iff r.status dlq).0 h))), inl refl),
  λ (h, _). elim h [ inl e ↦ cc | inr e ↦ (status_eq_iff r.status dlq).1 (cc e) ],
)

filtered_rows-count_example :
    count_of is_dlq (filtered_rows table rows) ≡ count_of (λ r. is_dlq r && is_dlq r) rows
filtered_rows-count_example = filtered_rows-count table rows is_dlq is_dlq is_dlq-Passes

rows-IsDated : All (IsDated row_time) rows
unfolding get_time
rows-IsDated = (λ h. cc, (λ h. cc, (λ h. cc, tt)))

filtered_rows-IsSorted_example : IsInOrder table.sort_desc (filtered_rows table rows)
filtered_rows-IsSorted_example = filtered_rows-IsSorted table rows rows-IsDated

abbrev detail : DeliveryDetailResp
detail = record {
  delivery = delivery "d1" dlq "2024-01-01T00:00:00Z";
  attempts = [];
  outbox = [];
  audit =
      record {
        id = 2;
        delivery_id = "d1";
        event_type = "MovedToDLQ";
        payload = none;
        created_at = "2024-01-02T00:00:00Z";
      }
      ∷ record {
        id = 1;
        delivery_id = "d1";
        event_type = "Queued";
        payload = none;
        created_at = "2024-01-01T00:00:00Z";
      }
      ∷ [];
}

loaded-clicks_example :
    clicks (loaded "" false false detail)
    ≡ (if false then [] else submit_lookup ∷ [])
      ++ copy
        ∷ (if status_eq detail.delivery.status dlq && not false
            then replay ∷ close ∷ []
            else close ∷ [])
loaded-clicks_example = loaded-clicks "" false false detail

abbrev query : Query
query = record { data_now = some detail; is_loading = false; is_error = false; error = none }

delivery_detail-renders_example :
    is_returned (delivery_detail (some "d1") "" query false)
    ≡ (not (has_id (some "d1")) || query.is_error || has_valid_dates query.data_now)
delivery_detail-renders_example = delivery_detail-renders (some "d1") "" query false
