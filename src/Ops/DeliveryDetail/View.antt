-- ===== src/Ops/DeliveryDetail/View.antt =====
-- web/src/components/ops/DeliveryDetail.tsx: what the panel of one delivery shows.
use gocourier.Common.{
  Bool, true, false, not, Option, none, some, [], ◌∷◌, String, if◌then◌else◌, is_empty,
}
use gocourier.Html.{str, Node, nothing, text, h, when, throws}
use gocourier.Api.Types.{DeliveryDetailResp}
use gocourier.Api.Result.{Result, returned, thrown}
use gocourier.Hooks.{has_id}
use gocourier.Ops.DeliveryDetail.State.{DetailMsg, sorted_audit}
use gocourier.Ops.DeliveryDetail.Parts.{
  shown, lookup_bar, detail_header, last_error, notification, metadata,
}
use gocourier.Ops.DeliveryDetail.Series.{timeline, attempt_list, outbox_list}

unfoldable pub not_selected : String → Node DetailMsg
not_selected lookup =
    let busy = false in
    (h "aside"
      (str "className"
          "flex h-full min-h-0 flex-col overflow-hidden rounded-lg border border-border bg-card"
        ∷ [])
      ((lookup_bar lookup busy)
        ∷ (h "div"
            (str "className"
                "flex flex-1 flex-col items-center justify-center gap-2 p-6 text-center text-xs text-muted-foreground"
              ∷ [])
            ((h "div" (str "className" "mono" ∷ []) ((text "No delivery selected") ∷ []))
              ∷ (h "div" []
                  ((text "Paste an id above, or click a row in the table / activity feed") ∷ []))
              ∷ []))
        ∷ []))

unfoldable pub loading : String → Bool → Node DetailMsg
loading lookup busy =
    (h "aside"
      (str "className"
          "flex h-full min-h-0 flex-col overflow-hidden rounded-lg border border-border bg-card"
        ∷ [])
      ((lookup_bar lookup busy)
        ∷ (h "div" (str "className" "p-4 text-xs text-muted-foreground" ∷ [])
            ((text "Loading delivery…") ∷ []))
        ∷ []))

-- The message is that of the error of the query, if it has one.
abbrev error_line : Option String → Node DetailMsg
error_line none = nothing
error_line (some e) =
    when (not (is_empty e))
      (h "div" (str "className" "mt-1 text-[11px] opacity-90" ∷ []) (text e ∷ []))

unfoldable pub not_found : String → Bool → String → Option String → Node DetailMsg
not_found lookup busy id error =
    (h "aside"
      (str "className"
          "flex h-full min-h-0 flex-col overflow-hidden rounded-lg border border-border bg-card"
        ∷ [])
      ((lookup_bar lookup busy)
        ∷ (h "div"
            (str "className"
                "m-3 rounded-md border border-status-danger/30 bg-status-danger/10 p-3 text-xs text-status-danger"
              ∷ [])
            ((h "div" (str "className" "mb-1 font-medium" ∷ []) ((text "Delivery not found") ∷ []))
              ∷ (h "code" (str "className" "mono break-all text-[11px]" ∷ []) ((text id) ∷ []))
              ∷ (error_line error)
              ∷ []))
        ∷ []))

unfoldable pub loaded : String → Bool → Bool → DeliveryDetailResp → Node DetailMsg
loaded lookup busy replaying detail =
    let delivery = detail.delivery in
    (h "aside"
      (str "className"
          "flex h-full min-h-0 flex-col overflow-hidden rounded-lg border border-border bg-card"
        ∷ [])
      ((lookup_bar lookup busy)
        ∷ (detail_header replaying delivery)
        ∷ (h "ScrollArea" (str "className" "min-h-0 flex-1" ∷ []) (
            (h "div" (str "className" "space-y-4 p-3" ∷ []) (
              (last_error delivery)
              ∷ (notification delivery)
              ∷ (metadata delivery)
              ∷ (timeline (sorted_audit detail.audit))
              ∷ (attempt_list detail.attempts)
              ∷ (outbox_list detail.outbox)
              ∷ []))
            ∷ []))
        ∷ []))

-- What the query of the delivery has, and whether a replay is under way.
pub record Query : Type 0 where
  pub data_now : Option DeliveryDetailResp
  pub is_loading : Bool
  pub is_error : Bool
  pub error : Option String

-- What rendering the delivery gives, or the RangeError of `toISOString`.
unfoldable pub loaded_or_throw : String → Bool → Bool → DeliveryDetailResp → Result (Node DetailMsg)
loaded_or_throw lookup busy replaying d =
    let node = loaded lookup busy replaying d in
    if throws node then thrown "Invalid time value" else returned node

abbrev pub for_data :
    String → Bool → Query → String → Option DeliveryDetailResp → Result (Node DetailMsg)
for_data lookup replaying q id none =
    if q.is_loading
    then returned (loading lookup true)
    else returned (not_found lookup q.is_loading id q.error)
for_data lookup replaying q id (some d) =
    if q.is_error
    then returned (not_found lookup q.is_loading id q.error)
    else loaded_or_throw lookup q.is_loading replaying d

-- The selected id, the text of the lookup, the query and whether a replay is under way.
unfoldable pub delivery_detail : Option String → String → Query → Bool → Result (Node DetailMsg)
delivery_detail id lookup q replaying =
    if has_id id
    then for_data lookup replaying q (shown id) q.data_now
    else returned (not_selected lookup)
