-- ===== src/Ops/Dashboard.antt =====
-- web/src/components/ops/Dashboard.tsx (and web/src/App.tsx, which is this component alone): the
-- page, and what each component is given.
use gocourier.Common.{Bool, Option, none, some, List, [], ◌∷◌}
use gocourier.Html.{str, Node, text, part, h, when}
use gocourier.Api.Types.{
  DeliveryStatus, DeliveryRow, ActivityEvent, DashboardSummary, DeliveryDetailResp,
}

-- The components of the page, with their props.
pub data Part : Type 0 where
  header : Part
  pipeline_flow : Option DeliveryStatus → Part
  stats_bar : Option DashboardSummary → Part
  send_test_form : Part
  load_test_panel : Part
  activity_feed : List ActivityEvent → Part
  deliveries_table : List DeliveryRow → Part
  delivery_detail : Part

-- `detailQ.data?.delivery.status`
unfoldable pub selected_status : Option DeliveryDetailResp → Option DeliveryStatus
selected_status none = none
selected_status (some d) = some d.delivery.status

-- `summaryQ.data?.deliveries ?? []`
unfoldable pub rows_of : Option DashboardSummary → List DeliveryRow
rows_of none = []
rows_of (some s) = s.deliveries

-- `summaryQ.data?.recent_activity ?? []`
unfoldable pub events_of : Option DashboardSummary → List ActivityEvent
events_of none = []
events_of (some s) = s.recent_activity

-- `api_down` is the error flag of the health query.
unfoldable pub dashboard : Option DashboardSummary → Option DeliveryDetailResp → Bool → Node Part
dashboard summary detail api_down =
    (h "div" (str "className" "flex min-h-screen flex-col" ∷ []) (
      (part header)
      ∷ (h "main" (str "className" "mx-auto w-full max-w-[1600px] flex-1 px-4 py-4 sm:px-6" ∷ []) (
          (when (api_down) (
            h "div"
              (str "className"
                  "mb-3 flex items-center gap-2 rounded-md border border-status-danger/40 bg-status-danger/10 px-3 py-2 text-xs text-status-danger"
                ∷ [])
              ((h "AlertTriangle" (str "className" "h-3.5 w-3.5" ∷ []) [])
                ∷ (text "Can't reach API — is ")
                ∷ (h "code" (str "className" "mono" ∷ []) ((text "docker compose up") ∷ []))
                ∷ (text "?")
                ∷ [])))
          ∷ (h "div" (str "className" "space-y-4" ∷ []) (
              (part (pipeline_flow (selected_status detail)))
              ∷ (part (stats_bar summary))
              ∷ (h "div"
                  (str "className" "grid gap-4 lg:grid-cols-[300px_minmax(0,1fr)_380px]" ∷ [])
                  ((h "div" (str "className" "flex flex-col gap-4" ∷ []) (
                      (part send_test_form)
                      ∷ (part load_test_panel)
                      ∷ (part (activity_feed (events_of summary)))
                      ∷ []))
                    ∷ (h "div" (str "className" "min-h-[520px]" ∷ [])
                        ((part (deliveries_table (rows_of summary))) ∷ []))
                    ∷ (h "div" (str "className" "min-h-[520px]" ∷ []) ((part delivery_detail) ∷ []))
                    ∷ []))
              ∷ []))
          ∷ (h "footer"
              (str "className" "mt-6 text-center text-[10px] text-muted-foreground mono" ∷ [])
              ((text "connected to Go API · postgres + nats jetstream + worker") ∷ []))
          ∷ []))
      ∷ []))
