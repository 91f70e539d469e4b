-- ===== src/Ops/StatsBar.antt =====
-- web/src/components/ops/StatsBar.tsx: the counters of the dashboard.
pub mod Backlog
use gocourier.Common.{
  ℕ, ◌-◌, ◌/◌, Bool, true, false, not, ◌&&◌, ◌||◌, Option, none, some, List, [], ◌∷◌, String,
  if◌then◌else◌, ◌or_else◌, ltb, ◌==◌, all, length, template, decimal, is_empty,
}
use gocourier.Html.{Attr, str, num, cn, Node, text, h, each, when, nothing}
use gocourier.LoadTest.Config.{Tone, success, warning, danger, neutral}
use gocourier.Api.Types.{
  DeliveryStatus, pending, queued, processing, retrying, succeeded, failed, dlq, cancelled,
  rejected, status_text, DashboardSummary,
}
use gocourier.Ops.StatusBadge.{status_badge, tone_eq}

-- `STATUS_ORDER`
abbrev pub status_order : List DeliveryStatus
status_order =
    succeeded ∷ processing ∷ queued ∷ retrying ∷ pending ∷ dlq ∷ failed ∷ rejected ∷ cancelled ∷ []

-- The variables of `useStaleSeconds`: the value that it was last called with, what it shows, and when
-- the value became positive, in milliseconds.
pub record Stale : Type 0 where
  pub value : ℕ
  pub seconds : ℕ
  pub started_at : Option ℕ

abbrev pub not_stale : Stale
not_stale = record { value = 0; seconds = 0; started_at = none }

-- The effect, which runs when the value has changed.
unfoldable pub value_changed : ℕ → ℕ → Stale → Stale
value_changed value now s =
    if ltb 0 value
    then record s { value = value; started_at = some (s.started_at or_else now) }
    else record { value = value; seconds = 0; started_at = none }

-- The timer, which is set while the value is positive.
unfoldable pub stale_tick : ℕ → Stale → Stale
stale_tick now s =
    if ltb 0 s.value then record s { seconds = (now - (s.started_at or_else now)) / 1000 } else s

-- `outboxAlert`
unfoldable pub outbox_alert : ℕ → ℕ → Bool
outbox_alert outbox_pending stale = ltb 0 outbox_pending && ltb 30 stale

unfoldable pub kpi_color : Tone → String
kpi_color tone =
    if tone_eq tone danger
    then "text-status-danger"
    else if tone_eq tone warning
    then "text-status-warning"
    else if tone_eq tone success
    then "text-status-success"
    else "text-foreground"

abbrev pub no_counts : DeliveryStatus → Option ℕ
no_counts s = none

-- `summary?.status_counts`
abbrev pub counts_of : Option DashboardSummary → DeliveryStatus → Option ℕ
counts_of none = no_counts
counts_of (some s) = s.status_counts

-- `summary?.status_counts?.[s] ?? 0`
abbrev pub count_of : (DeliveryStatus → Option ℕ) → DeliveryStatus → ℕ
count_of counts s = counts s or_else 0

abbrev pub pending_of : Option DashboardSummary → ℕ
pending_of none = 0
pending_of (some s) = s.outbox_pending

abbrev pub due_of : Option DashboardSummary → ℕ
due_of none = 0
due_of (some s) = s.scheduled_due

abbrev pub total_of : Option DashboardSummary → ℕ
total_of none = 0
total_of (some s) = length s.deliveries

module _ {Msg : Type 0} where
  abbrev hint_node : Option String → Node Msg
  hint_node none = nothing
  hint_node (some hint) =
      if is_empty hint
      then text hint
      else h "div" (str "className" "text-[11px] text-muted-foreground mt-0.5" ∷ [])
          (text hint ∷ [])

  unfoldable pub kpi : String → ℕ → Node Msg → Tone → Option String → Node Msg
  kpi label value icon tone hint =
      (h "div" (str "className" "rounded-lg border border-border bg-card p-3" ∷ []) (
        (h "div"
          (str "className"
              "mb-1 flex items-center gap-2 text-[11px] uppercase tracking-wider text-muted-foreground"
            ∷ [])
          ((icon) ∷ (text label) ∷ []))
        ∷ (h "div"
            (str "className"
                (template ("mono text-2xl font-semibold tabular-nums " ∷ kpi_color tone ∷ []))
              ∷ [])
            ((text (decimal value)) ∷ []))
        ∷ (hint_node hint)
        ∷ []))

  -- A status with its count, where that is not 0.
  unfoldable pub status_count_node : (DeliveryStatus → Option ℕ) → DeliveryStatus → Node Msg
  status_count_node counts s =
      let c = count_of counts s in
      if c == 0
      then nothing
      else (h "span"
          (str "key" (status_text s) ∷ str "className" "inline-flex items-center gap-1.5" ∷ [])
          ((status_badge s none)
            ∷ (h "span" (str "className" "mono text-xs text-foreground" ∷ [])
                ((text (decimal c)) ∷ []))
            ∷ []))

  unfoldable pub stats_bar : Option DashboardSummary → ℕ → Node Msg
  stats_bar summary stale =
      let outbox_pending = pending_of summary in
      let scheduled_due = due_of summary in
      let total = total_of summary in
      let counts = counts_of summary in
      (h "div" (str "className" "grid grid-cols-2 gap-3 md:grid-cols-4" ∷ []) (
        (kpi "Outbox pending" outbox_pending (h "Database" (str "className" "h-3.5 w-3.5" ∷ []) [])
          (if outbox_alert outbox_pending stale
            then danger
            else if ltb 0 outbox_pending
            then warning
            else neutral)
          (some (
            if outbox_alert outbox_pending stale
            then template ("stuck " ∷ decimal stale ∷ "s" ∷ [])
            else "publish backlog")))
        ∷ (kpi "Scheduled due" scheduled_due (h "Clock" (str "className" "h-3.5 w-3.5" ∷ []) [])
            (if ltb 0 scheduled_due then warning else neutral) (some "ready to fire"))
        ∷ (kpi "Total deliveries" total (h "Layers" (str "className" "h-3.5 w-3.5" ∷ []) []) neutral
            (some "in current window"))
        ∷ (h "div" (str "className" "rounded-lg border border-border bg-card p-3" ∷ []) (
            (h "div"
              (str "className"
                  "mb-2 flex items-center gap-2 text-[11px] uppercase tracking-wider text-muted-foreground"
                ∷ [])
              ((h "AlertTriangle" (str "className" "h-3.5 w-3.5" ∷ []) [])
                ∷ (text " By status")
                ∷ []))
            ∷ (h "div" (str "className" "flex flex-wrap gap-1.5" ∷ []) (
                (each (status_count_node counts) status_order)
                ∷ (when (all (λ s. count_of counts s == 0) status_order) (
                    h "span" (str "className" "text-xs text-muted-foreground" ∷ [])
                      ((text "No deliveries") ∷ [])))
                ∷ []))
            ∷ []))
        ∷ []))
