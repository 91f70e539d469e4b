-- ===== src/Ops/DeliveriesTable.antt =====
-- web/src/components/ops/DeliveriesTable.tsx: the filtered and sorted table of deliveries.
pub mod Rows
use Prim.Native.String.{count}
use gocourier.Common.{
  ℕ, ◌+◌, ◌-◌, ◌/◌, Bool, true, false, not, ◌&&◌, ◌||◌, Option, none, some, List, [], ◌∷◌, String,
  if◌then◌else◌, str_eq, ltb, leb, length, filter, template, decimal, take_text,
}
use gocourier.Html.{Attr, str, num, cn, on, on_text, Node, text, h, each}
use gocourier.Dates.{get_time, epoch}
use gocourier.Api.Types.{
  Channel, DeliveryStatus, pending, queued, processing, retrying, succeeded, failed, dlq, cancelled,
  rejected, DeliveryRow, status_text, channel_text, status_eq, channel_eq, status_of_text,
  channel_of_text,
}
use gocourier.Ops.TimeSort.{sort_by}
use gocourier.Ops.Shared.{is_nil, opt_eq, age_seconds}
use gocourier.Ops.StatusBadge.{status_badge}

-- `none` is the filter `"all"`.
pub record Table : Type 0 where
  pub status_filter : Option DeliveryStatus
  pub channel_filter : Option Channel
  pub sort_desc : Bool

abbrev pub first_table : Table
first_table = record { status_filter = none; channel_filter = none; sort_desc = true }

-- The handlers: the values of the two selects are texts.
pub data TableMsg : Type 0 where
  set_status_filter : String → TableMsg
  set_channel_filter : String → TableMsg
  toggle_sort : TableMsg
  select : String → TableMsg

-- `select` is an action of the store, and leaves the table alone. The selects offer `"all"` and the
-- literals, and no other text.
unfoldable pub update : TableMsg → Table → Table
update (set_status_filter v) t = record t { status_filter = status_of_text v }
update (set_channel_filter v) t = record t { channel_filter = channel_of_text v }
update toggle_sort t = record t { sort_desc = not t.sort_desc }
update (select id) t = t

abbrev pub has_status : Option DeliveryStatus → DeliveryRow → Bool
has_status none row = true
has_status (some s) row = status_eq row.status s

abbrev pub has_channel : Option Channel → DeliveryRow → Bool
has_channel none row = true
has_channel (some c) row = channel_eq row.channel c

-- The time by which the rows are sorted.
abbrev pub row_time : DeliveryRow → Option ℕ
row_time r = get_time r.created_at

-- The rows that are shown.
unfoldable pub filtered_rows : Table → List DeliveryRow → List DeliveryRow
filtered_rows t rows =
    sort_by row_time t.sort_desc
      (filter (has_channel t.channel_filter) (filter (has_status t.status_filter) rows))

-- How long ago, from a number of seconds.
abbrev pub age_text : ℕ → String
age_text s =
    let m = s / 60 in
    if ltb s 2
    then "now"
    else if ltb s 60
    then template (decimal s ∷ "s ago" ∷ [])
    else if ltb m 60
    then template (decimal m ∷ "m ago" ∷ [])
    else template (decimal (m / 60) ∷ "h ago" ∷ [])

unfoldable pub relative : String → ℕ → String
relative iso now = elim (age_seconds (get_time iso) now) [ none ↦ "NaNh ago" | some s ↦ age_text s ]

unfoldable pub short_key : String → String
short_key key = if ltb 32 (count key) then template (take_text 30 key ∷ "…" ∷ []) else key

abbrev status_filter_text : Option DeliveryStatus → String
status_filter_text none = "all"
status_filter_text (some s) = status_text s

abbrev channel_filter_text : Option Channel → String
channel_filter_text none = "all"
channel_filter_text (some c) = channel_text c

abbrev pub status_items : List DeliveryStatus
status_items =
    pending ∷ queued ∷ processing ∷ retrying ∷ succeeded ∷ failed ∷ dlq ∷ cancelled ∷ rejected ∷ []

abbrev status_item : DeliveryStatus → Node TableMsg
status_item s =
    h "SelectItem" (str "key" (status_text s) ∷ str "value" (status_text s) ∷ [])
      (text (status_text s) ∷ [])

unfoldable pub deliveries_table : Table → Option String → ℕ → List DeliveryRow → Node TableMsg
deliveries_table t selected now rows =
    let filtered = filtered_rows t rows in
    (h "div"
      (str "className" "flex min-h-0 flex-1 flex-col rounded-lg border border-border bg-card" ∷ [])
      ((h "div"
          (str "className"
              "flex flex-wrap items-center justify-between gap-2 border-b border-border px-3 py-2"
            ∷ [])
          ((h "div"
              (str "className" "text-xs font-medium uppercase tracking-wider text-muted-foreground"
                ∷ [])
              ((text "Deliveries ")
                ∷ (h "span"
                    (str "className" "ml-2 mono text-[10px] normal-case text-foreground/60" ∷ [])
                    ((text (decimal (length filtered)))
                      ∷ (text " / ")
                      ∷ (text (decimal (length rows)))
                      ∷ []))
                ∷ []))
            ∷ (h "div" (str "className" "flex items-center gap-2" ∷ []) (
                (h "Select"
                  (str "value" (status_filter_text t.status_filter)
                    ∷ on_text "onValueChange" set_status_filter
                    ∷ [])
                  ((h "SelectTrigger" (str "className" "h-7 w-32 text-[11px] mono" ∷ [])
                      ((h "SelectValue" (str "placeholder" "status" ∷ []) []) ∷ []))
                    ∷ (h "SelectContent" [] (
                        (h "SelectItem" (str "value" "all" ∷ []) ((text "all statuses") ∷ []))
                        ∷ (each status_item status_items)
                        ∷ []))
                    ∷ []))
                ∷ (h "Select"
                    (str "value" (channel_filter_text t.channel_filter)
                      ∷ on_text "onValueChange" set_channel_filter
                      ∷ [])
                    ((h "SelectTrigger" (str "className" "h-7 w-28 text-[11px] mono" ∷ [])
                        ((h "SelectValue" [] []) ∷ []))
                      ∷ (h "SelectContent" [] (
                          (h "SelectItem" (str "value" "all" ∷ []) ((text "all channels") ∷ []))
                          ∷ (h "SelectItem" (str "value" "email" ∷ []) ((text "email") ∷ []))
                          ∷ (h "SelectItem" (str "value" "sms" ∷ []) ((text "sms") ∷ []))
                          ∷ (h "SelectItem" (str "value" "push" ∷ []) ((text "push") ∷ []))
                          ∷ (h "SelectItem" (str "value" "webhook" ∷ []) ((text "webhook") ∷ []))
                          ∷ []))
                      ∷ []))
                ∷ []))
            ∷ []))
        ∷ (h "div" (str "className" "min-h-0 flex-1 overflow-auto" ∷ []) (
            (if (is_nil filtered)
              then (h "div"
                  (str "className"
                      "flex h-full flex-col items-center justify-center gap-2 py-12 text-muted-foreground"
                    ∷ [])
                  ((h "Inbox" (str "className" "h-6 w-6" ∷ []) [])
                    ∷ (h "div" (str "className" "text-xs" ∷ [])
                        ((text "No deliveries yet — send a test notification") ∷ []))
                    ∷ []))
              else (h "table" (str "className" "w-full border-collapse text-xs" ∷ []) (
                  (h "thead" (str "className" "sticky top-0 z-10 bg-card" ∷ []) (
                    (h "tr"
                      (str "className"
                          "text-left text-[10px] uppercase tracking-wider text-muted-foreground"
                        ∷ [])
                      ((h "th" (str "className" "border-b border-border px-3 py-2 font-medium" ∷ [])
                          ((h "button"
                              (on "onClick" toggle_sort
                                ∷ str "className"
                                    "inline-flex items-center gap-1 hover:text-foreground"
                                ∷ [])
                              ((text "Time ")
                                ∷ (h "ArrowDownUp" (str "className" "h-3 w-3" ∷ []) [])
                                ∷ []))
                            ∷ []))
                        ∷ (h "th"
                            (str "className" "border-b border-border px-3 py-2 font-medium" ∷ [])
                            ((text "Channel") ∷ []))
                        ∷ (h "th"
                            (str "className" "border-b border-border px-3 py-2 font-medium" ∷ [])
                            ((text "Status") ∷ []))
                        ∷ (h "th"
                            (str "className" "border-b border-border px-3 py-2 font-medium" ∷ [])
                            ((text "Idempotency Key") ∷ []))
                        ∷ (h "th"
                            (str "className"
                                "border-b border-border px-3 py-2 text-right font-medium"
                              ∷ [])
                            ((text "Retries") ∷ []))
                        ∷ []))
                    ∷ []))
                  ∷ (h "tbody" [] (
                      (each
                        (λ d.
                          (h "tr"
                            (str "key" d.id
                              ∷ on "onClick" (select d.id)
                              ∷ cn (
                                  some
                                    "cursor-pointer border-b border-border/50 transition-colors hover:bg-accent/40"
                                  ∷ (if (opt_eq selected d.id) then some "bg-accent/60" else none)
                                  ∷ [])
                              ∷ [])
                            ((h "td"
                                (str "className"
                                    "px-3 py-2 mono text-muted-foreground whitespace-nowrap"
                                  ∷ [])
                                ((text (relative d.created_at now)) ∷ []))
                              ∷ (h "td" (str "className" "px-3 py-2 mono" ∷ [])
                                  ((text (channel_text d.channel)) ∷ []))
                              ∷ (h "td" (str "className" "px-3 py-2" ∷ [])
                                  ((status_badge d.status none) ∷ []))
                              ∷ (h "td" (str "className" "px-3 py-2 mono text-foreground/80" ∷ []) (
                                  (h "span" (str "title" d.idempotency_key ∷ [])
                                    ((text (short_key d.idempotency_key)) ∷ []))
                                  ∷ []))
                              ∷ (h "td"
                                  (cn (
                                      some "px-3 py-2 text-right mono tabular-nums"
                                      ∷ (if (ltb 0 d.retry_count)
                                          then some "text-status-warning"
                                          else none)
                                      ∷ [])
                                    ∷ [])
                                  ((text (decimal d.retry_count)) ∷ []))
                              ∷ [])))
                        filtered)
                      ∷ []))
                  ∷ [])))
            ∷ []))
        ∷ []))
