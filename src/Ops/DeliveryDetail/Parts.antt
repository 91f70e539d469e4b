-- ===== src/Ops/DeliveryDetail/Parts.antt =====
-- web/src/components/ops/DeliveryDetail.tsx: the parts of the panel that show the delivery itself.
use gocourier.Common.{
  Bool, false, not, Option, none, some, List, [], ◌∷◌, String, if◌then◌else◌, str_eq, is_empty,
  decimal, ◌or_else◌,
}
use gocourier.Html.{str, flag, cn, on, on_text, Node, many, nodes, text, throwing, h, when}
use gocourier.Json.Value.{Json, Object, has_no_keys}
use gocourier.Json.Print.{stringify}
use gocourier.Api.Types.{
  dlq, DeliveryRow, OutboxStatus, OutboxRow, status_eq, channel_text, priority_text,
  outbox_status_text,
}
use gocourier.Hooks.{has_id}
use gocourier.Ops.StatusBadge.{status_badge}
use gocourier.Ops.DeliveryDetail.State.{
  DetailMsg, set_lookup, submit_lookup, copy, replay, close, fmt, fmt_json,
}

-- Whether a value that may be null is a text with characters, and that text.
abbrev pub is_given : Option String → Bool
is_given o = has_id o

abbrev pub shown : Option String → String
shown o = o or_else ""

-- A text with a date in it, which throws a RangeError where the date is invalid.
abbrev pub dated : (String → String) → Option String → Node DetailMsg
dated f none = throwing
dated f (some s) = text (f s)

-- `{fmt(iso)}`
abbrev pub date : String → Node DetailMsg
date iso = dated (λ s. s) (fmt iso)

abbrev pub has_keys : Option Object → Bool
has_keys none = false
has_keys (some o) = not (has_no_keys o)

abbrev pub stringify_opt : Option Object → String
stringify_opt none = ""
stringify_opt (some o) = stringify (Json.obj o)

abbrev pub outbox_is : OutboxStatus → OutboxRow → Bool
outbox_is s o = str_eq (outbox_status_text o.status) (outbox_status_text s)

unfoldable pub section_label : List (Node DetailMsg) → Node DetailMsg
section_label children =
    (h "div"
      (str "className" "text-[10px] font-medium uppercase tracking-wider text-muted-foreground"
        ∷ [])
      ((many (nodes children)) ∷ []))

unfoldable pub meta_row : String → List (Node DetailMsg) → Node DetailMsg
meta_row label children =
    (h "div" (str "className" "grid gap-0.5" ∷ []) (
      (h "dt" (str "className" "text-[10px] uppercase tracking-wider text-muted-foreground" ∷ [])
        ((text label) ∷ []))
      ∷ (h "dd" [] ((many (nodes children)) ∷ []))
      ∷ []))

unfoldable pub lookup_bar : String → Bool → Node DetailMsg
lookup_bar lookup busy =
    (h "form"
      (on "onSubmit" submit_lookup ∷ str "className" "border-b border-border px-3 py-2.5" ∷ [])
      ((h "div"
          (str "className"
              "mb-1.5 text-[10px] font-medium uppercase tracking-wider text-muted-foreground"
            ∷ [])
          ((text "Lookup delivery") ∷ []))
        ∷ (h "div" (str "className" "flex gap-1.5" ∷ []) (
            (h "Input"
              (str "value" lookup
                ∷ on_text "onChange" set_lookup
                ∷ str "placeholder" "Paste delivery UUID…"
                ∷ str "className" "h-8 mono text-[11px]"
                ∷ flag "spellCheck" false
                ∷ [])
              [])
            ∷ (h "Button"
                (str "type" "submit"
                  ∷ str "size" "sm"
                  ∷ str "className" "h-8 shrink-0 px-2.5"
                  ∷ flag "disabled" busy
                  ∷ [])
                ((h "Search" (str "className" "h-3.5 w-3.5" ∷ []) []) ∷ []))
            ∷ []))
        ∷ []))

unfoldable pub detail_header : Bool → DeliveryRow → Node DetailMsg
detail_header replaying delivery =
    (h "div"
      (str "className" "flex items-start justify-between gap-2 border-b border-border px-3 py-2.5"
        ∷ [])
      ((h "div" (str "className" "min-w-0 space-y-1.5" ∷ []) (
          (h "div" (str "className" "flex items-center gap-2" ∷ []) (
            (status_badge delivery.status none)
            ∷ (h "span" (str "className" "mono text-[11px] text-muted-foreground uppercase" ∷ []) (
                (text (channel_text delivery.channel))
                ∷ (text " · ")
                ∷ (text (priority_text delivery.priority))
                ∷ []))
            ∷ []))
          ∷ (h "div" (str "className" "flex items-center gap-1" ∷ []) (
              (h "code" (str "className" "block truncate mono text-[11px] text-foreground/80" ∷ [])
                ((text delivery.id) ∷ []))
              ∷ (h "button"
                  (on "onClick" copy
                    ∷ str "className" "rounded p-1 text-muted-foreground hover:text-foreground"
                    ∷ str "title" "Copy id"
                    ∷ [])
                  ((h "Copy" (str "className" "h-3 w-3" ∷ []) []) ∷ []))
              ∷ []))
          ∷ []))
        ∷ (h "div" (str "className" "flex items-center gap-1" ∷ []) (
            (when (status_eq delivery.status dlq) (
              h "Button"
                (str "size" "sm"
                  ∷ str "variant" "default"
                  ∷ str "className" "h-7 text-[11px]"
                  ∷ on "onClick" replay
                  ∷ flag "disabled" replaying
                  ∷ [])
                ((h "RotateCw"
                    (cn (
                        some "mr-1 h-3 w-3"
                        ∷ (if (replaying) then some "animate-spin" else none)
                        ∷ [])
                      ∷ [])
                    [])
                  ∷ (text "Replay")
                  ∷ [])))
            ∷ (h "button"
                (on "onClick" close
                  ∷ str "className" "rounded p-1 text-muted-foreground hover:text-foreground"
                  ∷ str "title" "Close"
                  ∷ [])
                ((h "X" (str "className" "h-4 w-4" ∷ []) []) ∷ []))
            ∷ []))
        ∷ []))

unfoldable pub last_error : DeliveryRow → Node DetailMsg
last_error delivery = when (not (is_empty delivery.last_error)) (
    h "div"
      (str "className" "rounded-md border border-status-danger/30 bg-status-danger/10 p-2.5" ∷ [])
      ((h "div"
          (str "className"
              "mb-1 flex items-center gap-1.5 text-[11px] font-medium uppercase tracking-wider text-status-danger"
            ∷ [])
          ((h "AlertCircle" (str "className" "h-3 w-3" ∷ []) []) ∷ (text " Last error") ∷ []))
        ∷ (h "code" (str "className" "block mono text-[11px] text-status-danger break-words" ∷ [])
            ((text delivery.last_error) ∷ []))
        ∷ []))

unfoldable pub notification : DeliveryRow → Node DetailMsg
notification delivery =
    let recipient = fmt_json delivery.recipient in
    let template = fmt_json delivery.template in
    let payload = fmt_json delivery.payload in
    (h "section" [] (
      (section_label ((text "Notification") ∷ []))
      ∷ (h "dl"
          (str "className"
              "mt-2 space-y-1.5 rounded-md border border-border bg-background/40 p-2.5 text-[11px]"
            ∷ [])
          ((meta_row "Recipient" (
              (if (is_given recipient)
                then (h "pre"
                    (str "className"
                        "mono overflow-x-auto whitespace-pre-wrap break-words text-foreground"
                      ∷ [])
                    ((text (shown recipient)) ∷ []))
                else (h "span" (str "className" "text-muted-foreground" ∷ []) ((text "—") ∷ [])))
              ∷ []))
            ∷ (meta_row "Template" (
                (if (is_given template)
                  then (h "pre"
                      (str "className"
                          "mono overflow-x-auto whitespace-pre-wrap break-words text-foreground"
                        ∷ [])
                      ((text (shown template)) ∷ []))
                  else (h "span" (str "className" "text-muted-foreground" ∷ []) ((text "—") ∷ [])))
                ∷ []))
            ∷ (when (is_given payload) (
                meta_row "Payload" (
                  (h "pre"
                    (str "className"
                        "mono overflow-x-auto whitespace-pre-wrap break-words text-foreground"
                      ∷ [])
                    ((text (shown payload)) ∷ []))
                  ∷ [])))
            ∷ []))
      ∷ []))

unfoldable pub metadata : DeliveryRow → Node DetailMsg
metadata delivery =
    (h "section" [] (
      (section_label ((text "Metadata") ∷ []))
      ∷ (h "dl"
          (str "className"
              "mt-2 space-y-1 rounded-md border border-border bg-background/40 p-2.5 text-[11px]"
            ∷ [])
          ((meta_row "Idempotency key" (
              (h "code" (str "className" "mono break-all" ∷ [])
                ((text delivery.idempotency_key) ∷ []))
              ∷ []))
            ∷ (when (is_given delivery.tenant_id) (
                meta_row "Tenant" (
                  (h "code" (str "className" "mono" ∷ []) ((text (shown delivery.tenant_id)) ∷ []))
                  ∷ [])))
            ∷ (when (is_given delivery.correlation_id) (
                meta_row "Correlation id" (
                  (h "code" (str "className" "mono break-all" ∷ [])
                    ((text (shown delivery.correlation_id)) ∷ []))
                  ∷ [])))
            ∷ (when (is_given delivery.causation_id) (
                meta_row "Causation id" (
                  (h "code" (str "className" "mono break-all" ∷ [])
                    ((text (shown delivery.causation_id)) ∷ []))
                  ∷ [])))
            ∷ (meta_row "Retries" (
                (h "span" (str "className" "mono" ∷ [])
                  ((text (decimal delivery.retry_count)) ∷ []))
                ∷ []))
            ∷ (meta_row "Created" (
                (h "span" (str "className" "mono text-muted-foreground" ∷ [])
                  ((date delivery.created_at) ∷ []))
                ∷ []))
            ∷ (meta_row "Updated" (
                (h "span" (str "className" "mono text-muted-foreground" ∷ [])
                  ((date delivery.updated_at) ∷ []))
                ∷ []))
            ∷ (when (is_given delivery.scheduled_at) (
                meta_row "Scheduled at" (
                  (h "span" (str "className" "mono text-muted-foreground" ∷ [])
                    ((date (shown delivery.scheduled_at)) ∷ []))
                  ∷ [])))
            ∷ []))
      ∷ []))
