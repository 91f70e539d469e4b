-- ===== src/Ops/DeliveryDetail/Series.antt =====
-- web/src/components/ops/DeliveryDetail.tsx: the lists of the panel: the timeline, the attempts and the outbox.
use gocourier.Common.{
  true, not, ◌&&◌, none, some, List, [], ◌∷◌, if◌then◌else◌, is_empty, length, template, decimal,
}
use gocourier.Html.{str, cn, Node, text, h, when, each}
use gocourier.Json.Value.{Json, has_no_keys}
use gocourier.Json.Print.{stringify}
use gocourier.Api.Types.{
  AttemptRow, AuditRow, published, pending, failed, OutboxRow, outbox_status_text,
}
use gocourier.Ops.Shared.{is_nil}
use gocourier.Ops.DeliveryDetail.State.{DetailMsg, event_dot_tone, fmt}
use gocourier.Ops.DeliveryDetail.Parts.{
  is_given, shown, dated, date, has_keys, stringify_opt, outbox_is, section_label,
}

unfoldable pub audit_item : AuditRow → Node DetailMsg
audit_item a =
    (h "li" (str "key" (decimal a.id) ∷ str "className" "relative" ∷ []) (
      (h "span"
        (cn (
            some
              "absolute -left-[21px] top-1 grid h-3 w-3 place-items-center rounded-full ring-2 ring-card"
            ∷ some (event_dot_tone a.event_type)
            ∷ [])
          ∷ [])
        [])
      ∷ (h "div" (str "className" "mono text-xs text-foreground" ∷ []) ((text a.event_type) ∷ []))
      ∷ (h "div" (str "className" "mono text-[10px] text-muted-foreground" ∷ [])
          ((date a.created_at) ∷ []))
      ∷ (when (has_keys a.payload) (
          h "pre"
            (str "className"
                "mt-1 mono text-[10px] text-muted-foreground whitespace-pre-wrap break-words"
              ∷ [])
            ((text (stringify_opt a.payload)) ∷ [])))
      ∷ []))

unfoldable pub timeline : List AuditRow → Node DetailMsg
timeline audit =
    (h "section" [] (
      (section_label ((text "Timeline") ∷ []))
      ∷ (h "ol" (str "className" "relative ml-2 mt-2 space-y-3 border-l border-border pl-4" ∷ []) (
          (each audit_item audit)
          ∷ (when (is_nil audit) (
              h "li" (str "className" "text-[11px] text-muted-foreground" ∷ [])
                ((text "No audit events") ∷ [])))
          ∷ []))
      ∷ []))

unfoldable pub attempt_item : AttemptRow → Node DetailMsg
attempt_item a =
    (h "li"
      (str "key" a.id
        ∷ str "className"
            "flex items-start gap-2 rounded-md border border-border bg-background/40 p-2"
        ∷ [])
      ((h "span"
          (cn (
              some "mt-0.5 grid h-4 w-4 shrink-0 place-items-center rounded-full"
              ∷ some (
                  if (a.success)
                  then "bg-status-success/15 text-status-success"
                  else "bg-status-danger/15 text-status-danger")
              ∷ [])
            ∷ [])
          ((if (a.success)
              then (h "Check" (str "className" "h-2.5 w-2.5" ∷ []) [])
              else (h "X" (str "className" "h-2.5 w-2.5" ∷ []) []))
            ∷ []))
        ∷ (h "div" (str "className" "min-w-0 flex-1" ∷ []) (
            (h "div" (str "className" "flex items-center justify-between gap-2" ∷ []) (
              (h "span" (str "className" "mono text-[11px]" ∷ [])
                ((text "attempt #") ∷ (text (decimal a.attempt_number)) ∷ []))
              ∷ (h "span" (str "className" "mono text-[10px] text-muted-foreground" ∷ [])
                  ((date a.started_at) ∷ []))
              ∷ []))
            ∷ (when ((not (a.success)) && (not (is_empty a.error_message))) (
                h "div"
                  (str "className" "mt-0.5 mono text-[11px] text-status-danger break-words" ∷ [])
                  ((text a.error_message) ∷ [])))
            ∷ (when ((a.success) && (true) && (not (has_no_keys a.provider_response))) (
                h "pre"
                  (str "className"
                      "mt-1 mono text-[10px] text-muted-foreground whitespace-pre-wrap break-words"
                    ∷ [])
                  ((text (stringify (Json.obj a.provider_response))) ∷ [])))
            ∷ []))
        ∷ []))

unfoldable pub attempt_list : List AttemptRow → Node DetailMsg
attempt_list attempts =
    (h "section" [] (
      (section_label
        ((text "Dispatch attempts (") ∷ (text (decimal (length attempts))) ∷ (text ")") ∷ []))
      ∷ (h "ul" (str "className" "mt-2 space-y-1.5" ∷ []) (
          (each attempt_item attempts)
          ∷ (when (is_nil attempts) (
              h "li" (str "className" "text-[11px] text-muted-foreground" ∷ [])
                ((text "No attempts yet") ∷ [])))
          ∷ []))
      ∷ []))

unfoldable pub outbox_item : OutboxRow → Node DetailMsg
outbox_item o =
    (h "li"
      (str "key" (decimal o.id)
        ∷ str "className"
            "flex items-start justify-between gap-2 rounded-md border border-border bg-background/40 p-2"
        ∷ [])
      ((h "div" (str "className" "min-w-0" ∷ []) (
          (h "div" (str "className" "mono text-[11px] text-foreground truncate" ∷ [])
            ((text o.subject) ∷ []))
          ∷ (h "div" (str "className" "mono text-[10px] text-muted-foreground" ∷ []) (
              (text "created ")
              ∷ (date o.created_at)
              ∷ (when (is_given o.published_at)
                  (dated (λ s. template (" · published " ∷ s ∷ [])) (fmt (shown o.published_at))))
              ∷ []))
          ∷ []))
        ∷ (h "span"
            (cn (
                some "mono text-[10px] uppercase tracking-wider"
                ∷ (if (outbox_is published o) then some "text-status-success" else none)
                ∷ (if (outbox_is pending o) then some "text-status-warning" else none)
                ∷ (if (outbox_is failed o) then some "text-status-danger" else none)
                ∷ [])
              ∷ [])
            ((text (outbox_status_text o.status)) ∷ []))
        ∷ []))

unfoldable pub outbox_list : List OutboxRow → Node DetailMsg
outbox_list outbox =
    (h "section" [] (
      (section_label ((text "Outbox (") ∷ (text (decimal (length outbox))) ∷ (text ")") ∷ []))
      ∷ (h "ul" (str "className" "mt-2 space-y-1.5" ∷ []) (
          (each outbox_item outbox)
          ∷ (when (is_nil outbox) (
              h "li" (str "className" "text-[11px] text-muted-foreground" ∷ [])
                ((text "No outbox rows") ∷ [])))
          ∷ []))
      ∷ []))
