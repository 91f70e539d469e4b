-- ===== src/Ops/LoadTestPanel/Fields.antt =====
-- web/src/components/ops/LoadTestPanel.tsx: the inputs and selects of the panel.
use gocourier.Common.{some, [], ◌∷◌, if◌then◌else◌, str_eq}
use gocourier.Html.{str, num, flag, cn, on, on_text, on_flag, Node, text, h, when, each}
use gocourier.Api.Types.{channel_text, priority_text}
use gocourier.LoadTest.Config.{
  success, danger, recipient_presets, all_channels, all_priorities, LoadTestConfig,
}
use gocourier.Ops.StatusBadge.{tone_eq}
use gocourier.Ops.LoadTestPanel.State.{
  PanelMsg, set_address, set_burst_count, set_duplicate_count, set_channel_mode, set_fixed_channel,
  toggle_channel, set_priority_mode, set_fixed_priority, set_concurrency, set_stagger_ms,
  has_channel, channel_mode_text, priority_mode_text, is_fixed_channel, is_fixed_priority,
}

unfoldable pub presets : LoadTestConfig → Node PanelMsg
presets config =
    (h "div" (str "className" "flex flex-wrap gap-1.5" ∷ []) (
      (each
        (λ p.
          (h "button"
            (str "key" p.label
              ∷ str "type" "button"
              ∷ on "onClick" (set_address p.address)
              ∷ cn (
                  some "rounded-md border px-2 py-1 text-[11px] transition-colors"
                  ∷ some (
                      if (str_eq config.address p.address)
                      then (if (tone_eq p.tone success)
                          then "border-status-success/40 bg-status-success/10 text-status-success"
                          else (if (tone_eq p.tone danger)
                              then "border-status-danger/40 bg-status-danger/10 text-status-danger"
                              else "border-status-warning/40 bg-status-warning/10 text-status-warning"))
                      else "border-border bg-background text-muted-foreground hover:text-foreground")
                  ∷ [])
              ∷ [])
            ((text p.label) ∷ [])))
        recipient_presets)
      ∷ []))

unfoldable pub recipient_input : LoadTestConfig → Node PanelMsg
recipient_input config =
    (h "div" (str "className" "space-y-1.5" ∷ []) (
      (h "Label" (str "className" "text-[11px] text-muted-foreground" ∷ [])
        ((text "Recipient") ∷ []))
      ∷ (h "Input"
          (str "value" config.address
            ∷ on_text "onChange" set_address
            ∷ str "className" "h-8 text-xs mono"
            ∷ [])
          [])
      ∷ []))

unfoldable pub count_inputs : LoadTestConfig → Node PanelMsg
count_inputs config =
    (h "div" (str "className" "grid grid-cols-2 gap-2" ∷ []) (
      (h "div" (str "className" "space-y-1.5" ∷ []) (
        (h "Label" (str "className" "text-[11px] text-muted-foreground" ∷ [])
          ((text "Burst count") ∷ []))
        ∷ (h "Input"
            (str "type" "number"
              ∷ num "min" 1
              ∷ num "max" 500
              ∷ num "value" config.burst_count
              ∷ on_text "onChange" set_burst_count
              ∷ str "className" "h-8 text-xs mono"
              ∷ [])
            [])
        ∷ []))
      ∷ (h "div" (str "className" "space-y-1.5" ∷ []) (
          (h "Label" (str "className" "text-[11px] text-muted-foreground" ∷ [])
            ((text "Duplicate count") ∷ []))
          ∷ (h "Input"
              (str "type" "number"
                ∷ num "min" 1
                ∷ num "max" 500
                ∷ num "value" config.duplicate_count
                ∷ on_text "onChange" set_duplicate_count
                ∷ str "className" "h-8 text-xs mono"
                ∷ [])
              [])
          ∷ []))
      ∷ []))

unfoldable pub channel_mode_select : LoadTestConfig → Node PanelMsg
channel_mode_select config =
    (h "div" (str "className" "space-y-1.5" ∷ []) (
      (h "Label" (str "className" "text-[11px] text-muted-foreground" ∷ [])
        ((text "Channel mode") ∷ []))
      ∷ (h "Select"
          (str "value" (channel_mode_text config.channel_mode)
            ∷ on_text "onValueChange" set_channel_mode
            ∷ [])
          ((h "SelectTrigger" (str "className" "h-8 text-xs mono" ∷ [])
              ((h "SelectValue" [] []) ∷ []))
            ∷ (h "SelectContent" [] (
                (h "SelectItem" (str "value" "fixed" ∷ []) ((text "Fixed channel") ∷ []))
                ∷ (h "SelectItem" (str "value" "random" ∷ []) ((text "Random from selection") ∷ []))
                ∷ (h "SelectItem" (str "value" "round-robin" ∷ [])
                    ((text "Round-robin sweep") ∷ []))
                ∷ []))
            ∷ []))
      ∷ []))

unfoldable pub channel_picker : LoadTestConfig → Node PanelMsg
channel_picker config =
    (if (is_fixed_channel config.channel_mode)
      then (h "div" (str "className" "space-y-1.5" ∷ []) (
          (h "Label" (str "className" "text-[11px] text-muted-foreground" ∷ [])
            ((text "Channel") ∷ []))
          ∷ (h "Select"
              (str "value" (channel_text config.fixed_channel)
                ∷ on_text "onValueChange" set_fixed_channel
                ∷ [])
              ((h "SelectTrigger" (str "className" "h-8 text-xs mono" ∷ [])
                  ((h "SelectValue" [] []) ∷ []))
                ∷ (h "SelectContent" [] (
                    (each
                      (λ ch.
                        (h "SelectItem"
                          (str "key" (channel_text ch) ∷ str "value" (channel_text ch) ∷ [])
                          ((text (channel_text ch)) ∷ [])))
                      all_channels)
                    ∷ []))
                ∷ []))
          ∷ []))
      else (h "div" (str "className" "space-y-1.5" ∷ []) (
          (h "Label" (str "className" "text-[11px] text-muted-foreground" ∷ [])
            ((text "Channels in pool") ∷ []))
          ∷ (h "div" (str "className" "grid grid-cols-2 gap-2" ∷ []) (
              (each
                (λ ch.
                  (h "label"
                    (str "key" (channel_text ch)
                      ∷ str "className" "flex cursor-pointer items-center gap-2 text-[11px] mono"
                      ∷ [])
                    ((h "Checkbox"
                        (flag "checked" (has_channel config.selected_channels ch)
                          ∷ on_flag "onCheckedChange" (toggle_channel ch)
                          ∷ [])
                        [])
                      ∷ (text (channel_text ch))
                      ∷ [])))
                all_channels)
              ∷ []))
          ∷ [])))

unfoldable pub priority_picker : LoadTestConfig → Node PanelMsg
priority_picker config =
    (h "div" (str "className" "grid grid-cols-2 gap-2" ∷ []) (
      (h "div" (str "className" "space-y-1.5" ∷ []) (
        (h "Label" (str "className" "text-[11px] text-muted-foreground" ∷ [])
          ((text "Priority mode") ∷ []))
        ∷ (h "Select"
            (str "value" (priority_mode_text config.priority_mode)
              ∷ on_text "onValueChange" set_priority_mode
              ∷ [])
            ((h "SelectTrigger" (str "className" "h-8 text-xs mono" ∷ [])
                ((h "SelectValue" [] []) ∷ []))
              ∷ (h "SelectContent" [] (
                  (h "SelectItem" (str "value" "fixed" ∷ []) ((text "Fixed") ∷ []))
                  ∷ (h "SelectItem" (str "value" "random" ∷ []) ((text "Random") ∷ []))
                  ∷ []))
              ∷ []))
        ∷ []))
      ∷ (when (is_fixed_priority config.priority_mode) (
          h "div" (str "className" "space-y-1.5" ∷ []) (
            (h "Label" (str "className" "text-[11px] text-muted-foreground" ∷ [])
              ((text "Priority") ∷ []))
            ∷ (h "Select"
                (str "value" (priority_text config.fixed_priority)
                  ∷ on_text "onValueChange" set_fixed_priority
                  ∷ [])
                ((h "SelectTrigger" (str "className" "h-8 text-xs mono" ∷ [])
                    ((h "SelectValue" [] []) ∷ []))
                  ∷ (h "SelectContent" [] (
                      (each
                        (λ q.
                          (h "SelectItem"
                            (str "key" (priority_text q) ∷ str "value" (priority_text q) ∷ [])
                            ((text (priority_text q)) ∷ [])))
                        all_priorities)
                      ∷ []))
                  ∷ []))
            ∷ [])))
      ∷ []))

unfoldable pub limit_inputs : LoadTestConfig → Node PanelMsg
limit_inputs config =
    (h "div" (str "className" "grid grid-cols-2 gap-2" ∷ []) (
      (h "div" (str "className" "space-y-1.5" ∷ []) (
        (h "Label" (str "className" "text-[11px] text-muted-foreground" ∷ [])
          ((text "Concurrency") ∷ []))
        ∷ (h "Input"
            (str "type" "number"
              ∷ num "min" 1
              ∷ num "max" 100
              ∷ num "value" config.concurrency
              ∷ on_text "onChange" set_concurrency
              ∷ str "className" "h-8 text-xs mono"
              ∷ [])
            [])
        ∷ []))
      ∷ (h "div" (str "className" "space-y-1.5" ∷ []) (
          (h "Label" (str "className" "text-[11px] text-muted-foreground" ∷ [])
            ((text "Stagger (ms)") ∷ []))
          ∷ (h "Input"
              (str "type" "number"
                ∷ num "min" 0
                ∷ num "max" 5000
                ∷ num "value" config.stagger_ms
                ∷ on_text "onChange" set_stagger_ms
                ∷ str "className" "h-8 text-xs mono"
                ∷ [])
              [])
          ∷ []))
      ∷ []))
