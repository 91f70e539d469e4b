-- ===== src/Ops/LoadTestPanel/View.antt =====
-- web/src/components/ops/LoadTestPanel.tsx: what the panel shows.
use gocourier.Common.{
  ◌+◌, Bool, true, false, Option, none, some, [], ◌∷◌, if◌then◌else◌, is_some, decimal,
}
use gocourier.Html.{str, flag, cn, on, on_flag, Node, nothing, text, h, each}
use gocourier.LoadTest.Config.{
  LoadRunResult, LoadScenarioId, LoadScenario, load_scenarios, scenario_text, scenario_eq,
  scenario_count,
}
use gocourier.LoadTest.Summary.{rounded_ms}
use gocourier.Ops.LoadTestPanel.State.{
  Panel, PanelMsg, set_advanced_open, run, is_duplicate, find_scenario,
}
use gocourier.Ops.LoadTestPanel.Icon.{scenario_icon}
use gocourier.Ops.LoadTestPanel.Fields.{
  presets, recipient_input, count_inputs, channel_mode_select, channel_picker, priority_picker,
  limit_inputs,
}

unfoldable pub advanced : Panel → Node PanelMsg
advanced p =
    let config = p.config in
    (h "Collapsible" (flag "open" p.advanced_open ∷ on_flag "onOpenChange" set_advanced_open ∷ []) (
      (h "CollapsibleTrigger" (flag "asChild" true ∷ []) (
        (h "button"
          (str "type" "button"
            ∷ str "className"
                "flex w-full items-center justify-between rounded-md border border-border px-2 py-1.5 text-[11px] text-muted-foreground hover:text-foreground"
            ∷ [])
          ((h "span" [] ((text "Advanced configuration") ∷ []))
            ∷ (h "ChevronDown"
                (cn (
                    some "h-3.5 w-3.5 transition-transform"
                    ∷ (if (p.advanced_open) then some "rotate-180" else none)
                    ∷ [])
                  ∷ [])
                [])
            ∷ []))
        ∷ []))
      ∷ (h "CollapsibleContent" (str "className" "mt-2 space-y-2" ∷ []) (
          channel_mode_select config
          ∷ channel_picker config
          ∷ priority_picker config
          ∷ limit_inputs config
          ∷ []))
      ∷ []))

-- `activeScenario`
unfoldable pub active_scenario : Option LoadScenarioId → Option LoadScenario
active_scenario none = none
active_scenario (some s) = find_scenario s

abbrev label_node : Option LoadScenario → Node PanelMsg
label_node none = nothing
label_node (some s) = text s.label

abbrev progress_line : Option LoadScenarioId → LoadRunResult → Node PanelMsg
progress_line running r =
    (h "div"
      (str "className"
          "rounded-md border border-border bg-muted/40 px-2 py-1.5 text-[10px] mono text-muted-foreground"
        ∷ [])
      ((label_node (active_scenario running))
        ∷ (text ": ")
        ∷ (text (decimal (r.ok + r.duplicates)))
        ∷ (text "/")
        ∷ (text (decimal r.total))
        ∷ (text " (")
        ∷ (text (decimal r.fail))
        ∷ (text " failed) · ")
        ∷ (text (decimal (rounded_ms r.elapsed_us)))
        ∷ (text " ms")
        ∷ []))

-- `{running && progress && …}`
unfoldable pub progress_node : Option LoadScenarioId → Option LoadRunResult → Node PanelMsg
progress_node none progress = nothing
progress_node (some s) none = nothing
progress_node (some s) (some r) = progress_line (some s) r

abbrev runs : Option LoadScenarioId → LoadScenarioId → Bool
runs none id = false
runs (some s) id = scenario_eq s id

unfoldable pub scenario_button : Panel → LoadScenario → Node PanelMsg
scenario_button p scenario =
    let running = p.running in
    let count = scenario_count scenario.id p.config in
    let is_running = runs running scenario.id in
    (h "Button"
      (str "key" (scenario_text scenario.id)
        ∷ str "type" "button"
        ∷ str "variant" (if is_duplicate scenario.id then "outline" else "secondary")
        ∷ flag "disabled" (is_some running)
        ∷ str "className" "h-auto min-h-8 justify-start py-1.5 text-left text-xs"
        ∷ str "title" scenario.description
        ∷ on "onClick" (run scenario.id)
        ∷ [])
      ((if (is_running)
          then (h "Loader2" (str "className" "mr-1.5 h-3.5 w-3.5 shrink-0 animate-spin" ∷ []) [])
          else (h (scenario_icon scenario.id) (str "className" "mr-1.5 h-3.5 w-3.5 shrink-0" ∷ [])
              []))
        ∷ (h "span" (str "className" "flex min-w-0 flex-col" ∷ []) (
            (h "span" []
              ((text scenario.label) ∷ (text " (") ∷ (text (decimal count)) ∷ (text ")") ∷ []))
            ∷ (h "span"
                (str "className" "truncate text-[10px] font-normal text-muted-foreground" ∷ [])
                ((text scenario.description) ∷ []))
            ∷ []))
        ∷ []))

unfoldable pub scenario_list : Panel → Node PanelMsg
scenario_list p =
    (h "div" (str "className" "flex max-h-[220px] flex-col gap-1.5 overflow-y-auto pr-0.5" ∷ [])
      ((each (scenario_button p) load_scenarios) ∷ []))

unfoldable pub load_test_panel : Panel → Node PanelMsg
load_test_panel p =
    let config = p.config in
    (h "div" (str "className" "space-y-3 rounded-lg border border-border bg-card p-3" ∷ []) (
      (h "div"
        (str "className" "text-xs font-medium uppercase tracking-wider text-muted-foreground" ∷ [])
        ((text "Load test panel") ∷ []))
      ∷ (presets config)
      ∷ (recipient_input config)
      ∷ (count_inputs config)
      ∷ (advanced p)
      ∷ (progress_node p.running p.progress)
      ∷ (scenario_list p)
      ∷ []))
