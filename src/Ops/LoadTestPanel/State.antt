-- ===== src/Ops/LoadTestPanel/State.antt =====
-- web/src/components/ops/LoadTestPanel.tsx: the state of the panel and the handlers that change it.
use text.Mathlib.Text.{starts_with}
use gocourier.Common.{
  Bool, true, false, not, Option, none, some, List, [], ◌∷◌, ◌++◌, String, if◌then◌else◌, ◌or_else◌,
  str_eq, any, filter, find,
}
use gocourier.Api.Types.{Channel, channel_eq, channel_of_text, priority_of_text}
use gocourier.LoadTest.Config.{
  ChannelMode, fixed, random, round_robin, PriorityMode, LoadTestConfig, LoadRunResult,
  LoadScenarioId, LoadScenario, load_scenarios, scenario_text, scenario_eq, default_load_config,
}
use gocourier.Ops.Shared.{plus, to_number, number_or, math_min, math_max, as_count, is_nil}

pub record Panel : Type 0 where
  pub config : LoadTestConfig
  pub advanced_open : Bool
  pub running : Option LoadScenarioId
  pub progress : Option LoadRunResult

unfoldable pub first_panel : Panel
first_panel = record {
  config = default_load_config;
  advanced_open = false;
  running = none;
  progress = none;
}

-- The handlers. Inputs and selects give texts.
pub data PanelMsg : Type 0 where
  set_address : String → PanelMsg
  set_burst_count : String → PanelMsg
  set_duplicate_count : String → PanelMsg
  set_advanced_open : Bool → PanelMsg
  set_channel_mode : String → PanelMsg
  set_fixed_channel : String → PanelMsg
  toggle_channel : Channel → Bool → PanelMsg
  set_priority_mode : String → PanelMsg
  set_fixed_priority : String → PanelMsg
  set_concurrency : String → PanelMsg
  set_stagger_ms : String → PanelMsg
  run : LoadScenarioId → PanelMsg

abbrev pub channel_mode_text : ChannelMode → String
channel_mode_text fixed = "fixed"
channel_mode_text random = "random"
channel_mode_text round_robin = "round-robin"

abbrev pub priority_mode_text : PriorityMode → String
priority_mode_text fixed = "fixed"
priority_mode_text random = "random"

abbrev pub channel_mode_of_text : String → Option ChannelMode
channel_mode_of_text v =
    if str_eq v "fixed"
    then some ChannelMode.fixed
    else if str_eq v "random"
    then some ChannelMode.random
    else if str_eq v "round-robin"
    then some round_robin
    else none

abbrev pub priority_mode_of_text : String → Option PriorityMode
priority_mode_of_text v =
    if str_eq v "fixed"
    then some PriorityMode.fixed
    else if str_eq v "random"
    then some PriorityMode.random
    else none

abbrev pub is_fixed_channel : ChannelMode → Bool
is_fixed_channel fixed = true
is_fixed_channel _ = false

abbrev pub is_fixed_priority : PriorityMode → Bool
is_fixed_priority fixed = true
is_fixed_priority _ = false

-- `xs.includes(c)`
unfoldable pub has_channel : List Channel → Channel → Bool
has_channel xs c = any (λ x. channel_eq x c) xs

-- `[...new Set(xs)]`: the first of equal elements stays.
unfoldable pub to_set_from : List Channel → List Channel → List Channel
to_set_from seen [] = seen
to_set_from seen (x ∷ xs) = to_set_from (if has_channel seen x then seen else seen ++ x ∷ []) xs

unfoldable pub toggled : List Channel → Channel → Bool → List Channel
toggled selected channel checked =
    if checked
    then to_set_from [] (selected ++ channel ∷ [])
    else filter (λ ch. not (channel_eq ch channel)) selected

-- The selection after a toggle: never empty.
unfoldable pub toggle_selection : List Channel → Channel → Bool → List Channel
toggle_selection selected channel checked =
    let next = toggled selected channel checked in if is_nil next then channel ∷ [] else next

-- `setConfig((c) => ({ ...c, ...partial }))`, for the member that each handler gives. The selects offer
-- the literals only, and no other text.
unfoldable pub patch : PanelMsg → LoadTestConfig → LoadTestConfig
patch (set_address v) c = record c { address = v }
patch (set_burst_count v) c = record c {
  burst_count = as_count (math_max 1 (number_or (to_number v) (plus 1)));
}
patch (set_duplicate_count v) c = record c {
  duplicate_count = as_count (math_max 1 (number_or (to_number v) (plus 1)));
}
patch (set_channel_mode v) c = record c {
  channel_mode = channel_mode_of_text v or_else c.channel_mode;
}
patch (set_fixed_channel v) c = record c {
  fixed_channel = channel_of_text v or_else c.fixed_channel;
}
patch (toggle_channel ch checked) c = record c {
  selected_channels = toggle_selection c.selected_channels ch checked;
}
patch (set_priority_mode v) c = record c {
  priority_mode = priority_mode_of_text v or_else c.priority_mode;
}
patch (set_fixed_priority v) c = record c {
  fixed_priority = priority_of_text v or_else c.fixed_priority;
}
patch (set_concurrency v) c = record c {
  concurrency = as_count (math_max 1 (math_min 100 (number_or (to_number v) (plus 1))));
}
patch (set_stagger_ms v) c = record c {
  stagger_ms = as_count (math_max 0 (number_or (to_number v) (plus 0)));
}
patch (set_advanced_open b) c = c
patch (run s) c = c

-- `run` is `runScenario`, whose parts stand in the module `Launch`.
unfoldable pub update : PanelMsg → Panel → Panel
update (set_advanced_open b) p = record p { advanced_open = b }
update m p = record p { config = patch m p.config }

-- `scenario.startsWith("duplicate")`
abbrev pub is_duplicate : LoadScenarioId → Bool
is_duplicate s = starts_with (scenario_text s) "duplicate"

-- `LOAD_SCENARIOS.find((s) => s.id === scenario)`
unfoldable pub find_scenario : LoadScenarioId → Option LoadScenario
find_scenario s = find (λ m. scenario_eq m.id s) load_scenarios
