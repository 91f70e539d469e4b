-- ===== src/Ops/LoadTestPanel/Valid.antt =====
-- No input of the panel of web/src/components/ops/LoadTestPanel.tsx makes a configuration that cannot run.
use gocourier.Common.{
  zero, suc, ◌≤◌, ◌≡◌, refl, Bool, false, ◌||◌, ◌∙◌, List, [], ◌∷◌, arith, ltb, Bool-cases, inl,
  inr,
}
use gocourier.World.{World}
use gocourier.Api.Types.{Channel}
use gocourier.LoadTest.Config.{
  LoadTestConfig, LoadScenarioId, duplicate_seq, duplicate_par, staggered, scenario_count,
  default_load_config, scenario_eq,
}
use gocourier.Ops.Shared.{
  is_nil, Number, plus, minus, nan, to_number, number_or, math_min, math_max, as_count,
}
use gocourier.Ops.LoadTestPanel.State.{
  Panel, first_panel, PanelMsg, set_address, set_burst_count, set_duplicate_count,
  set_advanced_open, set_channel_mode, set_fixed_channel, toggle_channel, set_priority_mode,
  set_fixed_priority, set_concurrency, set_stagger_ms, run, toggled, toggle_selection, patch,
  update,
}
use gocourier.Ops.LoadTestPanel.Launch.{
  Runner, sequential, parallel, Launch, Started, launched, start_scenario, launch_of, shared_key_of,
  runner_of,
}

pub record IsValid (c : LoadTestConfig) : Type 0 where
  pub burst_count : 1 ≤ c.burst_count
  pub duplicate_count : 1 ≤ c.duplicate_count
  pub concurrency_min : 1 ≤ c.concurrency
  pub concurrency_max : c.concurrency ≤ 100
  pub selected : is_nil c.selected_channels ≡ false

toggle_selection-nonempty :
    (cs : List Channel) (c : Channel) (b : Bool) → is_nil (toggle_selection cs c b) ≡ false
unfolding toggle_selection
toggle_selection-nonempty cs c b = elim (Bool-cases (is_nil (toggled cs c b))) [
  | inl empty ↦ rw empty refl
  | inr full ↦ rw full full
]

-- A configuration with the numbers and the selection of a valid one is valid.
same-IsValid :
    (c d : LoadTestConfig)
    → IsValid c
    → d.burst_count ≡ c.burst_count
    → d.duplicate_count ≡ c.duplicate_count
    → d.concurrency ≡ c.concurrency
    → is_nil d.selected_channels ≡ is_nil c.selected_channels
    → IsValid d
same-IsValid c d v b u n sel = record {
  burst_count = omega (arith, v.burst_count, b);
  duplicate_count = omega (arith, v.duplicate_count, u);
  concurrency_min = omega (arith, v.concurrency_min, n);
  concurrency_max = omega (arith, v.concurrency_max, n);
  selected = sel ∙ v.selected;
}

-- What the inputs store, whatever number is typed.
count-least : (n : Number) → 1 ≤ as_count (math_max 1 (number_or n (plus 1)))
count-least (plus zero) = omega arith
count-least (plus (suc n)) = omega arith
count-least (minus n) = omega arith
count-least nan = omega arith

clamped :
    (n : Number)
    → let k = as_count (math_max 1 (math_min 100 (number_or n (plus 1)))) in (1 ≤ k) × (k ≤ 100)
clamped (plus zero) = (omega arith, omega arith)
clamped (plus (suc n)) = (omega arith, omega arith)
clamped (minus n) = (omega arith, omega arith)
clamped nan = (omega arith, omega arith)

patch-IsValid : (m : PanelMsg) (c : LoadTestConfig) → IsValid c → IsValid (patch m c)
unfolding patch
patch-IsValid (set_address a) c v = same-IsValid c _ v refl refl refl refl
patch-IsValid (set_channel_mode t) c v = same-IsValid c _ v refl refl refl refl
patch-IsValid (set_fixed_channel t) c v = same-IsValid c _ v refl refl refl refl
patch-IsValid (set_priority_mode t) c v = same-IsValid c _ v refl refl refl refl
patch-IsValid (set_fixed_priority t) c v = same-IsValid c _ v refl refl refl refl
patch-IsValid (set_stagger_ms t) c v = same-IsValid c _ v refl refl refl refl
patch-IsValid (set_advanced_open b) c v = same-IsValid c _ v refl refl refl refl
patch-IsValid (run x) c v = same-IsValid c _ v refl refl refl refl
patch-IsValid (set_burst_count t) c v = record {
  burst_count = count-least (to_number t);
  duplicate_count = v.duplicate_count;
  concurrency_min = v.concurrency_min;
  concurrency_max = v.concurrency_max;
  selected = v.selected;
}
patch-IsValid (set_duplicate_count t) c v = record {
  burst_count = v.burst_count;
  duplicate_count = count-least (to_number t);
  concurrency_min = v.concurrency_min;
  concurrency_max = v.concurrency_max;
  selected = v.selected;
}
patch-IsValid (set_concurrency t) c v = record {
  burst_count = v.burst_count;
  duplicate_count = v.duplicate_count;
  concurrency_min = (clamped (to_number t)).0;
  concurrency_max = (clamped (to_number t)).1;
  selected = v.selected;
}
patch-IsValid (toggle_channel ch b) c v = record {
  burst_count = v.burst_count;
  duplicate_count = v.duplicate_count;
  concurrency_min = v.concurrency_min;
  concurrency_max = v.concurrency_max;
  selected = toggle_selection-nonempty c.selected_channels ch b;
}

-- The panel after a series of inputs.
abbrev pub after : List PanelMsg → Panel → Panel
after [] p = p
after (m ∷ ms) p = after ms (update m p)

update-IsValid : (m : PanelMsg) (p : Panel) → IsValid p.config → IsValid (update m p).config
unfolding update
update-IsValid (set_advanced_open b) p v = v
update-IsValid m p v = patch-IsValid m p.config v

first_panel-IsValid : IsValid first_panel.config
unfolding first_panel default_load_config
first_panel-IsValid = record {
  burst_count = omega arith;
  duplicate_count = omega arith;
  concurrency_min = omega arith;
  concurrency_max = omega arith;
  selected = refl;
}

after-IsValid : (ms : List PanelMsg) (p : Panel) → IsValid p.config → IsValid (after ms p).config
after-IsValid [] p v = v
after-IsValid (m ∷ ms) p v = after-IsValid ms (update m p) (update-IsValid m p v)

-- What is started: a run, of a count and for a runner within bounds.
abbrev pub IsBounded : Runner → Type 0
IsBounded (sequential ms) = Unit
IsBounded (parallel n) = (1 ≤ n) × (n ≤ 100)

pub record Starts (id : LoadScenarioId) (c : LoadTestConfig) (s : Started) : Type 0 where
  pub launch : Launch
  pub is_launched : s ≡ launched launch
  pub of_scenario : launch.scenario ≡ id
  pub of_config : launch.config ≡ c
  pub positive : 1 ≤ launch.count
  pub bounded : IsBounded launch.runner

count-positive : (id : LoadScenarioId) (c : LoadTestConfig) → IsValid c → 1 ≤ scenario_count id c
unfolding scenario_count
count-positive duplicate_seq c v = v.duplicate_count
count-positive duplicate_par c v = v.duplicate_count
count-positive id c v = v.burst_count

runner-IsBounded :
    (id : LoadScenarioId) (c : LoadTestConfig) → IsValid c → IsBounded (runner_of id c)
unfolding runner_of
runner-IsBounded id c v =
    elim (Bool-cases (scenario_eq id duplicate_seq || scenario_eq id staggered)) [
      | inl seq ↦ rw seq tt
      | inr par ↦ rw par (v.concurrency_min, v.concurrency_max)
    ]

Starts-of_valid :
    (id : LoadScenarioId) (p : Panel) (w : World)
    → IsValid p.config
    → Starts id p.config (start_scenario id p w).0.1
unfolding start_scenario
Starts-of_valid id p w v =
    let enough : ltb (scenario_count id p.config) 1 ≡ false =
      ground (arith, count-positive id p.config v) in
    rw enough (record {
      launch = launch_of id p.config (shared_key_of id w).0;
      is_launched = refl;
      of_scenario = refl;
      of_config = refl;
      positive = count-positive id p.config v;
      bounded = runner-IsBounded id p.config v;
    })

-- Whatever is typed and chosen, also a negative number, where a fraction counts as no number, each scenario starts: the message on an invalid count
-- is never shown, the count is at least 1 and the concurrency from 1 to 100. A run has the configuration of
-- the moment of the click.
pub panel-Starts :
    (ms : List PanelMsg) (id : LoadScenarioId) (w : World)
    → Starts id (after ms first_panel).config (start_scenario id (after ms first_panel) w).0.1
panel-Starts ms id w =
    Starts-of_valid id (after ms first_panel) w (after-IsValid ms first_panel first_panel-IsValid)
