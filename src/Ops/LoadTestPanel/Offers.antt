-- ===== src/Ops/LoadTestPanel/Offers.antt =====
-- What the scenario buttons of web/src/components/ops/LoadTestPanel.tsx offer.
use gocourier.Common.{◌≡◌, List, [], ◌∷◌, arith, is_some, if◌then◌else◌, map}
use gocourier.Html.{nodes, clicks, clicks_all}
use gocourier.LoadTest.Config.{
  burst, duplicate_seq, duplicate_par, random_channel, random_priority, mixed_chaos, retry_storm,
  failure_mix, staggered, all_channels_sweep, LoadScenario, load_scenarios,
}
use gocourier.Ops.LoadTestPanel.State.{Panel, run}
use gocourier.Ops.LoadTestPanel.View.{scenario_button, scenario_list}

button-clicks :
    (p : Panel) (s : LoadScenario)
    → clicks (scenario_button p s) ≡ (if is_some p.running then [] else run s.id ∷ [])
unfolding scenario_button clicks
button-clicks p s = ground arith

buttons-clicks :
    (p : Panel) (xs : List LoadScenario)
    → clicks_all (nodes (map (scenario_button p) xs))
      ≡ (if is_some p.running then [] else map (λ s. run s.id) xs)
unfolding clicks
buttons-clicks p [] = ground arith
buttons-clicks p (x ∷ xs) = ground (arith, button-clicks p x, buttons-clicks p xs)

-- While a run is under way the buttons offer no scenario; else they offer each of the ten, in
-- order.
pub scenario_list-clicks :
    (p : Panel)
    → clicks (scenario_list p) ≡ (
        if is_some p.running
        then []
        else run burst
          ∷ run duplicate_seq
          ∷ run duplicate_par
          ∷ run random_channel
          ∷ run random_priority
          ∷ run mixed_chaos
          ∷ run retry_storm
          ∷ run failure_mix
          ∷ run staggered
          ∷ run all_channels_sweep
          ∷ [])
unfolding scenario_list clicks
scenario_list-clicks p = ground (arith, buttons-clicks p load_scenarios)
