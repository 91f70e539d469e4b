-- ===== src/Tests/Panels.antt =====
-- The panels of web/src/components/ops at concrete states.
use gocourier.Common.{
  ◌≡◌, refl, ℕ, true, false, not, ◌&&◌, ◌||◌, some, Option, List, [], ◌∷◌, inr, All, if◌then◌else◌,
  is_some,
}
use gocourier.World.{date_now}
use gocourier.Api.Types.{email, sms, queued, SendNotificationReq, SendNotificationResp, channel_eq}
use gocourier.Api.Result.{returned}
use gocourier.Store.{initial_state, zustand}
use gocourier.Hooks.{Page}
use gocourier.LoadTest.Config.{
  burst, duplicate_seq, duplicate_par, random_channel, random_priority, mixed_chaos, retry_storm,
  failure_mix, staggered, all_channels_sweep, default_load_config, scenario_count,
}
use gocourier.LoadTest.Run.{Pool, Reach, run_sequential}
use gocourier.Ops.LoadTestPanel.State.{
  first_panel, PanelMsg, set_burst_count, set_concurrency, toggle_channel, run, has_channel,
  toggle_selection,
}
use gocourier.Ops.LoadTestPanel.Launch.{
  Launch, start_scenario, launch_of, launch_build, shared_key_of,
}
use gocourier.Ops.LoadTestPanel.Valid.{after, Starts, panel-Starts}
use gocourier.Ops.LoadTestPanel.Selection.{has_other, toggle_selection-has}
use gocourier.Ops.LoadTestPanel.Offers.{scenario_list-clicks}
use gocourier.Ops.LoadTestPanel.Storm.{HasKey, storm_key, storm-HasKey}
use gocourier.Ops.LoadTestPanel.View.{scenario_list}
use gocourier.Ops.SendTestForm.{Form, settle}
use gocourier.Ops.SendTestForm.Submit.{Ends, settle-Ends}
use gocourier.Ops.DeliveryDetail.State.{look_up}
use gocourier.Ops.DeliveryDetail.Lookup.{LooksUp, look_up-LooksUp}
use gocourier.Html.{clicks}
use gocourier.Tests.Data.{browser, replies, timer}

abbrev inputs : List PanelMsg
inputs = set_burst_count "-5" ∷ set_concurrency "250" ∷ toggle_channel email false ∷ []

panel-Starts_example :
    Starts burst
      (after inputs first_panel).config
      (start_scenario burst (after inputs first_panel) browser).0.1
panel-Starts_example = panel-Starts inputs burst browser

toggle_selection-has_example : has_channel (toggle_selection (email ∷ []) email false) email ≡ (
    if false
    then has_channel (email ∷ []) email || channel_eq email email
    else if has_other (email ∷ []) email
    then has_channel (email ∷ []) email && not (channel_eq email email)
    else channel_eq email email)
toggle_selection-has_example = toggle_selection-has (email ∷ []) email email false

scenario_list-clicks_example :
    clicks (scenario_list (record first_panel { running = some burst })) ≡ (
      if is_some (record first_panel { running = some burst }).running
      then []
      else run burst
        ∷ run duplicate_seq
        ∷ run duplicate_par
        ∷ run random_channel
        ∷ run random_priority
        ∷ run mixed_chaos
        ∷ run retry_storm
        ∷ run failure_mix
        ∷ run staggered
        ∷ run all_channels_sweep
        ∷ [])
scenario_list-clicks_example = scenario_list-clicks (record first_panel { running = some burst })

-- A run of the scenario that sends one after another.
abbrev repeated : Launch
repeated = launch_of duplicate_seq first_panel.config (some (storm_key browser))

abbrev storm : Launch
storm = launch_of duplicate_par first_panel.config (some (storm_key browser))

storm-HasKey_example :
    ((n : ℕ) (s : Pool (Option SendNotificationReq))
      → Reach (launch_build storm) timer true storm.count 10 browser replies n s
      → All (HasKey (storm_key browser)) s.sent)
    × All
        (HasKey (storm_key browser))
        (run_sequential (launch_build storm) timer true storm.count 0 replies browser).sent
unfolding start_scenario first_panel default_load_config scenario_count shared_key_of date_now
storm-HasKey_example =
    storm-HasKey duplicate_par first_panel browser storm (inr refl) refl timer true 10 0 browser
      replies

abbrev page : Page
page = record { store = initial_state; invalidated = [] }

abbrev form : Form
form = record { channel = sms; address = "+15550100"; key = "test-1" }

abbrev response : SendNotificationResp
response = record {
  delivery_id = "1d0973f2-5512-494c-b767-c44614b08000";
  status = queued;
  duplicate = some true;
}

settle-Ends_example :
    Ends
      (returned response)
      form
      page
      browser
      (settle zustand (returned response) form page browser)
settle-Ends_example = settle-Ends zustand (returned response) form page browser

look_up-LooksUp_example :
    LooksUp " 1D0973F2-5512-494c-b767-c44614b08000 " initial_state
      (look_up zustand " 1D0973F2-5512-494c-b767-c44614b08000 " initial_state)
look_up-LooksUp_example =
    look_up-LooksUp zustand " 1D0973F2-5512-494c-b767-c44614b08000 " initial_state
