-- ===== src/Ops/LoadTestPanel/Launch.antt =====
-- web/src/components/ops/LoadTestPanel.tsx: `runScenario`, from the click to the runner and from the
-- runner's result to the message.
use gocourier.Common.{
  ℕ, ◌≡◌, true, ◌||◌, Option, none, some, [], ◌∷◌, String, if◌then◌else◌, ltb, template, decimal,
}
use gocourier.World.{World, M, ◌>>=◌, pure, date_now}
use gocourier.Api.Types.{SendNotificationReq, SendNotificationResp}
use gocourier.Api.Result.{Result, returned, thrown}
use gocourier.LoadTest.Config.{
  LoadTestConfig, LoadRunResult, LoadScenarioId, LoadScenario, duplicate_seq, staggered,
  scenario_eq, scenario_count,
}
use gocourier.LoadTest.Request.{build_scenario_request}
use gocourier.LoadTest.Run.{Pool, Reach, run_sequential, finish}
use gocourier.LoadTest.Run.Complete.{outstanding}
use gocourier.LoadTest.Summary.{format_run_summary}
use gocourier.Ops.Shared.{Toast, success, error, message}
use gocourier.Ops.LoadTestPanel.State.{Panel, is_duplicate, find_scenario}

-- The runner, with its own argument: the delay or the concurrency.
pub data Runner : Type 0 where
  sequential : (stagger_ms : ℕ) → Runner
  parallel : (concurrency : ℕ) → Runner

-- A run that was started, with the configuration of that moment.
pub record Launch : Type 0 where
  pub scenario : LoadScenarioId
  pub config : LoadTestConfig
  pub count : ℕ
  pub runner : Runner
  pub shared_key : Option String

pub data Started : Type 0 where
  refused : Toast → Started
  launched : Launch → Started

-- `scenario.startsWith("duplicate") ? `dup-storm-${Date.now()}` : undefined`
unfoldable pub shared_key_of : LoadScenarioId → M (Option String)
shared_key_of scenario =
    if is_duplicate scenario
    then (do now ← date_now; pure (some (template ("dup-storm-" ∷ decimal now ∷ []))))
    else pure none

unfoldable pub runner_of : LoadScenarioId → LoadTestConfig → Runner
runner_of scenario config =
    if scenario_eq scenario duplicate_seq || scenario_eq scenario staggered
    then sequential (if scenario_eq scenario staggered then config.stagger_ms else 0)
    else parallel config.concurrency

abbrev invalid_count : Toast
invalid_count = record {
  kind = error;
  title = "Invalid count";
  description = some "Count must be at least 1.";
}

abbrev pub launch_of : LoadScenarioId → LoadTestConfig → Option String → Launch
launch_of scenario config key = record {
  scenario = scenario;
  config = config;
  count = scenario_count scenario config;
  runner = runner_of scenario config;
  shared_key = key;
}

-- `runScenario` up to the call of the runner.
unfoldable pub start_scenario : LoadScenarioId → Panel → M (Panel × Started)
start_scenario scenario p =
    if ltb (scenario_count scenario p.config) 1 then pure (p, refused invalid_count) else do
      key ← shared_key_of scenario
      pure (
        record p { running = some scenario; progress = none },
        launched (launch_of scenario p.config key),
      )

-- `(i) => buildScenarioRequest(scenario, config, i, sharedKey)`
unfoldable pub launch_build : Launch → ℕ → M (Option SendNotificationReq)
launch_build l i = build_scenario_request l.scenario l.config i l.shared_key

-- The results that the runner of a launch can come to, where `reply i` is the reply to the request of index
-- `i`: in a parallel run, once all workers have stopped, in whatever order the replies have come.
pub data RunsTo (l : Launch) (timer : ℕ → ℕ) (w : World) (reply : ℕ → Option SendNotificationResp)
    : LoadRunResult → Type 0 where
  in_sequence :
      (stagger_ms : ℕ)
      → l.runner ≡ sequential stagger_ms
      → RunsTo l timer w reply
          (run_sequential (launch_build l) timer true l.count stagger_ms reply w).result
  in_parallel :
      (concurrency : ℕ) {n : ℕ} {s : Pool (Option SendNotificationReq)}
      → l.runner ≡ parallel concurrency
      → Reach (launch_build l) timer true l.count concurrency w reply n s
      → outstanding s ≡ 0
      → RunsTo l timer w reply (finish (launch_build l) timer true l.count s)

-- `onProgress`
unfoldable pub show_progress : LoadRunResult → Panel → Panel
show_progress r p = record p { progress = some r }

abbrev pub complete_toast : LoadRunResult → LoadScenario → Toast
complete_toast r meta = record {
  kind = if ltb 0 r.fail then message else success;
  title = template (meta.label ∷ " complete" ∷ []);
  description = some (format_run_summary r);
}

abbrev pub toast_of : LoadRunResult → Option LoadScenario → Option Toast
toast_of r none = none
toast_of r (some meta) = some (complete_toast r meta)

-- The message and the `finally`, which also runs where the runner throws.
unfoldable pub finish_scenario :
    LoadScenarioId → Result LoadRunResult → Panel → Panel × Option Toast
finish_scenario scenario (returned r) p =
    (record p { running = none; progress = none }, toast_of r (find_scenario scenario))
finish_scenario scenario (thrown e) p = (record p { running = none; progress = none }, none)
