-- ===== src/Ops/LoadTestPanel/Icon.antt =====
-- web/src/components/ops/LoadTestPanel.tsx: `scenarioIcon`.
use gocourier.Common.{String, ◌||◌, if◌then◌else◌}
use gocourier.LoadTest.Config.{LoadScenarioId, staggered, retry_storm, failure_mix, scenario_eq}
use gocourier.Ops.LoadTestPanel.State.{is_duplicate}

-- The icon's component, by its name.
unfoldable pub scenario_icon : LoadScenarioId → String
scenario_icon id =
    if is_duplicate id
    then "Shuffle"
    else if scenario_eq id staggered
    then "Waves"
    else if scenario_eq id retry_storm || scenario_eq id failure_mix
    then "AlertTriangle"
    else "Zap"
