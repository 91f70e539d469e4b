-- ===== src/LoadTest/Config.antt =====
-- web/src/lib/loadTest.ts: the constants, the configuration and the scenarios.
use gocourier.Common.{ℕ, Bool, String, List, [], ◌∷◌, str_eq}
use gocourier.Api.Types.{Channel, email, sms, push, webhook, Priority, low, normal, high}

abbrev pub all_channels : List Channel
all_channels = email ∷ sms ∷ push ∷ webhook ∷ []

abbrev pub all_priorities : List Priority
all_priorities = low ∷ normal ∷ high ∷ []

pub data Tone : Type 0 where
  success warning danger neutral : Tone

pub record RecipientPreset : Type 0 where
  pub label : String
  pub address : String
  pub tone : Tone

abbrev pub recipient_presets : List RecipientPreset
recipient_presets =
    record { label = "Happy"; address = "user@example.com"; tone = success }
    ∷ record { label = "Transient"; address = "fail-transient@example.com"; tone = warning }
    ∷ record { label = "Permanent"; address = "fail-permanent@example.com"; tone = danger }
    ∷ record { label = "Circuit"; address = "fail-circuit@example.com"; tone = warning }
    ∷ []

pub data ChannelMode : Type 0 where
  fixed random round_robin : ChannelMode

pub data PriorityMode : Type 0 where
  fixed random : PriorityMode

pub record LoadTestConfig : Type 0 where
  pub address : String
  pub burst_count : ℕ
  pub duplicate_count : ℕ
  pub channel_mode : ChannelMode
  pub fixed_channel : Channel
  pub selected_channels : List Channel
  pub priority_mode : PriorityMode
  pub fixed_priority : Priority
  pub concurrency : ℕ
  pub stagger_ms : ℕ

-- Times are in microseconds, which `performance.now()` counts in fractions of a millisecond.
pub record LoadRunResult : Type 0 where
  pub ok : ℕ
  pub fail : ℕ
  pub duplicates : ℕ
  pub total : ℕ
  pub elapsed_us : ℕ

pub data LoadScenarioId : Type 0 where
  burst duplicate_seq duplicate_par random_channel random_priority : LoadScenarioId
  mixed_chaos retry_storm failure_mix staggered all_channels_sweep : LoadScenarioId

pub record LoadScenario : Type 0 where
  pub id : LoadScenarioId
  pub label : String
  pub description : String

abbrev pub load_scenarios : List LoadScenario
load_scenarios =
    record {
      id = burst;
      label = "Parallel burst";
      description = "Unique keys, max concurrency — baseline ingest spike";
    }
    ∷ record {
      id = duplicate_seq;
      label = "Duplicate storm (sequential)";
      description = "Same idempotency key, one after another";
    }
    ∷ record {
      id = duplicate_par;
      label = "Duplicate storm (parallel)";
      description = "Same idempotency key, fired concurrently — idempotency race";
    }
    ∷ record {
      id = random_channel;
      label = "Random channel burst";
      description = "Each request picks a random channel from selection";
    }
    ∷ record {
      id = random_priority;
      label = "Random priority burst";
      description = "Each request picks low / normal / high at random";
    }
    ∷ record {
      id = mixed_chaos;
      label = "Mixed chaos";
      description = "Random channel + priority per request";
    }
    ∷ record {
      id = retry_storm;
      label = "Retry storm";
      description = "All fail-transient recipients — worker retry pressure";
    }
    ∷ record {
      id = failure_mix;
      label = "Failure mix";
      description = "Random happy / transient / permanent recipients";
    }
    ∷ record {
      id = staggered;
      label = "Staggered burst";
      description = "Sequential submits with configurable delay";
    }
    ∷ record {
      id = all_channels_sweep;
      label = "All-channels sweep";
      description = "Round-robin across selected channels";
    }
    ∷ []

-- The text that a scenario's identifier is.
abbrev pub scenario_text : LoadScenarioId → String
scenario_text burst = "burst"
scenario_text duplicate_seq = "duplicate-seq"
scenario_text duplicate_par = "duplicate-par"
scenario_text random_channel = "random-channel"
scenario_text random_priority = "random-priority"
scenario_text mixed_chaos = "mixed-chaos"
scenario_text retry_storm = "retry-storm"
scenario_text failure_mix = "failure-mix"
scenario_text staggered = "staggered"
scenario_text all_channels_sweep = "all-channels"

-- `===` on the identifiers.
unfoldable pub scenario_eq : LoadScenarioId → LoadScenarioId → Bool
scenario_eq a b = str_eq (scenario_text a) (scenario_text b)

unfoldable pub scenario_count : LoadScenarioId → LoadTestConfig → ℕ
scenario_count duplicate_seq config = config.duplicate_count
scenario_count duplicate_par config = config.duplicate_count
scenario_count _ config = config.burst_count

unfoldable pub default_load_config : LoadTestConfig
default_load_config = record {
  address = "user@example.com";
  burst_count = 20;
  duplicate_count = 25;
  channel_mode = ChannelMode.fixed;
  fixed_channel = email;
  selected_channels = all_channels;
  priority_mode = PriorityMode.fixed;
  fixed_priority = normal;
  concurrency = 10;
  stagger_ms = 50;
}
