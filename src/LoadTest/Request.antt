-- ===== src/LoadTest/Request.antt =====
-- web/src/lib/loadTest.ts: keys, random choices and the requests of each scenario, in the order in
-- which the source takes random numbers.
pub mod Choice
pub mod Scenario
use gocourier.Common.{
  ℕ, ◌*◌, ◌/◌, ◌%◌, ◌^◌, Bool, true, false, Option, none, some, List, [], ◌∷◌, String, ltb, length,
  get_elem?, if◌then◌else◌, ◌or_else◌, template, slice_text, last_text, to_radix,
}
use gocourier.World.{M, World, ◌>>=◌, ◌>>◌, pure, math_random, date_now}
use gocourier.Json.Value.{end}
use gocourier.Api.Types.{Channel, Priority, Recipient, Template, SendNotificationReq}
use gocourier.LoadTest.Config.{
  all_channels, all_priorities, ChannelMode, fixed, random, round_robin, PriorityMode,
  LoadTestConfig, LoadScenarioId, burst, duplicate_seq, duplicate_par, random_channel,
  random_priority, mixed_chaos, retry_storm, failure_mix, staggered, all_channels_sweep,
}

-- `Math.random().toString(36)`
unfoldable pub random_text : M String
random_text = do r ← math_random; λ w. (w.radix36 r, w)

unfoldable pub gen_load_key : String → M String
gen_load_key prefix = do
  r ← random_text
  now ← date_now
  pure (template (prefix ∷ "-" ∷ slice_text 2 8 r ∷ "-" ∷ last_text 4 (to_radix 36 now) ∷ []))

-- `none` is `undefined`, what an empty list gives.
unfoldable pub pick_random {ℓ} : {T : Type ℓ} → List T → World → Option T × World
pick_random items w = let r = math_random w in (get_elem? items (r.0 * length items / 2 ^ 53), r.1)

-- The selected channels, or all of them when none is selected.
unfoldable pub selection : List Channel → List Channel
selection selected = if ltb 0 (length selected) then selected else all_channels

unfoldable pub pool_of : ChannelMode → Channel → List Channel → List Channel
pool_of fixed fixed_channel selected = fixed_channel ∷ []
pool_of _ fixed_channel selected = selection selected

unfoldable pub channel_pool : LoadTestConfig → List Channel
channel_pool config = pool_of config.channel_mode config.fixed_channel config.selected_channels

-- The two nested tests on the mode; the inner one's else branch is the random choice.
unfoldable pub choose_channel : ChannelMode → Channel → List Channel → ℕ → M (Option Channel)
choose_channel round_robin fixed_channel pool index = pure (get_elem? pool (index % length pool))
choose_channel random fixed_channel pool index = pick_random pool
choose_channel fixed fixed_channel pool index = pure (some fixed_channel)

unfoldable pub resolve_channel : LoadTestConfig → ℕ → M (Option Channel)
resolve_channel config index =
    choose_channel config.channel_mode config.fixed_channel (channel_pool config) index

unfoldable pub choose_priority : PriorityMode → Priority → M (Option Priority)
choose_priority random fixed_priority = pick_random all_priorities
choose_priority fixed fixed_priority = pure (some fixed_priority)

unfoldable pub resolve_priority : LoadTestConfig → M (Option Priority)
resolve_priority config = choose_priority config.priority_mode config.fixed_priority

-- `Partial<SendNotificationReq>`, for the members that a scenario overrides. The inner `none` is an
-- `undefined` that a member is overridden with.
pub record Overrides : Type 0 where
  pub idempotency_key : Option String
  pub channel : Option (Option Channel)
  pub priority : Option (Option Priority)
  pub recipient : Option (Option Recipient)

abbrev pub no_overrides : Overrides
no_overrides = record { idempotency_key = none; channel = none; priority = none; recipient = none }

-- The members that `buildRequest` writes itself, and those that it is given.
abbrev pub request : String → Channel → Priority → Recipient → SendNotificationReq
request key channel priority recipient = record {
  schema_version = "1.0";
  idempotency_key = key;
  channel = channel;
  priority = priority;
  recipient = recipient;
  template = record { id = "welcome"; data_fields = end };
}

-- A request whose members are there: `none` where one is `undefined`, against its `!`.
unfoldable pub request_of :
    String → Option Channel → Option Priority → Option Recipient → Option SendNotificationReq
request_of key (some channel) (some priority) (some recipient) =
    some (request key channel priority recipient)
request_of _ _ _ _ = none

unfoldable pub build_request : LoadTestConfig → ℕ → Overrides → M (Option SendNotificationReq)
build_request config index overrides = do
  key ← gen_load_key "load"
  channel ← resolve_channel config index
  priority ← resolve_priority config
  pure (
      request_of (overrides.idempotency_key or_else key) (overrides.channel or_else channel)
        (overrides.priority or_else priority)
        (overrides.recipient or_else some (record { address = config.address })))

abbrev pub failure_mix_addresses : List String
failure_mix_addresses =
    "user@example.com" ∷ "fail-transient@example.com" ∷ "fail-permanent@example.com" ∷ []

-- `o === undefined ? undefined : { address: o }`, of an address picked at random.
abbrev recipient_at : Option String → Option Recipient
recipient_at none = none
recipient_at (some a) = some (record { address = a })

-- `config.channelMode === "fixed" ? config.fixedChannel : resolveChannel(config, index)`
unfoldable pub storm_channel : ChannelMode → LoadTestConfig → ℕ → M (Option Channel)
storm_channel fixed config index = pure (some config.fixed_channel)
storm_channel _ config index = resolve_channel config index

unfoldable pub storm_priority : PriorityMode → LoadTestConfig → M (Option Priority)
storm_priority fixed config = pure (some config.fixed_priority)
storm_priority _ config = resolve_priority config

-- `sharedKey ?? genLoadKey("dup")`
unfoldable pub shared_or_fresh : Option String → M String
shared_or_fresh (some key) = pure key
shared_or_fresh none = gen_load_key "dup"

abbrev pub with_key : String → Overrides
with_key key = record no_overrides { idempotency_key = some key }

abbrev pub with_recipient : Option Recipient → Overrides
with_recipient r = record no_overrides { recipient = some r }

unfoldable pub build_scenario_request :
    LoadScenarioId → LoadTestConfig → ℕ → Option String → M (Option SendNotificationReq)
build_scenario_request retry_storm config index shared_key = do
  channel ← storm_channel config.channel_mode config index
  priority ← storm_priority config.priority_mode config
  build_request config index (record no_overrides {
    channel = some channel;
    priority = some priority;
    recipient = some (some (record { address = "fail-transient@example.com" }));
  })
build_scenario_request failure_mix config index shared_key = do
  address ← pick_random failure_mix_addresses
  build_request config index (with_recipient (recipient_at address))
build_scenario_request random_channel config index shared_key =
    build_request (record config { channel_mode = ChannelMode.random }) index no_overrides
build_scenario_request random_priority config index shared_key =
    build_request (record config { priority_mode = PriorityMode.random }) index no_overrides
build_scenario_request mixed_chaos config index shared_key =
    build_request
      (record config { channel_mode = ChannelMode.random; priority_mode = PriorityMode.random })
      index no_overrides
build_scenario_request all_channels_sweep config index shared_key =
    build_request (record config { channel_mode = round_robin }) index no_overrides
build_scenario_request duplicate_seq config index shared_key = do
  key ← shared_or_fresh shared_key
  build_request config index (with_key key)
build_scenario_request duplicate_par config index shared_key = do
  key ← shared_or_fresh shared_key
  build_request config index (with_key key)
build_scenario_request _ config index shared_key = build_request config index no_overrides

-- Unfolds the whole module, for tests.
unfoldable pub request_code : Unit {0}
unfolding math_random date_now random_text gen_load_key pick_random selection pool_of channel_pool
    choose_channel resolve_channel choose_priority resolve_priority request_of build_request
    storm_channel storm_priority shared_or_fresh build_scenario_request template slice_text
    last_text to_radix
request_code = tt
