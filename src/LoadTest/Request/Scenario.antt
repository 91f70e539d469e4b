-- ===== src/LoadTest/Request/Scenario.antt =====
-- The requests of each scenario of web/src/lib/loadTest.ts.
use gocourier.Common.{
  ℕ, ◌≡◌, refl, Option, none, some, String, arith, Contains, ◌or_else◌, ap, ◌⊎◌, inl, inr,
}
use gocourier.World.{World, IsBrowser, math_random, date_now}
use gocourier.Api.Types.{Channel, Priority, Recipient, SendNotificationReq}
use gocourier.LoadTest.Config.{
  ChannelMode, fixed, round_robin, PriorityMode, LoadTestConfig, LoadScenarioId, burst,
  duplicate_seq, duplicate_par, random_channel, random_priority, mixed_chaos, retry_storm,
  failure_mix, staggered, all_channels_sweep,
}
use gocourier.LoadTest.Request.{
  request, gen_load_key, random_text, channel_pool, resolve_channel, Overrides, no_overrides,
  request_of, build_request, failure_mix_addresses, storm_channel, storm_priority, shared_or_fresh,
  build_scenario_request,
}
use gocourier.LoadTest.Request.Choice.{
  Chosen, pick_random-Contains, resolve_channel-Contains, AllowedPriority, resolve_priority-Allowed,
  AllowedChannel, channel_pool-Allowed, resolve_channel-Allowed,
}

gen_load_key-IsBrowser :
    (prefix : String) (w : World) → IsBrowser w → IsBrowser (gen_load_key prefix w).1
unfolding gen_load_key random_text math_random date_now
gen_load_key-IsBrowser prefix w b = record { random_lt = b.random_lt }

shared_or_fresh-IsBrowser :
    (key : Option String) (w : World) → IsBrowser w → IsBrowser (shared_or_fresh key w).1
unfolding shared_or_fresh
shared_or_fresh-IsBrowser (some key) w b = b
shared_or_fresh-IsBrowser none w b = gen_load_key-IsBrowser "dup" w b

-- What an override and the value that it may replace must give, for the member to satisfy `P`.
abbrev Settles : {A : Type 0} → Option (Option A) → (A → Type 0) → (A → Type 0) → Type 0
Settles {A} none Q P = (a : A) → Q a → P a
Settles (some none) Q P = ⊥
Settles (some (some a)) Q P = P a

settled :
    {A : Type 0} (o : Option (Option A)) (d : Option A) (v : A) (Q P : A → Type 0)
    → d ≡ some v
    → Q v
    → Settles o Q P
    → (a : A) × ((o or_else d) ≡ some a) × P a
settled none d v Q P e q s = (v, e, s v q)
settled (some none) d v Q P e q s = absurd s
settled (some (some a)) d v Q P e q s = (a, refl, s)

-- A request that was built, member by member.
pub record Built (out : Option SendNotificationReq × World) (C : Channel → Type 0)
    (P : Priority → Type 0) (R : Recipient → Type 0) : Type 0 where
  pub req : SendNotificationReq
  pub is_built : out.0 ≡ some req
  pub channel : C req.channel
  pub priority : P req.priority
  pub recipient : R req.recipient
  pub schema_version : req.schema_version ≡ "1.0"
  pub template_id : req.template.id ≡ "welcome"
  pub browser : IsBrowser out.1

build_request-Built :
    (config : LoadTestConfig) (index : ℕ) (o : Overrides) (w : World) (C : Channel → Type 0)
    (P : Priority → Type 0) (R : Recipient → Type 0)
    → IsBrowser w
    → Settles o.channel (Contains (channel_pool config)) C
    → Settles o.priority (AllowedPriority config.priority_mode config.fixed_priority) P
    → Settles o.recipient (λ r. r ≡ record { address = config.address }) R
    → Built (build_request config index o w) C P R
unfolding build_request request_of
build_request-Built config index o w C P R b hc hp hr =
    let w₁ = (gen_load_key "load" w).1 in
    let c = resolve_channel-Contains config index w₁ (gen_load_key-IsBrowser "load" w b) in
    let w₂ = (resolve_channel config index w₁).1 in
    let p = resolve_priority-Allowed config w₂ c.browser in
    let cs = settled o.channel _ c.value _ C c.is_value c.holds hc in
    let ps = settled o.priority _ p.value _ P p.is_value p.holds hp in
    let rs = settled o.recipient (some (record { address = config.address })) _ _ R refl refl hr in
    record {
      req = request (o.idempotency_key or_else (gen_load_key "load" w).0) cs.0 ps.0 rs.0;
      is_built = rw (cs.1, ps.1, rs.1) refl;
      channel = cs.2;
      priority = ps.2;
      recipient = rs.2;
      schema_version = refl;
      template_id = refl;
      browser = p.browser;
    }

-- How a scenario picks the channel and the priority: its own way, or that of the configuration.
abbrev pub channel_mode_of : LoadScenarioId → LoadTestConfig → ChannelMode
channel_mode_of random_channel config = ChannelMode.random
channel_mode_of mixed_chaos config = ChannelMode.random
channel_mode_of all_channels_sweep config = round_robin
channel_mode_of _ config = config.channel_mode

abbrev pub priority_mode_of : LoadScenarioId → LoadTestConfig → PriorityMode
priority_mode_of random_priority config = PriorityMode.random
priority_mode_of mixed_chaos config = PriorityMode.random
priority_mode_of _ config = config.priority_mode

-- Which recipients a scenario sends to.
abbrev pub AllowedRecipient : LoadScenarioId → LoadTestConfig → Recipient → Type 0
AllowedRecipient retry_storm config r = r.address ≡ "fail-transient@example.com"
AllowedRecipient failure_mix config r = Contains failure_mix_addresses r.address
AllowedRecipient _ config r = r.address ≡ config.address

-- A scenario's request, as its description says.
abbrev pub BuiltFor : LoadScenarioId → LoadTestConfig → Option SendNotificationReq × World → Type 0
BuiltFor scenario config out =
    Built out
      (AllowedChannel (channel_mode_of scenario config) config.fixed_channel
        config.selected_channels)
      (AllowedPriority (priority_mode_of scenario config) config.fixed_priority)
      (AllowedRecipient scenario config)

storm_channel-Allowed :
    (mode : ChannelMode) (config : LoadTestConfig) (index : ℕ) (w : World)
    → config.channel_mode ≡ mode
    → IsBrowser w
    → Chosen
        (storm_channel mode config index w)
        (AllowedChannel config.channel_mode config.fixed_channel config.selected_channels)
unfolding storm_channel
storm_channel-Allowed fixed config index w e b = record {
  value = config.fixed_channel;
  is_value = refl;
  holds = rw e refl;
  browser = b;
}
storm_channel-Allowed _ config index w e b = resolve_channel-Allowed config index w b

storm_priority-Allowed :
    (mode : PriorityMode) (config : LoadTestConfig) (w : World)
    → config.priority_mode ≡ mode
    → IsBrowser w
    → Chosen
        (storm_priority mode config w)
        (AllowedPriority config.priority_mode config.fixed_priority)
unfolding storm_priority
storm_priority-Allowed fixed config w e b = record {
  value = config.fixed_priority;
  is_value = refl;
  holds = rw e refl;
  browser = b;
}
storm_priority-Allowed _ config w e b = resolve_priority-Allowed config w b

-- A request without overrides, or with an override of the key alone.
plain-Built :
    (config : LoadTestConfig) (index : ℕ) (key : Option String) (w : World)
    → IsBrowser w
    → Built
        (build_request config index (record no_overrides { idempotency_key = key }) w)
        (AllowedChannel config.channel_mode config.fixed_channel config.selected_channels)
        (AllowedPriority config.priority_mode config.fixed_priority)
        (λ r. r.address ≡ config.address)
plain-Built config index key w b =
    build_request-Built config index (record no_overrides { idempotency_key = key }) w _ _ _ b
      (channel_pool-Allowed config) (λ p h. h) (λ r h. ap (λ (r : Recipient). r.address) h)

storm-Built :
    (config : LoadTestConfig) (index : ℕ) (key : Option String) (w : World)
    → IsBrowser w
    → BuiltFor retry_storm config (build_scenario_request retry_storm config index key w)
unfolding build_scenario_request
storm-Built config index key w b =
    let c = storm_channel-Allowed config.channel_mode config index w refl b in
    let w₁ = (storm_channel config.channel_mode config index w).1 in
    let p = storm_priority-Allowed config.priority_mode config w₁ refl c.browser in
    build_request-Built config index _ _ _ _ _ p.browser (rw c.is_value c.holds)
      (rw p.is_value p.holds) refl

mix-Built :
    (config : LoadTestConfig) (index : ℕ) (key : Option String) (w : World)
    → IsBrowser w
    → BuiltFor failure_mix config (build_scenario_request failure_mix config index key w)
unfolding build_scenario_request
mix-Built config index key w b =
    let a = pick_random-Contains failure_mix_addresses w b (omega arith) in
    build_request-Built config index _ _ _ _ _ a.browser (channel_pool-Allowed config) (λ p h. h)
      (rw a.is_value a.holds)

-- In a browser every scenario builds a request, whatever the configuration, the index and the key:
-- its schema version is 1.0 and its template the welcome text, its channel and priority are what
-- the scenario and the configuration allow, and it goes to a recipient of the scenario.
pub build_scenario_request-BuiltFor :
    (scenario : LoadScenarioId) (config : LoadTestConfig) (index : ℕ) (key : Option String)
    (w : World)
    → IsBrowser w
    → BuiltFor scenario config (build_scenario_request scenario config index key w)
unfolding build_scenario_request
build_scenario_request-BuiltFor retry_storm config index key w b = storm-Built config index key w b
build_scenario_request-BuiltFor failure_mix config index key w b = mix-Built config index key w b
build_scenario_request-BuiltFor random_channel config index key w b =
    plain-Built (record config { channel_mode = ChannelMode.random }) index none w b
build_scenario_request-BuiltFor random_priority config index key w b =
    plain-Built (record config { priority_mode = PriorityMode.random }) index none w b
build_scenario_request-BuiltFor mixed_chaos config index key w b =
    plain-Built
      (record config { channel_mode = ChannelMode.random; priority_mode = PriorityMode.random })
      index none w b
build_scenario_request-BuiltFor all_channels_sweep config index key w b =
    plain-Built (record config { channel_mode = round_robin }) index none w b
build_scenario_request-BuiltFor duplicate_seq config index key w b =
    plain-Built config index (some (shared_or_fresh key w).0) _ (shared_or_fresh-IsBrowser key w b)
build_scenario_request-BuiltFor duplicate_par config index key w b =
    plain-Built config index (some (shared_or_fresh key w).0) _ (shared_or_fresh-IsBrowser key w b)
build_scenario_request-BuiltFor burst config index key w b = plain-Built config index none w b
build_scenario_request-BuiltFor staggered config index key w b = plain-Built config index none w b

request_of-key :
    (key : String) (c : Option Channel) (p : Option Priority) (r : Option Recipient)
    (req : SendNotificationReq)
    → request_of key c p r ≡ some req
    → req.idempotency_key ≡ key
unfolding request_of
request_of-key key c p r req h = ground arith

-- Every request that a duplicate scenario builds with a shared key carries that key.
pub build_scenario_request-shared_key :
    (scenario : LoadScenarioId) (config : LoadTestConfig) (index : ℕ) (key : String) (w : World)
    (req : SendNotificationReq)
    → (scenario ≡ duplicate_seq) ⊎ (scenario ≡ duplicate_par)
    → (build_scenario_request scenario config index (some key) w).0 ≡ some req
    → req.idempotency_key ≡ key
unfolding build_scenario_request build_request shared_or_fresh
build_scenario_request-shared_key scenario config index key w req (inl e) h =
    request_of-key key _ _ _ req (rw e at h)
build_scenario_request-shared_key scenario config index key w req (inr e) h =
    request_of-key key _ _ _ req (rw e at h)
