-- ===== src/LoadTest/Request/Choice.antt =====
-- The random and the cyclic choices of web/src/lib/loadTest.ts.
use Prim.Native.Nat.{suc}
use native.Mathlib.Nat.{mod-lt, mod-eq_of_lt}
use gocourier.Common.{
  ℕ, zero, ◌⊎◌, inl, inr, ltb, true, ◌*◌, ◌/◌, ◌%◌, ◌^◌, ◌<◌, ◌≡◌, refl, Option, some, List, [],
  ◌∷◌, arith, length, get_elem?, get_elem?-of_lt, lt_of_get_elem?, Contains,
}
use gocourier.World.{World, IsBrowser, math_random}
use gocourier.Api.Types.{Channel, Priority}
use gocourier.LoadTest.Config.{
  all_priorities, LoadTestConfig, ChannelMode, fixed, random, round_robin, PriorityMode,
}
use gocourier.LoadTest.Request.{
  pick_random, selection, pool_of, channel_pool, choose_channel, resolve_channel, choose_priority,
  resolve_priority,
}

-- A choice that was made: a value with a property, in a world that is still a browser's.
pub record Chosen {ℓ κ} {A : Type ℓ} (out : Option A × World) (P : A → Type κ) : Type (ℓ ⊔ κ) where
  pub value : A
  pub is_value : out.0 ≡ some value
  pub holds : P value
  pub browser : IsBrowser out.1

pub Chosen-mono :
    {A : Type 0} {out : Option A × World} {P Q : A → Type 0}
    → Chosen out P
    → ((a : A) → P a → Q a)
    → Chosen out Q
Chosen-mono c f = record {
  value = c.value;
  is_value = c.is_value;
  holds = f c.value c.holds;
  browser = c.browser;
}

scale-lt : (r n : ℕ) → r < 2 ^ 53 → 0 < n → r * n / 2 ^ 53 < n
scale-lt r n h k = grind arith

-- A random choice from a list that is not empty is one of its elements.
pub pick_random-Contains {ℓ} :
    {A : Type ℓ} (items : List A) (w : World)
    → IsBrowser w
    → 0 < length items
    → Chosen (pick_random items w) (Contains items)
unfolding pick_random math_random
pick_random-Contains items w b h =
    let at = w.random w.drawn * length items / 2 ^ 53 in
    let (a, e) = get_elem?-of_lt items at (scale-lt _ _ (b.random_lt w.drawn) h) in
    record {
      value = a;
      is_value = e;
      holds = (at, e);
      browser = record { random_lt = b.random_lt };
    }

selection-pos : (selected : List Channel) → 0 < length (selection selected)
unfolding selection
selection-pos selected = ground arith

pool_of-pos :
    (mode : ChannelMode) (c : Channel) (selected : List Channel)
    → 0 < length (pool_of mode c selected)
unfolding pool_of
pool_of-pos fixed c selected = omega arith
pool_of-pos _ c selected = selection-pos selected

-- The pool of channels is never empty.
channel_pool-pos : (config : LoadTestConfig) → 0 < length (channel_pool config)
unfolding channel_pool
channel_pool-pos config =
    pool_of-pos config.channel_mode config.fixed_channel config.selected_channels

get_elem?-mod :
    {A : Type 0} (xs : List A) (i : ℕ)
    → 0 < length xs
    → (a : A) × (get_elem? xs (i % length xs) ≡ some a)
get_elem?-mod xs i h = get_elem?-of_lt xs (i % length xs) (mod-lt i h)

choose_channel-Contains :
    (mode : ChannelMode) (fixed_channel : Channel) (pool : List Channel) (index : ℕ) (w : World)
    → IsBrowser w
    → 0 < length pool
    → (mode ≡ fixed → Contains pool fixed_channel)
    → Chosen (choose_channel mode fixed_channel pool index w) (Contains pool)
unfolding choose_channel
choose_channel-Contains fixed c pool index w b h only = record {
  value = c;
  is_value = refl;
  holds = only refl;
  browser = b;
}
choose_channel-Contains random c pool index w b h only = pick_random-Contains pool w b h
choose_channel-Contains round_robin c pool index w b h only =
    let (a, e) = get_elem?-mod pool index h in
    record { value = a; is_value = e; holds = (index % length pool, e); browser = b }

channel_pool-fixed :
    (config : LoadTestConfig)
    → config.channel_mode ≡ fixed
    → Contains (channel_pool config) config.fixed_channel
unfolding channel_pool pool_of
channel_pool-fixed config e = (0, ground arith)

-- Whatever the mode, the channel of a request is there and is in the pool.
pub resolve_channel-Contains :
    (config : LoadTestConfig) (index : ℕ) (w : World)
    → IsBrowser w
    → Chosen (resolve_channel config index w) (Contains (channel_pool config))
unfolding resolve_channel
resolve_channel-Contains config index w b =
    choose_channel-Contains config.channel_mode config.fixed_channel (channel_pool config) index w b
      (channel_pool-pos config) (channel_pool-fixed config)

-- What a mode of priorities allows.
abbrev pub AllowedPriority : PriorityMode → Priority → Priority → Type 0
AllowedPriority random fixed_priority p = Contains all_priorities p
AllowedPriority fixed fixed_priority p = p ≡ fixed_priority

choose_priority-Allowed :
    (mode : PriorityMode) (p : Priority) (w : World)
    → IsBrowser w
    → Chosen (choose_priority mode p w) (AllowedPriority mode p)
unfolding choose_priority
choose_priority-Allowed random p w b = pick_random-Contains all_priorities w b (omega arith)
choose_priority-Allowed fixed p w b = record {
  value = p;
  is_value = refl;
  holds = refl;
  browser = b;
}

pub resolve_priority-Allowed :
    (config : LoadTestConfig) (w : World)
    → IsBrowser w
    → Chosen
        (resolve_priority config w)
        (AllowedPriority config.priority_mode config.fixed_priority)
unfolding resolve_priority
resolve_priority-Allowed config w b =
    choose_priority-Allowed config.priority_mode config.fixed_priority w b

-- What a mode of channels allows: the fixed channel, or a selected one, where any will do if none is selected.
abbrev pub AllowedChannel : ChannelMode → Channel → List Channel → Channel → Type 0
AllowedChannel fixed fixed_channel selected c = c ≡ fixed_channel
AllowedChannel _ fixed_channel selected c = Contains selected c ⊎ (selected ≡ [])

selection-Contains :
    (selected : List Channel) (c : Channel)
    → Contains (selection selected) c
    → Contains selected c ⊎ (selected ≡ [])
unfolding selection
selection-Contains [] c h = inr refl
selection-Contains (x ∷ xs) c h =
    let some_selected : ltb 0 (suc (length xs)) ≡ true = ground arith in inl (rw some_selected at h)

Contains-singleton : {A : Type 0} (x a : A) → Contains (x ∷ []) a → a ≡ x
Contains-singleton x a (zero, h) = cc
Contains-singleton x a (suc i, h) = cc

pool_of-Allowed :
    (mode : ChannelMode) (f : Channel) (selected : List Channel) (c : Channel)
    → Contains (pool_of mode f selected) c
    → AllowedChannel mode f selected c
unfolding pool_of
pool_of-Allowed fixed f selected c h = Contains-singleton f c h
pool_of-Allowed random f selected c h = selection-Contains selected c h
pool_of-Allowed round_robin f selected c h = selection-Contains selected c h

pub channel_pool-Allowed :
    (config : LoadTestConfig) (c : Channel)
    → Contains (channel_pool config) c
    → AllowedChannel config.channel_mode config.fixed_channel config.selected_channels c
unfolding channel_pool
channel_pool-Allowed config c h =
    pool_of-Allowed config.channel_mode config.fixed_channel config.selected_channels c h

-- In the round-robin mode each selected channel, or each channel if none is selected, is that of
-- some index below their number.
pub resolve_channel-covers :
    (config : LoadTestConfig) (c : Channel) (w : World)
    → config.channel_mode ≡ round_robin
    → Contains (selection config.selected_channels) c
    → (i : ℕ) × (i < length (selection config.selected_channels))
      × ((resolve_channel config i w).0 ≡ some c)
unfolding resolve_channel choose_channel channel_pool pool_of
resolve_channel-covers config c w e (i, h) =
    let lt = lt_of_get_elem? (selection config.selected_channels) i c h in
    (i, lt, rw (e, mod-eq_of_lt lt) h)

-- The same, as what the mode allows.
pub resolve_channel-Allowed :
    (config : LoadTestConfig) (index : ℕ) (w : World)
    → IsBrowser w
    → Chosen
        (resolve_channel config index w)
        (AllowedChannel config.channel_mode config.fixed_channel config.selected_channels)
resolve_channel-Allowed config index w b =
    Chosen-mono (resolve_channel-Contains config index w b) (channel_pool-Allowed config)
