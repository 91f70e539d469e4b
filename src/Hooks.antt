-- ===== src/Hooks.antt =====
-- web/src/hooks/useDashboard.ts: the queries and the mutations of the dashboard. The query client is
-- TanStack Query's: the model gives the options that it is called with and the calls that it gets.
pub mod Polling
use gocourier.Common.{
  ℕ, ◌≡◌, refl, Bool, true, false, Option, none, some, List, [], ◌∷◌, ◌++◌, String, arith,
  if◌then◌else◌, is_empty, not, ◌&&◌,
}
use gocourier.Api.Types.{SendNotificationResp}
use gocourier.Api.Result.{Result, returned, thrown}
use gocourier.Store.{AppState, Zustand, set_selected_delivery_id}

-- The call of the client that a query makes.
pub data QueryFn : Type 0 where
  health : QueryFn
  summary : (limit : ℕ) → QueryFn
  delivery : (id : Option String) → QueryFn

-- `refetch_interval` is in milliseconds, and `none` is `false`; `retry` is `none` where it is left to
-- the default of the query client.
pub record QueryOptions : Type 0 where
  pub query_key : List (Option String)
  pub query_fn : QueryFn
  pub enabled : Bool
  pub refetch_interval : Option ℕ
  pub retry : Option Bool

abbrev pub summary_key : List (Option String)
summary_key = some "summary" ∷ []

abbrev pub delivery_key : Option String → List (Option String)
delivery_key id = some "delivery" ∷ id ∷ []

-- `!!id`
unfoldable pub has_id : Option String → Bool
has_id none = false
has_id (some id) = not (is_empty id)

unfoldable pub use_health : AppState → QueryOptions
use_health s = record {
  query_key = some "health" ∷ [];
  query_fn = health;
  enabled = true;
  refetch_interval = if s.auto_refresh then some 5000 else none;
  retry = some false;
}

unfoldable pub use_summary : AppState → QueryOptions
use_summary s = record {
  query_key = summary_key;
  query_fn = summary 30;
  enabled = true;
  refetch_interval = if s.auto_refresh then some 2000 else none;
  retry = none;
}

unfoldable pub use_delivery_detail : Option String → AppState → QueryOptions
use_delivery_detail id s = record {
  query_key = delivery_key id;
  query_fn = delivery id;
  enabled = has_id id;
  refetch_interval = if s.auto_refresh && has_id id then some 2000 else none;
  retry = none;
}

-- The shared state of the page: the store, and the keys whose queries were invalidated, in order.
pub record Page : Type 0 where
  pub store : AppState
  pub invalidated : List (List (Option String))

abbrev invalidate : List (Option String) → Page → Page
invalidate key p = record p { invalidated = p.invalidated ++ key ∷ [] }

module _ (z : Zustand) where
  -- `onSuccess` of `useSendNotification`, which a mutation that fails does not call.
  unfoldable pub sent : Result SendNotificationResp → Page → Page
  sent (returned res) p =
      let q = invalidate summary_key p in
      record q { store = set_selected_delivery_id z (some res.delivery_id) q.store }
  sent (thrown e) p = p

-- `onSuccess` of `useReplay`.
unfoldable pub replayed : String → Result SendNotificationResp → Page → Page
replayed id (returned res) p = invalidate (delivery_key (some id)) (invalidate summary_key p)
replayed id (thrown e) p = p
