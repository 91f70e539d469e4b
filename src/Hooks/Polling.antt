-- ===== src/Hooks/Polling.antt =====
-- When the queries of web/src/hooks/useDashboard.ts are repeated.
use gocourier.Common.{◌≡◌, Bool, ◌&&◌, Option, String, is_some, arith}
use gocourier.Store.{AppState}
use gocourier.Hooks.{QueryOptions, has_id, use_health, use_summary, use_delivery_detail}

-- The three queries of the dashboard, for a selected delivery.
abbrev pub polls : QueryOptions → Bool
polls o = o.enabled && is_some o.refetch_interval

-- Each query is repeated just while the refresh is on; that of a delivery only while an id is selected,
-- and without an id it is not made at all.
pub queries-polls :
    (id : Option String) (s : AppState)
    → (polls (use_health s) ≡ s.auto_refresh)
      × (polls (use_summary s) ≡ s.auto_refresh)
      × (polls (use_delivery_detail id s) ≡ (s.auto_refresh && has_id id))
      × ((use_delivery_detail id s).enabled ≡ has_id id)
unfolding use_health use_summary use_delivery_detail
queries-polls id s = ground arith
