-- ===== src/Tests/Data.antt =====
-- The data of the tests: a browser, configurations, and the replies of an API.
use gocourier.Common.{ℕ, zero, suc, ◌%◌, ◌+◌, Option, none, some, String, true, arith}
use gocourier.World.{World, IsBrowser, M}
use gocourier.Api.Types.{
  email, normal, queued, DeliveryRow, SendNotificationReq, SendNotificationResp, DeliveryStatus,
}
use gocourier.LoadTest.Config.{burst, default_load_config}
use gocourier.LoadTest.Request.{build_scenario_request}

abbrev pub browser : World
browser = record {
  random = λ n. n % 7;
  radix36 = λ _. "0.4fzyo82m";
  clock = λ n. 1700000000000 + n;
  drawn = 0;
  ticked = 0;
}

pub browser-IsBrowser : IsBrowser browser
browser-IsBrowser = record { random_lt = λ n. omega arith }

-- The second request is a duplicate, and the third fails.
abbrev pub replies : ℕ → Option SendNotificationResp
replies zero = some (record { delivery_id = "d0"; status = queued; duplicate = none })
replies (suc zero) = some (record { delivery_id = "d0"; status = queued; duplicate = some true })
replies (suc (suc _)) = none

abbrev pub timer : ℕ → ℕ
timer n = n

abbrev pub burst_build : ℕ → M (Option SendNotificationReq)
burst_build i = build_scenario_request burst default_load_config i none

abbrev pub delivery : String → DeliveryStatus → String → DeliveryRow
delivery id status at = record {
  id = id;
  idempotency_key = "k";
  tenant_id = none;
  channel = email;
  priority = normal;
  status = status;
  retry_count = 0;
  last_error = "";
  recipient = none;
  template = none;
  payload = none;
  correlation_id = none;
  causation_id = none;
  created_at = at;
  updated_at = at;
  scheduled_at = none;
}
