-- ===== src/Tests/Requests.antt =====
-- Requests that web/src/lib/loadTest.ts builds.
use gocourier.Common.{none}
use gocourier.Api.Types.{email, normal, SendNotificationReq}
use gocourier.Json.Value.{end}
use gocourier.LoadTest.Config.{mixed_chaos, default_load_config}
use gocourier.LoadTest.Request.{build_scenario_request}
use gocourier.LoadTest.Request.Scenario.{BuiltFor, build_scenario_request-BuiltFor}
use gocourier.Tests.Data.{browser, browser-IsBrowser}

build_scenario_request-BuiltFor_example :
    BuiltFor mixed_chaos default_load_config
      (build_scenario_request mixed_chaos default_load_config 4 none browser)
build_scenario_request-BuiltFor_example =
    build_scenario_request-BuiltFor mixed_chaos default_load_config 4 none browser browser-IsBrowser

abbrev pub storm_request : SendNotificationReq
storm_request = record {
  schema_version = "1.0";
  idempotency_key = "dup-storm-7";
  channel = email;
  priority = normal;
  recipient = record { address = "user@example.com" };
  template = record { id = "welcome"; data_fields = end };
}
