-- ===== src/Tests/Services.antt =====
-- The data of the tests of the server: a world, tables, deliveries and a request.
use gocourier.Common.{◌+◌, none, List, [], ◌∷◌, String, true, decimal}
use gocourier.Api.Types.{email, normal, DeliveryStatus, OutboxStatus}
use gocourier.Server.Schema.{IngestRequest}
use gocourier.Server.Delivery.{Delivery}
use gocourier.Server.Ports.{OutboxMessage}
use gocourier.Server.Postgres.{Database, OutboxRow}
use gocourier.Server.Run.{Env, System, healthy}
use gocourier.Server.Breaker
use gocourier.Server.Mock
use gocourier.Server.Workers.{Settings}

abbrev pub env : Env
env = record {
  clock = λ n. 1000 + n;
  uuid = λ n. decimal n;
  fault = λ _. healthy;
  provider = λ n d. Mock.send (decimal n) d;
}

abbrev pub settings : Settings
settings = record {
  dispatch_config = record {
    max_attempts = 3;
    stream_prefix = "notifications";
    has_provider = λ _. true;
  };
  ingest_config = record { stream_prefix = "notifications"; idempotency_ttl = 86400 };
  batch = 10;
}

abbrev pub delivery : String → DeliveryStatus → String → Delivery
delivery id status recipient = record {
  id = id;
  idempotency_key = "order-1";
  tenant_id = "default";
  channel = email;
  priority = normal;
  recipient = recipient;
  template = "{}";
  payload = "";
  status = status;
  attempts = [];
  scheduled_at = none;
  correlation_id = "";
  causation_id = "";
  created_at = 1;
  updated_at = 1;
  retry_count = 1;
  last_error = "";
}

abbrev pub tables : List Delivery → Database
tables ds = record {
  deliveries = ds;
  idempotency_keys = [];
  delivery_attempts = [];
  outbox = [];
  scheduled = [];
  audit_events = [];
}

abbrev pub system : Database → System
system db = record {
  db = db;
  published = [];
  sent = [];
  breakers = λ _. Breaker.new 5 60 30;
  moment = 0;
}

-- A request that leaves the version, the priority and the tenant to be filled in.
abbrev pub request : IngestRequest
request = record {
  schema_version = "";
  idempotency_key = "order-2";
  channel = " Email";
  priority = "";
  recipient = "{\"address\":\"a@example.com\"}";
  template = "{\"id\":\"welcome\"}";
  payload = "";
  metadata = record { correlation_id = "c"; causation_id = ""; tenant_id = "" };
  scheduled_at = none;
}

-- The request as it is filled in.
abbrev pub filled : IngestRequest
filled = record request {
  schema_version = "1.0";
  metadata = record { correlation_id = "c"; causation_id = ""; tenant_id = "default" };
}

abbrev pub message : OutboxMessage
message = record {
  id = 7;
  delivery_id = "d1";
  subject = "notifications.email.normal";
  payload = ("delivery_id", "d1") ∷ [];
  headers = [];
  attempts = 0;
}

abbrev pub outbox_row : OutboxRow
outbox_row = record {
  message = message;
  status = OutboxStatus.pending;
  last_error = "";
  published_at = none;
}
