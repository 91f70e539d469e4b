-- ===== src/Api/Client.antt =====
-- web/src/api/client.ts. Responses are JSON values, and the casts of the source do nothing to them.
-- `fetch` and `JSON.parse` are the browser's and `API_BASE` is set by the build: they are parameters.
pub mod Endpoints
pub mod Normal
pub mod Calls
pub mod Lists
use mathlib.Core.Option
use gocourier.Common.{
  ℕ, Bool, true, false, not, Option, none, some, List, [], ◌∷◌, ◌++◌, String, if◌then◌else◌,
  ◌or_else◌, str_eq, is_empty, template, decimal,
}
use gocourier.Json.Value.{
  Json, null, num, str, arr, obj, Items, nil, Object, end, get, assign, assign?, object_of, present,
  omit, member, spread, is_truthy, is_object_type, is_array,
}
use gocourier.Json.Print.{compact, to_text}
use gocourier.Api.Types.{SendNotificationReq, channel_text, priority_text, HealthStatus, ok, down}
use gocourier.Api.Result.{
  Result, returned, thrown, type_error, ◌>>=◌, read, map_objects, map_present,
}

-- The `init` of `request`: what its callers give.
pub record RequestInit : Type 0 where
  pub method : Option String
  pub api_key : Option String
  pub headers : List (String × String)
  pub body : Option String

-- What `fetch` is called with.
pub record Fetch : Type 0 where
  pub url : String
  pub method : Option String
  pub headers : List (String × String)
  pub body : Option String

pub record Response : Type 0 where
  pub ok : Bool
  pub status_text : String
  pub json : Result Json

abbrev pub get_init : RequestInit
get_init = record { method = none; api_key = none; headers = []; body = none }

-- `...(apiKey ? { 'X-API-Key': apiKey } : {})`
unfoldable pub key_header : Option String → List (String × String)
key_header none = []
key_header (some key) = if is_empty key then [] else ("X-API-Key", key) ∷ []

unfoldable pub to_fetch : String → String → RequestInit → Fetch
to_fetch api_base path init = record {
  url = template (api_base ∷ path ∷ []);
  method = init.method;
  headers = ("Content-Type", "application/json") ∷ key_header init.api_key ++ init.headers;
  body = init.body;
}

-- `res.json().catch(() => ({}))`
unfoldable pub json_or_empty : Result Json → Json
json_or_empty (returned v) = v
json_or_empty (thrown e) = obj end

unfoldable pub error_message : Option Json → String → String
error_message none status_text = status_text
error_message (some v) status_text = to_text v

-- The message of the error that a response without success is turned into.
unfoldable pub failure : Response → Result Json
failure res = do
  error ← read "error" (some (json_or_empty res.json))
  thrown (error_message (present error) res.status_text)

-- `parsed && typeof parsed === 'object' && !Array.isArray(parsed)`
unfoldable pub as_object : Option Json → Option Object
as_object (some (obj o)) = some o
as_object _ = none

-- `x ?? null`, of an object.
unfoldable pub object_or_null : Option Object → Json
object_or_null none = null
object_or_null (some o) = obj o

unfoldable pub some_or : Option Json → Option Json → Option Json
some_or none b = b
some_or (some a) b = some a

-- `a ?? b`, where `b` may be `undefined`.
unfoldable pub present_or : Option Json → Option Json → Option Json
present_or a b = some_or (present a) b

module _ (parse : String → Option Json) where
  -- `JSON.parse` of a text that is not empty, and `null` where it throws.
  unfoldable pub parse_text : String → Option Object
  parse_text s = if is_empty s then none else as_object (parse s)

  unfoldable pub parse_json_field : Option Json → Option Object
  parse_json_field (some (obj o)) = some o
  parse_json_field (some (str s)) = parse_text s
  parse_json_field _ = none

  unfoldable pub as_delivery_row : Json → Result Object
  as_delivery_row d = do
    last_error ← read "last_error" (some d)
    priority ← read "priority" (some d)
    recipient ← read "recipient" (some d)
    template ← read "template" (some d)
    payload ← read "payload" (some d)
    scheduled_at ← read "scheduled_at" (some d)
    returned (
        assign "scheduled_at" (present scheduled_at or_else null) (
          assign "payload" (object_or_null (parse_json_field payload)) (
            assign "template" (object_or_null (parse_json_field template)) (
              assign "recipient" (object_or_null (parse_json_field recipient)) (
                assign "priority" (present priority or_else str "normal")
                  (assign "last_error" (present last_error or_else str "") (spread d)))))))

  unfoldable pub as_audit : Json → Result Object
  as_audit e = do
    id ← read "id" (some e)
    delivery_id ← read "delivery_id" (some e)
    event_type ← read "event_type" (some e)
    payload ← read "payload" (some e)
    created_at ← read "created_at" (some e)
    returned (
        object_of (
          ("id", id)
          ∷ ("delivery_id", delivery_id)
          ∷ ("event_type", event_type)
          ∷ ("payload", Option.map obj (parse_json_field payload))
          ∷ ("created_at", created_at)
          ∷ []))

unfoldable pub as_attempt : Json → Result Object
as_attempt a = do
  error_message ← read "error_message" (some a)
  finished_at ← read "finished_at" (some a)
  started_at ← read "started_at" (some a)
  provider_response ← read "provider_response" (some a)
  returned (
      assign "provider_response" (present provider_response or_else obj end) (
        assign? "finished_at" (present_or finished_at started_at)
          (assign "error_message" (present error_message or_else str "") (spread a))))

unfoldable pub as_activity : Json → Result Object
as_activity e = do
  payload ← read "payload" (some e)
  id ← read "id" (some e)
  delivery_id ← read "delivery_id" (some e)
  event_type ← read "event_type" (some e)
  created_at ← read "created_at" (some e)
  returned (
      object_of (
        ("id", id)
        ∷ ("delivery_id", delivery_id)
        ∷ ("event_type", event_type)
        ∷ ("payload", some (obj (as_object payload or_else end)))
        ∷ ("created_at", created_at)
        ∷ []))

unfoldable pub as_outbox : Json → Result Object
as_outbox o = do
  published_at ← read "published_at" (some o)
  status ← read "status" (some o)
  returned (
      assign? "status" status
        (assign "published_at" (present published_at or_else null) (spread o)))

module _ (parse : String → Option Json) where
  unfoldable pub normalize_summary : Json → Result Object
  normalize_summary raw = do
    status_counts ← read "status_counts" (some raw)
    outbox_pending ← read "outbox_pending" (some raw)
    scheduled_due ← read "scheduled_due" (some raw)
    activity ← read "recent_activity" (some raw)
    recent_activity ← map_present as_activity (present activity)
    rows ← read "deliveries" (some raw)
    deliveries ← map_present (as_delivery_row parse) (present rows)
    returned (
        object_of (
          ("status_counts", some (present status_counts or_else obj end))
          ∷ ("outbox_pending", some (present outbox_pending or_else num 0))
          ∷ ("scheduled_due", some (present scheduled_due or_else num 0))
          ∷ ("recent_activity", some (arr recent_activity))
          ∷ ("deliveries", some (arr deliveries))
          ∷ []))

  -- `asDeliveryRow(raw.delivery)`, where the member may be missing.
  unfoldable pub delivery_of : Option Json → Result Object
  delivery_of none = type_error
  delivery_of (some d) = as_delivery_row parse d

  unfoldable pub normalize_detail : Json → Result Object
  normalize_detail raw = do
    row ← read "delivery" (some raw)
    delivery ← delivery_of row
    attempt_rows ← read "attempts" (some raw)
    attempts ← map_present as_attempt (present attempt_rows)
    audit_rows ← read "audit" (some raw)
    audit ← map_present (as_audit parse) (present audit_rows)
    outbox_rows ← read "outbox" (some raw)
    outbox ← map_present as_outbox (present outbox_rows)
    returned (
        object_of (
          ("delivery", some (obj delivery))
          ∷ ("attempts", some (arr attempts))
          ∷ ("audit", some (arr audit))
          ∷ ("outbox", some (arr outbox))
          ∷ []))

-- Unfolds the whole module, for tests.
unfoldable pub client_code : Unit {0}
unfolding key_header to_fetch json_or_empty error_message failure as_object object_or_null some_or
    present_or parse_text parse_json_field as_delivery_row as_audit as_attempt as_activity as_outbox
    normalize_summary delivery_of normalize_detail read map_objects map_present present assign
    assign? omit get member spread object_of to_text template
client_code = tt
