-- ===== src/Tests/Client.antt =====
-- Answers of the network to web/src/api/client.ts.
use gocourier.Common.{
  ◌≡◌, ◌≢◌, false, refl, true, false, some, none, Option, String, is_empty, str_eq, if◌then◌else◌,
}
use gocourier.Json.Value.{num, arr, Items, nil, cons, Json, null, str, obj, Object, end, field, get}
use gocourier.Json.Print.{to_text}
use gocourier.Api.Result.{Result, returned, thrown}
use gocourier.Api.Client.Lists.{AllItems, IsEventItem, IsRowItem, normalize_summary_lists}
use gocourier.Api.Client.{
  normalize_summary, Fetch, Response, get_init, as_delivery_row, client_code,
}
use gocourier.Api.Client.Endpoints.{request, send_notification}
use gocourier.Api.Client.Normal.{as_delivery_row-idempotent}
use gocourier.Api.Client.Calls.{is_object, send_call, send_notification-calls, request-failure}
use gocourier.Tests.Requests.{storm_request}

-- No text is JSON.
abbrev no_json : String → Option Json
no_json s = none

abbrev sent_row : Json
sent_row = obj (field "id" (str "d1") (field "payload" (str "{") (field "template" null end)))

abbrev row : Object
row = field "id" (str "d1") (
    field "payload" null (
      field "template" null (
        field "last_error" (str "") (
          field "priority" (str "normal")
            (field "recipient" null (field "scheduled_at" null end))))))

row_is : as_delivery_row no_json sent_row ≡ returned row
unfolding client_code
row_is = refl

as_delivery_row-idempotent_example : as_delivery_row no_json (obj row) ≡ returned row
as_delivery_row-idempotent_example = as_delivery_row-idempotent no_json sent_row row row_is

abbrev refusal : Response
refusal = record {
  ok = false;
  status_text = "Unprocessable Entity";
  json = returned (obj (field "error" (str "unknown channel") end));
}

abbrev acceptance : Object
acceptance = field "delivery_id" (str "d1") (field "status" (str "queued") end)

abbrev accepted : Response
accepted = record { ok = true; status_text = "Accepted"; json = returned (obj acceptance) }

abbrev refusing : Fetch → Result Response
refusing call = returned refusal

abbrev accepting : Fetch → Result Response
accepting call = returned accepted

request-failure_example :
    (e : String) × (request "http://api" refusing "/health" get_init ≡ thrown e)
    × ((o : Object) (m : String)
        → refusal.json ≡ returned (obj o)
        → get "error" o ≡ some (str m)
        → e ≡ m)
    × ((o : Object) (v : Json)
        → refusal.json ≡ returned (obj o)
        → get "error" o ≡ some v
        → v ≢ null
        → e ≡ to_text v)
    × ((o : Object)
        → refusal.json ≡ returned (obj o)
        → get "error" o ≡ some null
        → e ≡ refusal.status_text)
    × ((o : Object)
        → refusal.json ≡ returned (obj o)
        → get "error" o ≡ none
        → e ≡ refusal.status_text)
    × ((j : Json)
        → refusal.json ≡ returned j
        → is_object j ≡ false
        → j ≢ null
        → e ≡ refusal.status_text)
    × ((x : String) → refusal.json ≡ thrown x → e ≡ refusal.status_text)
    × (refusal.json ≡ returned null → e ≡ "TypeError")
request-failure_example = request-failure "http://api" refusing "/health" get_init refusal refl refl

-- A network that answers the one call alone.
abbrev only_posts : Fetch → Result Response
only_posts call =
    if str_eq call.url "http://api/v1/notifications" then returned accepted else thrown "down"

send_notification-calls_example :
    (is_empty "key" ≡ true
      → send_notification "http://api" accepting storm_request "key" ≡ thrown "Missing X-API-Key")
    × (accepting (send_call "http://api" storm_request "key")
          ≡ only_posts (send_call "http://api" storm_request "key")
        → send_notification "http://api" accepting storm_request "key"
          ≡ send_notification "http://api" only_posts storm_request "key")
send_notification-calls_example =
    send_notification-calls "http://api" accepting only_posts storm_request "key"

abbrev sent_summary : Json
sent_summary = obj (
    field "deliveries" (arr (cons sent_row nil))
      (field "recent_activity" (arr (cons (obj (field "payload" null end)) nil)) end))

abbrev summary : Object
summary = field "status_counts" (obj end) (
    field "outbox_pending" (num 0) (
      field "scheduled_due" (num 0) (
        field "recent_activity" (arr (cons (obj (field "payload" (obj end) end)) nil))
          (field "deliveries" (arr (cons (obj row) nil)) end))))

summary_is : normalize_summary no_json sent_summary ≡ returned summary
unfolding client_code
summary_is = refl

normalize_summary_lists_example :
    (events : Items) × (rows : Items) × (get "recent_activity" summary ≡ some (arr events))
    × (get "deliveries" summary ≡ some (arr rows))
    × AllItems IsEventItem events
    × AllItems IsRowItem rows
normalize_summary_lists_example = normalize_summary_lists no_json sent_summary summary summary_is
