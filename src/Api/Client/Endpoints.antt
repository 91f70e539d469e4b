-- ===== src/Api/Client/Endpoints.antt =====
-- web/src/api/client.ts: `request` and the five calls of the API.
use gocourier.Common.{
  ℕ, Bool, false, Option, none, some, [], ◌∷◌, String, if◌then◌else◌, str_eq, is_empty, template,
  decimal,
}
use gocourier.Json.Value.{Json, str, obj, Object, end, field, spread, object_of, assign?}
use gocourier.Json.Print.{compact}
use gocourier.Api.Types.{SendNotificationReq, channel_text, priority_text}
use gocourier.Api.Result.{Result, returned, thrown, ◌>>=◌, read}
use gocourier.Api.Client.{
  RequestInit, Fetch, Response, get_init, to_fetch, failure, normalize_summary, normalize_detail,
  client_code,
}

-- The request as the value that it is, members in the order in which they were written.
unfoldable pub request_json : SendNotificationReq → Json
request_json req = obj (
    field "schema_version" (str req.schema_version) (
      field "idempotency_key" (str req.idempotency_key) (
        field "channel" (str (channel_text req.channel)) (
          field "priority" (str (priority_text req.priority)) (
            field "recipient" (obj (field "address" (str req.recipient.address) end)) (
              field "template"
                (obj (
                  field "id" (str req.template.id)
                    (field "data" (obj req.template.data_fields) end)))
                end))))))

-- `v === t`, for a text `t`.
unfoldable pub is_text : String → Option Json → Bool
is_text t (some (str s)) = str_eq s t
is_text t _ = false

-- `fetch` answers one call, with a response or with the error of a call that fails.
module _ (api_base : String) (fetch : Fetch → Result Response) where
  unfoldable pub request : String → RequestInit → Result Json
  request path init = do
    res ← fetch (to_fetch api_base path init)
    if res.ok then res.json else failure res

  unfoldable pub get_health : Result Object
  get_health = do
    value ← request "/health" get_init
    status ← read "status" (some value)
    time ← read "time" (some value)
    returned (
        object_of (
          ("status", some (if is_text "ok" status then str "ok" else str "down"))
          ∷ ("time", time)
          ∷ []))

  unfoldable pub send_notification : SendNotificationReq → String → Result Object
  send_notification req api_key = if is_empty api_key then thrown "Missing X-API-Key" else do
    value ← request "/v1/notifications" (record {
      method = some "POST";
      api_key = some api_key;
      headers = [];
      body = some (compact (request_json req));
    })
    status ← read "status" (some value)
    returned (assign? "status" status (spread value))

  unfoldable pub replay_delivery : String → String → Result Object
  replay_delivery id api_key = if is_empty api_key then thrown "Missing X-API-Key" else do
    value ←
        request (template ("/v1/notifications/" ∷ id ∷ "/replay" ∷ []))
          (record { method = some "POST"; api_key = some api_key; headers = []; body = none })
    delivery_id ← read "delivery_id" (some value)
    status ← read "status" (some value)
    returned (object_of (("delivery_id", delivery_id) ∷ ("status", status) ∷ []))

-- `parse` is `JSON.parse`, with `none` where it throws.
module _ (api_base : String) (fetch : Fetch → Result Response) (parse : String → Option Json) where
  unfoldable pub get_summary : ℕ → Result Object
  get_summary limit = do
    value ←
        request api_base fetch (template ("/v1/dashboard/summary?limit=" ∷ decimal limit ∷ []))
          get_init
    normalize_summary parse value

  unfoldable pub get_delivery : String → Result Object
  get_delivery id = do
    value ← request api_base fetch (template ("/v1/dashboard/deliveries/" ∷ id ∷ [])) get_init
    normalize_detail parse value

-- Unfolds the client, for tests.
unfoldable pub endpoint_code : Unit {0}
unfolding client_code request_json is_text request get_health get_summary get_delivery
    send_notification replay_delivery compact decimal
endpoint_code = tt
