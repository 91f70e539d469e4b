-- ===== src/Api/Client/Calls.antt =====
-- What the calls of web/src/api/client.ts guarantee, for every answer of the network.
use gocourier.Common.{
  ◌≢◌, ◌≡◌, refl, Bool, true, false, none, some, [], ◌∷◌, String, is_empty, template,
}
use gocourier.Json.Value.{Json, null, str, obj, Object, get, spread, present, member}
use gocourier.Json.Print.{compact, to_text}
use gocourier.Json.Laws.{assign?-get}
use gocourier.Api.Types.{SendNotificationReq}
use gocourier.Api.Result.{Result, returned, thrown, ◌>>=◌, read}
use gocourier.Api.Client.{
  RequestInit, Fetch, Response, to_fetch, key_header, failure, json_or_empty, error_message,
}
use gocourier.Api.Client.Endpoints.{request_json, request, send_notification}

-- The one call of `fetch` that `sendNotification` makes.
abbrev pub send_call : String → SendNotificationReq → String → Fetch
send_call api_base req api_key = record {
  url = template (api_base ∷ "/v1/notifications" ∷ []);
  method = some "POST";
  headers = ("Content-Type", "application/json") ∷ ("X-API-Key", api_key) ∷ [];
  body = some (compact (request_json req));
}

to_fetch-send :
    (api_base : String) (req : SendNotificationReq) (api_key : String)
    → is_empty api_key ≡ false
    → to_fetch api_base "/v1/notifications" (record {
      method = some "POST";
      api_key = some api_key;
      headers = [];
      body = some (compact (request_json req));
    })
      ≡ send_call api_base req api_key
unfolding to_fetch key_header
to_fetch-send api_base req api_key h = rw h

module _ (api_base : String) where
  -- Without a key nothing is sent: the result is the same error whatever the network would answer.
  -- With a key the result depends on the answer to one call alone, a POST with the key in its header
  -- and the request in its body.
  pub send_notification-calls :
      (f g : Fetch → Result Response) (req : SendNotificationReq) (api_key : String)
      → (is_empty api_key ≡ true
          → send_notification api_base f req api_key ≡ thrown "Missing X-API-Key")
        × (f (send_call api_base req api_key) ≡ g (send_call api_base req api_key)
            → send_notification api_base f req api_key ≡ send_notification api_base g req api_key)
  unfolding send_notification request
  send_notification-calls f g req api_key = (λ h. rw h, λ e. by_key (is_empty api_key) refl e)
    where
      by_key :
          (b : Bool)
          → is_empty api_key ≡ b
          → f (send_call api_base req api_key) ≡ g (send_call api_base req api_key)
          → send_notification api_base f req api_key ≡ send_notification api_base g req api_key
      by_key true h e = rw h
      by_key false h e = rw (h, to_fetch-send api_base req api_key h, e)

-- The message of the error, by what the body of the response is.
abbrev pub message_of : Result Json → String → String
message_of (thrown x) status_text = status_text
message_of (returned null) status_text = "TypeError"
message_of (returned (obj o)) status_text = error_message (present (get "error" o)) status_text
message_of (returned _) status_text = status_text

read_error :
    (j : Result Json) (status_text : String)
    → ◌>>=◌ {B = Json}
        (read "error" (some (json_or_empty j)))
        (λ error. thrown (error_message (present error) status_text))
      ≡ thrown (message_of j status_text)
unfolding read json_or_empty error_message present member get
read_error (thrown x) status_text = refl
read_error (returned null) status_text = refl
read_error (returned _) status_text = refl

abbrev pub is_object : Json → Bool
is_object (obj o) = true
is_object _ = false

member_text :
    (v : Json) (status_text : String)
    → v ≢ null
    → error_message (present (some v)) status_text ≡ to_text v
unfolding error_message present
member_text null status_text given = absurd (given refl)
member_text _ status_text given = refl

other_text :
    (j : Json) (status_text : String)
    → is_object j ≡ false
    → j ≢ null
    → message_of (returned j) status_text ≡ status_text
other_text null status_text other given = absurd (given refl)
other_text (obj o) status_text other given = cc
other_text _ status_text other given = refl

module _ (api_base : String) (fetch : Fetch → Result Response) where
  -- Whatever a response without success holds, `request` throws. Where its body is an object with a member
  -- `error` that is not null, the message is the text of that member, and so the member itself where it is a
  -- text. Where the member is null or there is none, where the body is no object and not null, and where it
  -- is no JSON, the message is the status text. A body that is null ends in a `TypeError`.
  pub request-failure :
      (path : String) (init : RequestInit) (res : Response)
      → fetch (to_fetch api_base path init) ≡ returned res
      → res.ok ≡ false
      → (e : String) × (request api_base fetch path init ≡ thrown e)
        × ((o : Object) (m : String)
            → res.json ≡ returned (obj o)
            → get "error" o ≡ some (str m)
            → e ≡ m)
        × ((o : Object) (v : Json)
            → res.json ≡ returned (obj o)
            → get "error" o ≡ some v
            → v ≢ null
            → e ≡ to_text v)
        × ((o : Object)
            → res.json ≡ returned (obj o)
            → get "error" o ≡ some null
            → e ≡ res.status_text)
        × ((o : Object) → res.json ≡ returned (obj o) → get "error" o ≡ none → e ≡ res.status_text)
        × ((j : Json)
            → res.json ≡ returned j
            → is_object j ≡ false
            → j ≢ null
            → e ≡ res.status_text)
        × ((x : String) → res.json ≡ thrown x → e ≡ res.status_text)
        × (res.json ≡ returned null → e ≡ "TypeError")
  unfolding request failure error_message present to_text
  request-failure path init res called bad =
      let by_body = read_error res.json res.status_text in
      (
        message_of res.json res.status_text,
        rw (called, bad) by_body,
        λ o m body member. rw (body, member),
        λ o v body member given. rw (body, member) (member_text v res.status_text given),
        λ o body member. rw (body, member),
        λ o body missing. rw (body, missing),
        λ j body other given. rw body (other_text j res.status_text other given),
        λ x unread. rw unread,
        λ body. rw body,
      )

  -- With a key, a response with success whose body is an object is what `sendNotification`
  -- returns, as it is.
  pub send_notification-returns :
      (req : SendNotificationReq) (api_key : String) (res : Response) (o : Object)
      → is_empty api_key ≡ false
      → fetch (send_call api_base req api_key) ≡ returned res
      → res.ok ≡ true
      → res.json ≡ returned (obj o)
      → send_notification api_base fetch req api_key ≡ returned o
  unfolding send_notification request read member spread
  send_notification-returns req api_key res o key called good body =
      rw (key, to_fetch-send api_base req api_key key, called, good, body, assign?-get "status" o)
