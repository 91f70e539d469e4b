-- ===== src/Server/Mock.antt =====
-- internal/adapters/providers/mock/provider.go: the provider that every channel has.
use gocourier.Common.{String, if◌then◌else◌, includes, template, [], ◌∷◌}
use gocourier.Api.Types.{channel_text}
use gocourier.Server.Failures.{Outcome, ok, err, err_permanent, err_transient, extended}
use gocourier.Server.Delivery.{Delivery, ProviderResult}

-- `Send`; the message's id is the argument, and the response is the object that `json.Marshal` prints, its
-- keys in order.
unfoldable pub send : String → Delivery → Outcome ProviderResult
send message_id d =
    if includes d.recipient "fail-permanent"
    then err (extended err_permanent "invalid recipient")
    else if includes d.recipient "fail-transient"
    then err (extended err_transient "provider unavailable")
    else if includes d.recipient "fail-circuit"
    then err (extended err_transient "circuit test failure")
    else ok (record {
      provider_message_id = message_id;
      response =
          template ("{\"channel\":\"" ∷ channel_text d.channel ∷ "\",\"mock\":\"true\"}" ∷ []);
    })
