-- ===== src/Server/Schema.antt =====
-- internal/domain/notification: channel.go, priority.go and schema.go, the request and its validation.
pub mod Valid
use gocourier.Common.{
  ℕ, Bool, ◌&&◌, Option, none, some, List, [], ◌∷◌, String, if◌then◌else◌, ltb, is_empty, not,
  str_eq,
}
use gocourier.Api.Types.{
  Channel, Priority, DeliveryStatus, email, sms, push, webhook, normal, channel_of_text,
  priority_of_text,
}
use gocourier.Server.Words.{trim_space, to_lower, byte_length}
use gocourier.Server.Failures.{Outcome, ok, err, ◌>>=◌, ◌>>◌, fail_if, errorf}

abbrev known_channel : String → Option Channel → Outcome Channel
known_channel s none = err (errorf ("invalid channel: " ∷ s ∷ []))
known_channel s (some c) = ok c

unfoldable pub parse_channel : String → Outcome Channel
parse_channel s = known_channel s (channel_of_text (to_lower (trim_space s)))

unfoldable pub all_channels : List Channel
all_channels = email ∷ sms ∷ push ∷ webhook ∷ []

abbrev known_priority : String → Option Priority → Outcome Priority
known_priority s none = err (errorf ("invalid priority: " ∷ s ∷ []))
known_priority s (some p) = ok p

-- An empty priority is the normal one.
unfoldable pub parse_priority : String → Outcome Priority
parse_priority s =
    let p = to_lower (trim_space s) in
    if is_empty p then ok normal else known_priority s (priority_of_text p)

pub record RequestMetadata : Type 0 where
  pub correlation_id : String
  pub causation_id : String
  pub tenant_id : String

-- A `json.RawMessage` is its text. A time is a number of nanoseconds.
pub record IngestRequest : Type 0 where
  pub schema_version : String
  pub idempotency_key : String
  pub channel : String
  pub priority : String
  pub recipient : String
  pub template : String
  pub payload : String
  pub metadata : RequestMetadata
  pub scheduled_at : Option ℕ

pub record IngestResponse : Type 0 where
  pub delivery_id : String
  pub status : DeliveryStatus
  pub duplicate : Bool

abbrev pub schema_version_1 : String
schema_version_1 = "1.0"

abbrev pub or_default : String → String → String
or_default s d = if is_empty s then d else s

-- `Validate`, which returns the request as it leaves it.
unfoldable pub validate : IngestRequest → Outcome IngestRequest
validate r = do
  let version = or_default r.schema_version schema_version_1
  fail_if (not (str_eq version schema_version_1))
      (errorf ("unsupported schema_version: " ∷ version ∷ []))
  fail_if (is_empty r.idempotency_key) (errorf ("idempotency_key is required" ∷ []))
  fail_if (ltb 256 (byte_length r.idempotency_key))
      (errorf ("idempotency_key exceeds 256 characters" ∷ []))
  channel ← parse_channel r.channel
  priority ← parse_priority r.priority
  fail_if (is_empty r.recipient) (errorf ("recipient is required" ∷ []))
  fail_if (is_empty r.template && is_empty r.payload)
      (errorf ("template or payload is required" ∷ []))
  let metadata = record r.metadata { tenant_id = or_default r.metadata.tenant_id "default" }
  ok (record r { schema_version = version; metadata = metadata })
