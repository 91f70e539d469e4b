-- ===== src/Api/Types.antt =====
-- web/src/api/types.ts: the string unions as enumerations, the interfaces as records.
-- An optional field, or one that may be null, is an `Option`.
use gocourier.Common.{
  ℕ, ◌≡◌, refl, ◌↔◌, Bool, true, Option, none, some, List, String, if◌then◌else◌, str_eq, eq_iff,
  ap,
}
use gocourier.Json.Value.{Object}

pub data Channel : Type 0 where
  email sms push webhook : Channel

pub data Priority : Type 0 where
  low normal high : Priority

pub data DeliveryStatus : Type 0 where
  pending queued processing retrying succeeded failed dlq cancelled rejected : DeliveryStatus

-- The texts that the literals are.
abbrev pub channel_text : Channel → String
channel_text email = "email"
channel_text sms = "sms"
channel_text push = "push"
channel_text webhook = "webhook"

abbrev pub priority_text : Priority → String
priority_text low = "low"
priority_text normal = "normal"
priority_text high = "high"

abbrev pub status_text : DeliveryStatus → String
status_text pending = "pending"
status_text queued = "queued"
status_text processing = "processing"
status_text retrying = "retrying"
status_text succeeded = "succeeded"
status_text failed = "failed"
status_text dlq = "dlq"
status_text cancelled = "cancelled"
status_text rejected = "rejected"

-- `===` on the literals.
unfoldable pub channel_eq : Channel → Channel → Bool
channel_eq a b = str_eq (channel_text a) (channel_text b)

unfoldable pub status_eq : DeliveryStatus → DeliveryStatus → Bool
status_eq a b = str_eq (status_text a) (status_text b)

pub record DeliveryRow : Type 0 where
  pub id : String
  pub idempotency_key : String
  pub tenant_id : Option String
  pub channel : Channel
  pub priority : Priority
  pub status : DeliveryStatus
  pub retry_count : ℕ
  pub last_error : String
  pub recipient : Option Object
  pub template : Option Object
  pub payload : Option Object
  pub correlation_id : Option String
  pub causation_id : Option String
  pub created_at : String
  pub updated_at : String
  pub scheduled_at : Option String

pub record ActivityEvent : Type 0 where
  pub id : ℕ
  pub delivery_id : String
  pub event_type : String
  pub payload : Object
  pub created_at : String

pub record DashboardSummary : Type 0 where
  pub status_counts : DeliveryStatus → Option ℕ
  pub outbox_pending : ℕ
  pub scheduled_due : ℕ
  pub recent_activity : List ActivityEvent
  pub deliveries : List DeliveryRow

pub record AttemptRow : Type 0 where
  pub id : String
  pub attempt_number : ℕ
  pub success : Bool
  pub error_message : String
  pub started_at : String
  pub finished_at : String
  pub provider_response : Object

pub record AuditRow : Type 0 where
  pub id : ℕ
  pub delivery_id : String
  pub event_type : String
  pub payload : Option Object
  pub created_at : String

pub data OutboxStatus : Type 0 where
  pending published failed : OutboxStatus

pub record OutboxRow : Type 0 where
  pub id : ℕ
  pub status : OutboxStatus
  pub subject : String
  pub attempts : ℕ
  pub created_at : String
  pub published_at : Option String

pub record DeliveryDetailResp : Type 0 where
  pub delivery : DeliveryRow
  pub attempts : List AttemptRow
  pub audit : List AuditRow
  pub outbox : List OutboxRow

pub data HealthStatus : Type 0 where
  ok down : HealthStatus

pub record HealthResp : Type 0 where
  pub status : HealthStatus
  pub time : String

pub record Recipient : Type 0 where
  pub address : String

pub record Template : Type 0 where
  pub id : String
  pub data_fields : Object

pub record SendNotificationReq : Type 0 where
  pub schema_version : String
  pub idempotency_key : String
  pub channel : Channel
  pub priority : Priority
  pub recipient : Recipient
  pub template : Template

pub record SendNotificationResp : Type 0 where
  pub delivery_id : String
  pub status : DeliveryStatus
  pub duplicate : Option Bool

unfoldable pub outbox_status_text : OutboxStatus → String
outbox_status_text pending = "pending"
outbox_status_text published = "published"
outbox_status_text failed = "failed"

-- The literal that a text is.
unfoldable pub channel_of_text : String → Option Channel
channel_of_text s =
    if str_eq s "email"
    then some email
    else if str_eq s "sms"
    then some sms
    else if str_eq s "push"
    then some push
    else if str_eq s "webhook"
    then some webhook
    else none

unfoldable pub priority_of_text : String → Option Priority
priority_of_text s =
    if str_eq s "low"
    then some low
    else if str_eq s "normal"
    then some normal
    else if str_eq s "high"
    then some high
    else none

unfoldable pub status_of_text : String → Option DeliveryStatus
status_of_text s =
    if str_eq s "pending"
    then some pending
    else if str_eq s "queued"
    then some queued
    else if str_eq s "processing"
    then some processing
    else if str_eq s "retrying"
    then some retrying
    else if str_eq s "succeeded"
    then some succeeded
    else if str_eq s "failed"
    then some failed
    else if str_eq s "dlq"
    then some dlq
    else if str_eq s "cancelled"
    then some cancelled
    else if str_eq s "rejected"
    then some rejected
    else none

channel_of_text-channel_text : (c : Channel) → channel_of_text (channel_text c) ≡ some c
unfolding channel_of_text
channel_of_text-channel_text email = refl
channel_of_text-channel_text _ = refl

status_of_text-status_text : (s : DeliveryStatus) → status_of_text (status_text s) ≡ some s
unfolding status_of_text
status_of_text-status_text pending = refl
status_of_text-status_text _ = refl

-- Two literals are the same text only if they are the same literal.
pub channel_eq_iff : (a b : Channel) → (channel_eq a b ≡ true) ↔ (a ≡ b)
unfolding channel_eq
channel_eq_iff a b = (
  λ h.
      let e = ap channel_of_text ((eq_iff _ _).0 h) in
      cc (channel_of_text-channel_text a, channel_of_text-channel_text b, e),
  λ e. (eq_iff _ _).1 (ap channel_text e),
)

pub status_eq_iff : (a b : DeliveryStatus) → (status_eq a b ≡ true) ↔ (a ≡ b)
unfolding status_eq
status_eq_iff a b = (
  λ h.
      let e = ap status_of_text ((eq_iff _ _).0 h) in
      cc (status_of_text-status_text a, status_of_text-status_text b, e),
  λ e. (eq_iff _ _).1 (ap status_text e),
)
