-- ===== src/Server/Ports.antt =====
-- internal/ports: what the use cases call. A use case is a program that calls the ports one after another;
-- between two calls, other programs may run. `Server.Run` answers the calls.
use gocourier.Common.{ℕ, Bool, List, String}
use gocourier.Api.Types.{Channel, DeliveryStatus}
use gocourier.Server.Failures.{Failure, Outcome, ok, err}
use gocourier.Server.Delivery.{Delivery, Attempt, ProviderResult}

-- A `map[string]string`, as headers and as the object that `json.Marshal` prints.
abbrev pub Fields : Type 0
Fields = List (String × String)

pub record OutboxMessage : Type 0 where
  pub id : ℕ
  pub delivery_id : String
  pub subject : String
  pub payload : Fields
  pub headers : Fields
  pub attempts : ℕ

-- A value in the payload of an audit event.
pub data AuditValue : Type 0 where
  text : String → AuditValue
  number : ℕ → AuditValue
  flag : Bool → AuditValue

abbrev pub AuditPayload : Type 0
AuditPayload = List (String × AuditValue)

-- What `IngestTransactional` takes.
pub record Ingestion : Type 0 where
  pub delivery : Delivery
  pub expires_at : ℕ
  pub subject : String
  pub payload : Fields
  pub headers : Fields
  pub schedule : Bool

-- A call: of the clock and of `uuid.NewString`, of the repositories, of the broker, of a provider, and of
-- the breaker of a channel.
pub data Op : Type 0 where
  now new_uuid count_pending : Op
  find_by_id has_published mark_processed : String → Op
  find_by_idempotency_key : String → Channel → Op
  update : Delivery → Op
  update_if_status : Delivery → DeliveryStatus → Op
  record_attempt : String → Attempt → Op
  ingest_transactional : Ingestion → Op
  enqueue : String → String → Fields → Fields → Op
  fetch_pending mark_published : ℕ → Op
  mark_failed : ℕ → String → Op
  fetch_due : ℕ → ℕ → Op
  append_audit : String → String → AuditPayload → Op
  publish : String → Fields → Fields → Op
  send : Delivery → Op
  allow record_success record_failure : Channel → Op

-- What a call returns where it does not fail.
abbrev pub Answer : Op → Type 0
Answer Op.now = ℕ
Answer Op.new_uuid = String
Answer Op.count_pending = ℕ
Answer (Op.find_by_id _) = Delivery
Answer (Op.has_published _) = Bool
Answer (Op.mark_processed _) = Unit {0}
Answer (Op.find_by_idempotency_key _ _) = Delivery
Answer (Op.update _) = Unit {0}
Answer (Op.update_if_status _ _) = Bool
Answer (Op.record_attempt _ _) = Unit {0}
Answer (Op.ingest_transactional _) = Unit {0}
Answer (Op.enqueue _ _ _ _) = Unit {0}
Answer (Op.fetch_pending _) = List OutboxMessage
Answer (Op.mark_published _) = Unit {0}
Answer (Op.mark_failed _ _) = Unit {0}
Answer (Op.fetch_due _ _) = List String
Answer (Op.append_audit _ _ _) = Unit {0}
Answer (Op.publish _ _ _) = Unit {0}
Answer (Op.send _) = ProviderResult
Answer (Op.allow _) = Unit {0}
Answer (Op.record_success _) = Unit {0}
Answer (Op.record_failure _) = Unit {0}

-- A program: it has returned a value, or an error, or it makes a call and goes on with the answer.
pub data Prog (A : Type 0) : Type 0 where
  done : A → Prog A
  fail : Failure → Prog A
  call : (o : Op) → (Outcome (Answer o) → Prog A) → Prog A

abbrev pub settle : {A : Type 0} → Outcome A → Prog A
settle (ok a) = done a
settle (err e) = fail e

-- A call whose error the caller returns.
abbrev pub act : (o : Op) → Prog (Answer o)
act o = call o settle

-- A call whose error the caller looks at.
abbrev pub try_call : (o : Op) → Prog (Outcome (Answer o))
try_call o = call o done

infixl 5 ◌>>=◌ ◌>>◌
abbrev pub ◌>>=◌ : {A B : Type 0} → Prog A → (A → Prog B) → Prog B
done a >>= f = f a
fail e >>= f = fail e
call o k >>= f = call o (λ r. k r >>= f)

abbrev pub ◌>>◌ : {A B : Type 0} → Prog A → Prog B → Prog B
m >> k = m >>= λ _. k

-- `_ = call`: the error is dropped.
abbrev pub ignoring_errors : (o : Op) → Prog (Unit {0})
ignoring_errors o = call o (λ _. done tt)
