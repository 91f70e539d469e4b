-- ===== src/Server/Dispatch/Calm.antt =====
-- A dispatch on its own, with the database and the broker in order: what each part of it leaves.
pub mod Failing
pub mod Whole
use gocourier.Common.{
  ℕ, suc, ◌+◌, ◌≡◌, refl, Bool, true, false, not, ◌||◌, Option, none, some, List, [], ◌∷◌, ◌++◌,
  String, if◌then◌else◌, str_eq, eq_iff, arith, any, find, is_some, leb, Bool-cases, inl, inr, sym,
  ap, ◌∙◌,
}
use gocourier.Api.Types.{DeliveryStatus, status_eq, status_eq_iff}
use gocourier.Server.Failures.{Failure, Outcome, ok, err, is_permanent, err_transient}
use gocourier.Server.Delivery.{
  Delivery, Attempt, ProviderResult, mark_succeeded, mark_retrying, mark_dlq, start_processing,
}
use gocourier.Server.Ports.{
  Op, AuditPayload, number, text, Prog, done, fail, call, settle, act, ◌>>=◌, ◌>>◌,
}
use gocourier.Server.Postgres.{
  Database, has_id, has_id_and_status, overwrite, overwritten, find_delivery, update,
  update_if_status, record_attempt, find_by_id,
}
use gocourier.Server.Postgres.Queues.{append_audit}
use gocourier.Server.Run.{Env, System, healthy, with_breaker, perform, exec}
use gocourier.Server.Breaker.{record_success}
use gocourier.Server.Dispatch.{
  Config, ended, new_attempt, bury, move_to_dlq, schedule_retry, handle_failure, settle_success,
  deliver, dispatch,
}

-- The world without faults of the network.
abbrev pub calm : Env → Env
calm env = record env { fault = λ _. healthy }

-- A write to the rows of an id, seen by a search for it.
pub find_delivery-overwrite :
    (i : String) (new row : Delivery) (ds : List Delivery)
    → find_delivery i ds ≡ some row
    → find_delivery i (overwrite (has_id i) new ds) ≡ some (overwritten new row)
unfolding find_delivery overwrite
find_delivery-overwrite i new row [] h = cc
find_delivery-overwrite i new row (d ∷ ds) h = elim (Bool-cases (str_eq d.id i)) [
  | inl same ↦ let k : some d ≡ some row = rw same at h in rw (same, same) (cc)
  | inr other ↦
      let k : find_delivery i ds ≡ some row = rw other at h in
      rw (other, other) (find_delivery-overwrite i new row ds k)
]

-- No attempt has that id.
abbrev pub IsFresh : String → Database → Type 0
IsFresh i db = any (λ row. str_eq row.1.id i) db.delivery_attempts ≡ false

abbrev pub with_attempt : String → Attempt → Database → Database
with_attempt i a db = record db { delivery_attempts = db.delivery_attempts ++ (i, a) ∷ [] }

abbrev pub with_audit : String → String → AuditPayload → Database → Database
with_audit i event payload db = record db {
  audit_events =
      db.audit_events ++ record { delivery_id = i; event_type = event; payload = payload } ∷ [];
}

abbrev pub with_row : Delivery → Database → Database
with_row d db = record db { deliveries = overwrite (has_id d.id) d db.deliveries }

-- The system after a statement.
abbrev pub left : Database → System → System
left db s = record s { db = db; moment = suc s.moment }

has_row :
    (i : String) (row : Delivery) (ds : List Delivery)
    → find_delivery i ds ≡ some row
    → is_some (find_delivery i ds) ≡ true
has_row i row ds found = rw found refl

module _ (env : Env) where
  pub exec-record_attempt :
      (i : String) (a : Attempt) (k : Outcome (Unit {0}) → Prog (Unit {0})) (s : System)
      (row : Delivery)
      → IsFresh a.id s.db
      → find_delivery i s.db.deliveries ≡ some row
      → exec (calm env) (call (Op.record_attempt i a) k) s
        ≡ exec (calm env) (k (ok tt)) (left (with_attempt i a s.db) s)
  unfolding exec perform record_attempt
  exec-record_attempt i a k s row fresh found =
      let e : record_attempt i a s.db ≡ (ok tt, with_attempt i a s.db) = rw (fresh, found) refl in
      ap (λ (x : Outcome (Unit {0}) × Database). exec (calm env) (k x.0) (left x.1 s)) e

  pub exec-append_audit :
      (i event : String) (payload : AuditPayload) (k : Outcome (Unit {0}) → Prog (Unit {0}))
      (s : System) (row : Delivery)
      → find_delivery i s.db.deliveries ≡ some row
      → exec (calm env) (call (Op.append_audit i event payload) k) s
        ≡ exec (calm env) (k (ok tt)) (left (with_audit i event payload s.db) s)
  unfolding exec perform append_audit
  exec-append_audit i event payload k s row found =
      let e : append_audit i event payload s.db ≡ (ok tt, with_audit i event payload s.db) =
        rw found refl in
      ap (λ (x : Outcome (Unit {0}) × Database). exec (calm env) (k x.0) (left x.1 s)) e

  -- The systems after the calls of `settle_success`, one after another.
  unfoldable pub settled_row : Delivery → Attempt → ProviderResult → System → System
  unfolding mark_succeeded
  settled_row d a result s =
      let d' =
        mark_succeeded (record a { provider_response = some result }) (env.clock (suc s.moment))
          d in
      record (with_breaker d.channel (record_success (s.breakers d.channel)) s) {
        db = with_row d' s.db;
        moment = suc (suc (suc s.moment));
      }

  unfoldable pub settled : Delivery → Attempt → ProviderResult → System → System
  unfolding settled_row
  settled d a result s =
      let s₃ = settled_row d a result s in
      let s₄ = left (with_attempt d.id (record a { provider_response = some result }) s₃.db) s₃ in
      left (with_audit d.id "DispatchSucceeded" (("attempt", number a.attempt_number) ∷ []) s₄.db)
        s₄

  pub exec-settle_success :
      (d row : Delivery) (a : Attempt) (result : ProviderResult) (s : System)
      → find_delivery d.id s.db.deliveries ≡ some row
      → IsFresh a.id s.db
      → exec (calm env) (settle_success d a result) s ≡ (ok tt, settled d a result s)
  unfolding settle_success exec perform update mark_succeeded settled settled_row
  exec-settle_success d row a result s found fresh =
      let a' = record a { provider_response = some result } in
      let d' = mark_succeeded a' (env.clock (suc s.moment)) d in
      let kept = find_delivery-overwrite d.id d' row s.db.deliveries found in
      let s₃ = settled_row d a result s in
      let note : AuditPayload = (("attempt", number a.attempt_number) ∷ []) in
      exec-record_attempt d.id a'
        (λ r. settle r >> act (Op.append_audit d.id "DispatchSucceeded" note)) s₃
        (overwritten d' row) fresh kept
      ∙ exec-append_audit d.id "DispatchSucceeded" note settle
          (left (with_attempt d.id a' s₃.db) s₃) (overwritten d' row) kept
