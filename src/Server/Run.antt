-- ===== src/Server/Run.antt =====
-- What answers a program's calls: PostgreSQL, NATS, a provider and the breakers, and what runs programs,
-- alone or side by side.
use gocourier.Common.{ℕ, suc, List, [], ◌∷◌, ◌++◌, String, if◌then◌else◌}
use gocourier.Api.Types.{Channel, channel_eq}
use gocourier.Server.Failures.{Failure, Outcome, ok, err}
use gocourier.Server.Delivery.{Delivery, ProviderResult}
use gocourier.Server.Ports.{Fields, Op, Answer, Prog, done, fail, call}
use gocourier.Server.Breaker.{Breaker}
use gocourier.Server.Breaker
use gocourier.Server.Postgres.{Database}
use gocourier.Server.Postgres
use gocourier.Server.Postgres.Queues

-- What becomes of a call over the network: it is done and answered, or it is not done, or it is done and
-- the answer is lost.
pub data Fault : Type 0 where
  healthy : Fault
  refused lost : Failure → Fault

-- The world at each moment; a provider's answer to a delivery is part of it.
pub record Env : Type 0 where
  pub clock : ℕ → ℕ
  pub uuid : ℕ → String
  pub fault : ℕ → Fault
  pub provider : ℕ → Delivery → Outcome ProviderResult

pub record Message : Type 0 where
  pub subject : String
  pub payload : Fields
  pub headers : Fields

pub record System : Type 0 where
  pub db : Database
  -- what the broker has accepted, and the ids of what the providers have, both in order
  pub published : List Message
  pub sent : List String
  pub breakers : Channel → Breaker
  -- the number of calls so far
  pub moment : ℕ

abbrev pub stored : {A : Type 0} → Fault → Outcome A × Database → System → Outcome A × System
stored healthy (r, db) s = (r, record s { db = db })
stored (refused e) (r, db) s = (err e, s)
stored (lost e) (r, db) s = (err e, record s { db = db })

abbrev pub queried : {A : Type 0} → Fault → Outcome A → System → Outcome A × System
queried healthy r s = (r, s)
queried (refused e) r s = (err e, s)
queried (lost e) r s = (err e, s)

abbrev pub accepted : Message → System → System
accepted m s = record s { published = s.published ++ m ∷ [] }

abbrev pub broker : Fault → Message → System → Outcome (Unit {0}) × System
broker healthy m s = (ok tt, accepted m s)
broker (refused e) m s = (err e, s)
broker (lost e) m s = (err e, accepted m s)

-- A provider that answers without an error has the notification.
abbrev pub provided : Outcome ProviderResult → Delivery → System → Outcome ProviderResult × System
provided (ok r) d s = (ok r, record s { sent = s.sent ++ d.id ∷ [] })
provided (err e) d s = (err e, s)

abbrev pub with_breaker : Channel → Breaker → System → System
with_breaker ch b s = record s { breakers = λ ch'. if channel_eq ch' ch then b else s.breakers ch' }

module _ (env : Env) where
  unfoldable pub respond : (o : Op) → System → Outcome (Answer o) × System
  respond Op.now s = (ok (env.clock s.moment), s)
  respond Op.new_uuid s = (ok (env.uuid s.moment), s)
  respond Op.count_pending s =
      queried (env.fault s.moment) (ok (Postgres.Queues.count_pending s.db)) s
  respond (Op.find_by_id i) s = queried (env.fault s.moment) (Postgres.find_by_id i s.db) s
  respond (Op.has_published i) s =
      queried (env.fault s.moment) (ok (Postgres.Queues.has_published_for_delivery i s.db)) s
  respond (Op.mark_processed i) s =
      stored (env.fault s.moment) (Postgres.Queues.mark_processed i s.db) s
  respond (Op.find_by_idempotency_key k ch) s =
      queried (env.fault s.moment) (Postgres.find_by_idempotency_key (env.clock s.moment) k ch s.db)
        s
  respond (Op.update d) s = stored (env.fault s.moment) (Postgres.update d s.db) s
  respond (Op.update_if_status d expected) s =
      stored (env.fault s.moment) (Postgres.update_if_status d expected s.db) s
  respond (Op.record_attempt i a) s =
      stored (env.fault s.moment) (Postgres.record_attempt i a s.db) s
  respond (Op.ingest_transactional g) s =
      stored (env.fault s.moment) (Postgres.Queues.ingest_transactional s.moment g s.db) s
  respond (Op.enqueue i subject payload headers) s =
      stored (env.fault s.moment) (Postgres.Queues.enqueue s.moment i subject payload headers s.db)
        s
  respond (Op.fetch_pending limit) s =
      queried (env.fault s.moment) (ok (Postgres.Queues.fetch_pending limit s.db)) s
  respond (Op.mark_published id) s =
      stored (env.fault s.moment) (Postgres.Queues.mark_published (env.clock s.moment) id s.db) s
  respond (Op.mark_failed id message) s =
      stored (env.fault s.moment) (Postgres.Queues.mark_failed id message s.db) s
  respond (Op.fetch_due before limit) s =
      queried (env.fault s.moment) (ok (Postgres.Queues.fetch_due before limit s.db)) s
  respond (Op.append_audit i event payload) s =
      stored (env.fault s.moment) (Postgres.Queues.append_audit i event payload s.db) s
  respond (Op.publish subject payload headers) s =
      broker (env.fault s.moment)
        (record { subject = subject; payload = payload; headers = headers }) s
  respond (Op.send d) s = provided (env.provider s.moment d) d s
  respond (Op.allow ch) s =
      let (r, b) = Breaker.allow (env.clock s.moment) (s.breakers ch) in (r, with_breaker ch b s)
  respond (Op.record_success ch) s =
      (ok tt, with_breaker ch (Breaker.record_success (s.breakers ch)) s)
  respond (Op.record_failure ch) s =
      (ok tt, with_breaker ch (Breaker.record_failure (env.clock s.moment) (s.breakers ch)) s)

  -- A call and its answer.
  unfoldable pub perform : (o : Op) → System → Outcome (Answer o) × System
  unfolding respond
  perform o s = let (r, s') = respond o s in (r, record s' { moment = suc s.moment })

  -- A program that runs alone.
  unfoldable pub exec : {A : Type 0} → Prog A → System → Outcome A × System
  unfolding perform
  exec (done a) s = (ok a, s)
  exec (fail e) s = (err e, s)
  exec (call o k) s = let (r, s') = perform o s in exec (k r) s'
