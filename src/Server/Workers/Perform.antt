-- ===== src/Server/Workers/Perform.antt =====
-- One call of a program that keeps to the protocol of a delivery keeps the delivery safe.
use gocourier.Common.{
  ℕ, ◌+◌, ◌≡◌, refl, false, List, [], ◌∷◌, ◌++◌, String, if◌then◌else◌, str_eq, eq_iff, arith,
  is_some, total, total-append, Bool-cases, inl, inr,
}
use gocourier.Api.Types.{DeliveryStatus}
use gocourier.Server.Failures.{Outcome, ok, err}
use gocourier.Server.Delivery.{Delivery, ProviderResult}
use gocourier.Server.Ports.{Op, Ingestion}
use gocourier.Server.Postgres.{Database, find_delivery, update, update_if_status}
use gocourier.Server.Postgres.Queues.{ingest_transactional, ingest_steps, commit}
use gocourier.Server.Postgres.Queues
use gocourier.Server.Run.{
  Env, System, Fault, healthy, refused, lost, respond, perform, stored, queried, provided, broker,
  Message,
}
use gocourier.Server.Workers.{times_sent}
use gocourier.Server.Workers.Protocol.{
  Part, out, claimed, delivered, claims, delivers, is_claimable, is_processing, Allowed, after, won,
}
use gocourier.Server.Workers.Rows.{every, rows, rows-append, rows_of_none}
use gocourier.Server.Workers.Keeps.{IsSafe, IsSafe-of_rows, row_bounds, update_at, claim_at}
use gocourier.Server.Workers.Tables.{
  deliveries-ingest_steps, deliveries-record_attempt, deliveries-enqueue, deliveries-append_audit,
}

-- The safety of a delivery in a system.
abbrev pub IsSafeIn : String → System → ℕ → ℕ → Type 0
IsSafeIn i s c e = IsSafe i s.db.deliveries (times_sent i s) c e

-- A statement that keeps a delivery safe on the tables keeps it safe when it fails and when its answer is lost.
stored-IsSafeIn :
    {A : Type 0} (i : String) (f : Fault) (r : Outcome A × Database) (s : System) (c e : ℕ)
    → IsSafeIn i s c e
    → IsSafe i r.1.deliveries (times_sent i s) c e
    → IsSafeIn i (stored f r s).1 c e
stored-IsSafeIn i healthy r s c e old new = new
stored-IsSafeIn i (refused _) r s c e old new = old
stored-IsSafeIn i (lost _) r s c e old new = new

queried-IsSafeIn :
    {A : Type 0} (i : String) (f : Fault) (r : Outcome A) (s : System) (c e : ℕ)
    → IsSafeIn i s c e
    → IsSafeIn i (queried f r s).1 c e
queried-IsSafeIn i healthy r s c e old = old
queried-IsSafeIn i (refused _) r s c e old = old
queried-IsSafeIn i (lost _) r s c e old = old

broker-IsSafeIn :
    (i : String) (f : Fault) (m : Message) (s : System) (c e : ℕ)
    → IsSafeIn i s c e
    → IsSafeIn i (broker f m s).1 c e
broker-IsSafeIn i healthy m s c e old = old
broker-IsSafeIn i (refused _) m s c e old = old
broker-IsSafeIn i (lost _) m s c e old = old

-- The transaction adds a row only where there is none.
ingested :
    (i : String) (g : Ingestion) (ds : List Delivery) (sent c e : ℕ)
    → IsSafe i ds sent c e
    → is_some (find_delivery g.delivery.id ds) ≡ false
    → IsSafe i (ds ++ g.delivery ∷ []) sent c e
unfolding rows
ingested i g ds sent c e safe new = elim (Bool-cases (str_eq g.delivery.id i)) [
  | inl same ↦
      let none_yet = rw ((eq_iff g.delivery.id i).0 same) at new in
      ground (
        arith,
        row_bounds i ds,
        rows-append i every ds (g.delivery ∷ []),
        rows-append i is_processing ds (g.delivery ∷ []),
        rows-append i is_claimable ds (g.delivery ∷ []),
        rows_of_none i every ds none_yet,
      )
  | inr other ↦
      IsSafe-of_rows i ds (ds ++ g.delivery ∷ []) sent c e safe
        λ p. ground (arith, rows-append i p ds (g.delivery ∷ []))
]

committed :
    (i : String) (g : Ingestion) (n : ℕ) (db : Database) (r : Outcome Database) (sent c e : ℕ)
    → IsSafe i db.deliveries sent c e
    → ingest_steps n g db ≡ r
    → IsSafe i (commit db r).1.deliveries sent c e
committed i g n db (ok db') sent c e safe eq =
    let (new, added) = deliveries-ingest_steps n g db db' eq in
    rw added (ingested i g db.deliveries sent c e safe new)
committed i g n db (err _) sent c e safe eq = safe

-- A claim, by what becomes of the call.
claimed_by :
    (i : String) (d : Delivery) (h : Part) (expected : DeliveryStatus) (f : Fault) (s : System)
    (c e : ℕ)
    → IsSafeIn i s (c + claims h) (e + delivers h)
    → Allowed i h (Op.update_if_status d expected)
    → let (r, s') = stored f (update_if_status d expected s.db) s in
      IsSafeIn i s'
        (c + claims (if str_eq d.id i then won h r else h))
        (e + delivers (if str_eq d.id i then won h r else h))
unfolding update_if_status
claimed_by i d h expected healthy s c e safe allowed =
    (claim_at i d.id d h expected s.db.deliveries (times_sent i s) c e safe allowed).1
claimed_by i d h expected (refused _) s c e safe allowed = ground arith
claimed_by i d h expected (lost _) s c e safe allowed =
    let kept = (claim_at i d.id d h expected s.db.deliveries (times_sent i s) c e safe allowed).0 in
    ground arith

written_by :
    (i : String) (d : Delivery) (h : Part) (f : Fault) (s : System) (c e : ℕ)
    → IsSafeIn i s (c + claims h) (e + delivers h)
    → Allowed i h (Op.update d)
    → IsSafeIn i
        (stored f (update d s.db) s).1
        (c + claims (if str_eq d.id i then out else h))
        (e + delivers (if str_eq d.id i then out else h))
unfolding update
written_by i d h healthy s c e safe allowed =
    update_at i d.id d h s.db.deliveries (times_sent i s) c e safe allowed
written_by i d h (refused _) s c e safe allowed = ground arith
written_by i d h (lost _) s c e safe allowed =
    update_at i d.id d h s.db.deliveries (times_sent i s) c e safe allowed

-- A provider that accepts the delivery counts once more.
sent_by :
    (i : String) (d : Delivery) (h : Part) (reply : Outcome ProviderResult) (s : System) (c e : ℕ)
    → IsSafeIn i s (c + claims h) (e + delivers h)
    → Allowed i h (Op.send d)
    → let (r, s') = provided reply d s in
      IsSafeIn i s' (c + claims (after i h (Op.send d) r)) (e + delivers (after i h (Op.send d) r))
unfolding total
sent_by i d out (ok result) s c e safe allowed = ground (
  arith,
  total-append (λ j. if str_eq j i then 1 else 0) s.sent (d.id ∷ []),
  row_bounds i s.db.deliveries,
)
sent_by i d claimed (ok result) s c e safe allowed = ground (
  arith,
  total-append (λ j. if str_eq j i then 1 else 0) s.sent (d.id ∷ []),
  row_bounds i s.db.deliveries,
)
sent_by i d delivered (ok result) s c e safe allowed = ground (
  arith,
  total-append (λ j. if str_eq j i then 1 else 0) s.sent (d.id ∷ []),
  row_bounds i s.db.deliveries,
)
sent_by i d h (err _) s c e safe allowed = safe

module _ (env : Env) (i : String) where
  respond-IsSafeIn :
      (o : Op) (h : Part) (s : System) (c e : ℕ)
      → IsSafeIn i s (c + claims h) (e + delivers h)
      → Allowed i h o
      → IsSafeIn i
          (respond env o s).1
          (c + claims (after i h o (respond env o s).0))
          (e + delivers (after i h o (respond env o s).0))
  unfolding respond
  respond-IsSafeIn Op.now h s c e safe allowed = safe
  respond-IsSafeIn Op.new_uuid h s c e safe allowed = safe
  respond-IsSafeIn Op.count_pending h s c e safe allowed =
      queried-IsSafeIn i (env.fault s.moment) _ s _ _ safe
  respond-IsSafeIn (Op.find_by_id j) h s c e safe allowed =
      queried-IsSafeIn i (env.fault s.moment) _ s _ _ safe
  respond-IsSafeIn (Op.has_published j) h s c e safe allowed =
      queried-IsSafeIn i (env.fault s.moment) _ s _ _ safe
  respond-IsSafeIn (Op.mark_processed j) h s c e safe allowed =
      stored-IsSafeIn i (env.fault s.moment) _ s _ _ safe (unfold Queues.mark_processed in safe)
  respond-IsSafeIn (Op.find_by_idempotency_key k ch) h s c e safe allowed =
      queried-IsSafeIn i (env.fault s.moment) _ s _ _ safe
  respond-IsSafeIn (Op.update d) h s c e safe allowed =
      written_by i d h (env.fault s.moment) s c e safe allowed
  respond-IsSafeIn (Op.update_if_status d expected) h s c e safe allowed =
      claimed_by i d h expected (env.fault s.moment) s c e safe allowed
  respond-IsSafeIn (Op.record_attempt j a) h s c e safe allowed =
      stored-IsSafeIn i (env.fault s.moment) _ s _ _ safe
        (rw (deliveries-record_attempt j a s.db) safe)
  respond-IsSafeIn (Op.ingest_transactional g) h s c e safe allowed =
      stored-IsSafeIn i (env.fault s.moment) _ s _ _ safe (
        unfold Queues.ingest_transactional in
        committed i g s.moment s.db (ingest_steps s.moment g s.db) _ _ _ safe refl)
  respond-IsSafeIn (Op.enqueue j subject payload headers) h s c e safe allowed =
      stored-IsSafeIn i (env.fault s.moment) _ s _ _ safe
        (rw (deliveries-enqueue s.moment j subject payload headers s.db) safe)
  respond-IsSafeIn (Op.fetch_pending n) h s c e safe allowed =
      queried-IsSafeIn i (env.fault s.moment) _ s _ _ safe
  respond-IsSafeIn (Op.mark_published n) h s c e safe allowed =
      stored-IsSafeIn i (env.fault s.moment) _ s _ _ safe (unfold Queues.mark_published in safe)
  respond-IsSafeIn (Op.mark_failed n message) h s c e safe allowed =
      stored-IsSafeIn i (env.fault s.moment) _ s _ _ safe (unfold Queues.mark_failed in safe)
  respond-IsSafeIn (Op.fetch_due t n) h s c e safe allowed =
      queried-IsSafeIn i (env.fault s.moment) _ s _ _ safe
  respond-IsSafeIn (Op.append_audit j event payload) h s c e safe allowed =
      stored-IsSafeIn i (env.fault s.moment) _ s _ _ safe
        (rw (deliveries-append_audit j event payload s.db) safe)
  respond-IsSafeIn (Op.publish subject payload headers) h s c e safe allowed =
      broker-IsSafeIn i (env.fault s.moment) _ s _ _ safe
  respond-IsSafeIn (Op.send d) h s c e safe allowed =
      sent_by i d h (env.provider s.moment d) s c e safe allowed
  respond-IsSafeIn (Op.allow ch) h s c e safe allowed = safe
  respond-IsSafeIn (Op.record_success ch) h s c e safe allowed = safe
  respond-IsSafeIn (Op.record_failure ch) h s c e safe allowed = safe

  -- What one call does to the safety of a delivery, when its caller has the part `h` in it.
  pub perform-IsSafeIn :
      (o : Op) (h : Part) (s : System) (c e : ℕ)
      → IsSafeIn i s (c + claims h) (e + delivers h)
      → Allowed i h o
      → IsSafeIn i
          (perform env o s).1
          (c + claims (after i h o (perform env o s).0))
          (e + delivers (after i h o (perform env o s).0))
  unfolding perform
  perform-IsSafeIn o h s c e safe allowed = respond-IsSafeIn o h s c e safe allowed
