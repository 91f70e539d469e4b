-- ===== src/Server/Outbox/NoLoss.antt =====
-- What the publisher does with one message of the outbox, whatever the database and the broker do.
use gocourier.Common.{
  ℕ, suc, ◌≡◌, refl, Bool, true, false, ◌⊎◌, inl, inr, List, [], ◌∷◌, ◌++◌, String, map, ◌==◌,
  Bool-cases, ap,
}
use gocourier.Api.Types.{OutboxStatus}
use gocourier.Server.Failures.{Outcome, ok}
use gocourier.Server.Ports.{OutboxMessage}
use gocourier.Server.Postgres.{Database, OutboxRow}
use gocourier.Server.Postgres.Queues.{
  change_row, failed_row, mark_failed, mark_published, has_published_for_delivery,
}
use gocourier.Server.Run.{
  Env, System, Message, Fault, healthy, refused, lost, stored, queried, broker, perform, exec,
}
use gocourier.Server.Outbox.{flush_message, on_checked, on_published}

abbrev pub statuses : System → List OutboxStatus
statuses s = map (λ row. row.status) s.db.outbox

-- What is published of a message.
abbrev pub sent_form : OutboxMessage → Message
sent_form m = record { subject = m.subject; payload = m.payload; headers = m.headers }

statuses-failed :
    (message : String) (id : ℕ) (rows : List OutboxRow)
    → map (λ (row : OutboxRow). row.status) (change_row (failed_row message) id rows)
      ≡ map (λ (row : OutboxRow). row.status) rows
statuses-failed message id [] = refl
statuses-failed message id (row ∷ rows) = elim (Bool-cases (row.message.id == id)) [
  | inl same ↦
      rw same (ap (λ (ss : List OutboxStatus). row.status ∷ ss) (statuses-failed message id rows))
  | inr other ↦
      rw other (ap (λ (ss : List OutboxStatus). row.status ∷ ss) (statuses-failed message id rows))
]

stored-published :
    {A : Type 0} (f : Fault) (r : Outcome A × Database) (s : System)
    → (stored f r s).1.published ≡ s.published
stored-published healthy r s = refl
stored-published (refused _) r s = refl
stored-published (lost _) r s = refl

stored-statuses :
    (f : Fault) (message : String) (id : ℕ) (s : System)
    → statuses (stored f (mark_failed id message s.db) s).1 ≡ statuses s
unfolding mark_failed
stored-statuses healthy message id s = statuses-failed message id s.db.outbox
stored-statuses (refused _) message id s = refl
stored-statuses (lost _) message id s = statuses-failed message id s.db.outbox

-- The three ways in which a message can end.
abbrev pub IsFlushed : OutboxMessage → System → System → Type 0
IsFlushed m s s' =
    ((has_published_for_delivery m.delivery_id s.db ≡ true) × (s'.published ≡ s.published))
    ⊎ (((has_published_for_delivery m.delivery_id s.db ≡ false)
          × (s'.published ≡ s.published ++ sent_form m ∷ []))
        ⊎ ((s'.published ≡ s.published) × (statuses s' ≡ statuses s)))

module _ (env : Env) (m : OutboxMessage) where
  -- The reply of the broker, and what is written down of it.
  published_by :
      (f : Fault) (s : System)
      → has_published_for_delivery m.delivery_id s.db ≡ false
      → let (r, s') = broker f (sent_form m) s in
        IsFlushed m s (exec env (on_published m r) (record s' { moment = suc s.moment })).1
  unfolding exec perform
  published_by healthy s unpublished =
      inr (inl (unpublished, stored-published (env.fault (suc s.moment)) _ _))
  published_by (refused e) s unpublished = inr (
      inr (
        stored-published (env.fault (suc s.moment)) _ _,
        stored-statuses (env.fault (suc s.moment)) e.message m.id _,
      ))
  published_by (lost e) s unpublished =
      inr (inl (unpublished, stored-published (env.fault (suc s.moment)) _ _))

  checked_as :
      (b : Bool) (s : System)
      → has_published_for_delivery m.delivery_id s.db ≡ b
      → IsFlushed m s (exec env (on_checked m (ok b)) (record s { moment = suc s.moment })).1
  unfolding exec perform
  checked_as true s published = inl (
    published,
    stored-published (env.fault (suc s.moment))
        (mark_published (env.clock (suc s.moment)) m.id s.db) (record s { moment = suc s.moment }),
  )
  checked_as false s unpublished =
      published_by (env.fault (suc s.moment)) (record s { moment = suc s.moment }) unpublished

  checked_by :
      (f : Fault) (s : System)
      → let (r, s') = queried f (ok (has_published_for_delivery m.delivery_id s.db)) s in
        IsFlushed m s (exec env (on_checked m r) (record s' { moment = suc s.moment })).1
  checked_by healthy s = checked_as (has_published_for_delivery m.delivery_id s.db) s refl
  checked_by (refused e) s = unfold exec in inr (inr (refl, refl))
  checked_by (lost e) s = unfold exec in inr (inr (refl, refl))

  -- Whatever the faults, a message of the outbox is handled in one of three ways. Where a row of its delivery
  -- is published, nothing goes to the broker. Where none is, the message goes to the broker once. Or nothing
  -- goes to the broker, and every row keeps its status, so that a pending row stays pending.
  pub flush_message-IsFlushed : (s : System) → IsFlushed m s (exec env (flush_message m) s).1
  unfolding flush_message exec perform
  flush_message-IsFlushed s = checked_by (env.fault s.moment) s
