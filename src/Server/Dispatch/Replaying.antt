-- ===== src/Server/Dispatch/Replaying.antt =====
-- A replay on its own: which deliveries it queues again, and what it leaves.
use gocourier.Common.{
  ℕ, suc, ◌≡◌, refl, Bool, true, false, Option, some, [], ◌∷◌, ◌++◌, ◌⊎◌, inl, inr, Bool-cases, ap,
  ◌∙◌,
}
use gocourier.Api.Types.{DeliveryStatus, queued, failed, dlq, pending, status_text}
use gocourier.Server.Failures.{Outcome, ok, err, errorf}
use gocourier.Server.Delivery.{Delivery, replay, replay_from}
use gocourier.Server.Routing.{notification_subject}
use gocourier.Server.Ports
use gocourier.Server.Ports.{Op, AuditValue, text, Prog, done, fail, call, settle, act}
use gocourier.Server.Postgres.{find_delivery, find_by_id, or_failure, no_rows, update, overwritten}
use gocourier.Server.Run.{Env, System, Message, accepted, perform, exec}
use gocourier.Server.Dispatch.{Config, replay_delivery}
use gocourier.Server.Dispatch.Calm.{
  calm, with_row, with_audit, left, find_delivery-overwrite, exec-append_audit,
}

-- The statuses from which a delivery is replayed.
abbrev pub is_replayable : DeliveryStatus → Bool
is_replayable dlq = true
is_replayable failed = true
is_replayable _ = false

abbrev pub requeued : ℕ → Delivery → Delivery
requeued now d = record d { status = queued; updated_at = now; retry_count = 0 }

-- The message of a replay.
abbrev pub replay_message : Config → Delivery → Message
replay_message cfg d = record {
  subject = notification_subject cfg.stream_prefix d.channel d.priority;
  payload = ("delivery_id", d.id) ∷ [];
  headers = ("delivery_id", d.id) ∷ ("replay", "true") ∷ [];
}

module _ (env : Env) (cfg : Config) where
  abbrev replay_row : ℕ → Outcome Delivery → Prog (Unit {0})
  replay_row now r = Ports.◌>>=◌ (settle r) λ replayed.
      Ports.◌>>◌ (act (Op.update (record replayed { retry_count = 0 }))) (
        Ports.◌>>◌
          (act (
            Op.publish (notification_subject cfg.stream_prefix replayed.channel replayed.priority)
              (("delivery_id", replayed.id) ∷ [])
              (("delivery_id", replayed.id) ∷ ("replay", "true") ∷ [])))
          (act
            (Op.append_audit replayed.id "NotificationReplayed" (("operator", text "api") ∷ []))))

  replay_found :
      (d : Delivery) (s : System)
      → find_delivery d.id s.db.deliveries ≡ some d
      → exec (calm env) (replay_delivery cfg d.id) s
        ≡ exec
            (calm env)
            (replay_row (env.clock (suc s.moment)) (replay (env.clock (suc s.moment)) d))
            (record s { moment = suc (suc s.moment) })
  unfolding replay_delivery exec perform find_by_id
  replay_found d s found =
      ap
        (λ (r : Option Delivery).
          exec (calm env)
            (Ports.◌>>=◌ (settle (or_failure r no_rows))
              λ x. Ports.◌>>=◌ (act Op.now) λ now. replay_row now (replay now x))
            (record s { moment = suc s.moment }))
        found

  -- The system after a replay.
  abbrev replayed_system : Delivery → System → System
  replayed_system d s =
      let d' = requeued (env.clock (suc s.moment)) d in
      let s₁ = record s { db = with_row d' s.db; moment = suc (suc (suc s.moment)) } in
      let s₂ = record (accepted (replay_message cfg d') s₁) { moment = suc s₁.moment } in
      left (with_audit d.id "NotificationReplayed" (("operator", text "api") ∷ []) s₂.db) s₂

  replay_from_row :
      (d : Delivery) (st : DeliveryStatus) (s : System)
      → is_replayable st ≡ true
      → find_delivery d.id s.db.deliveries ≡ some d
      → exec
          (calm env)
          (replay_row (env.clock (suc s.moment)) (replay_from st (env.clock (suc s.moment)) d))
          (record s { moment = suc (suc s.moment) })
        ≡ (ok tt, replayed_system d s)
  unfolding exec perform update
  replay_from_row d dlq s h found =
      exec-append_audit env d.id "NotificationReplayed" (("operator", text "api") ∷ []) settle _
        (overwritten (requeued (env.clock (suc s.moment)) d) d)
        (find_delivery-overwrite d.id (requeued (env.clock (suc s.moment)) d) d s.db.deliveries
          found)
  replay_from_row d failed s h found =
      exec-append_audit env d.id "NotificationReplayed" (("operator", text "api") ∷ []) settle _
        (overwritten (requeued (env.clock (suc s.moment)) d) d)
        (find_delivery-overwrite d.id (requeued (env.clock (suc s.moment)) d) d s.db.deliveries
          found)
  replay_from_row d _ s h found = cc

  refused_from_row :
      (d : Delivery) (st : DeliveryStatus) (s : System)
      → is_replayable st ≡ false
      → (now : ℕ)
      → exec (calm env) (replay_row now (replay_from st now d)) s
        ≡ (err (errorf ("cannot replay from status " ∷ status_text st ∷ [])), s)
  unfolding exec
  refused_from_row d pending s h now = refl
  refused_from_row d dlq s h now = cc
  refused_from_row d failed s h now = cc
  refused_from_row d _ s h now = refl

  -- A delivery in the dead letter queue, or one that has failed, is queued again by a replay, its retries at
  -- zero, and one message for it is published. From any other status a replay is refused, and changes no
  -- table and publishes nothing. This holds for calls that do not fail.
  pub replay_delivery_lem :
      (d : Delivery) (s : System)
      → find_delivery d.id s.db.deliveries ≡ some d
      → let (r, s') = exec (calm env) (replay_delivery cfg d.id) s in
        ((is_replayable d.status ≡ true)
          × (r ≡ ok tt)
          × (find_delivery d.id s'.db.deliveries ≡ some (requeued (env.clock (suc s.moment)) d))
          × (s'.published ≡ s.published ++ replay_message cfg d ∷ []))
        ⊎ ((is_replayable d.status ≡ false)
            × (r ≡ err (errorf ("cannot replay from status " ∷ status_text d.status ∷ [])))
            × (s'.db ≡ s.db)
            × (s'.published ≡ s.published))
  unfolding replay
  replay_delivery_lem d s found = elim (Bool-cases (is_replayable d.status)) [
    | inl again ↦ rw (replay_found d s found ∙ replay_from_row d d.status s again found) (
        inl (
          again,
          refl,
          find_delivery-overwrite d.id (requeued (env.clock (suc s.moment)) d) d s.db.deliveries
              found,
          refl,
        ))
    | inr refused ↦
        rw
          (replay_found d s found
            ∙ refused_from_row d d.status (record s { moment = suc (suc s.moment) }) refused
                (env.clock (suc s.moment)))
          (inr (refused, refl, refl, refl))
  ]
