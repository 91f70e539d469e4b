-- ===== src/Ops/PipelineFlow/Position.antt =====
-- What the pipeline of web/src/components/ops/PipelineFlow.tsx shows of a delivery.
use gocourier.Common.{◌≡◌, refl, ◌↔◌, ◌≢◌, true, false, none, some, List, [], ◌∷◌, ◌++◌, arith, map}
use gocourier.Api.Types.{DeliveryStatus, pending, queued, succeeded, cancelled}
use gocourier.Ops.StatusBadge.{badge_of}
use gocourier.Ops.PipelineFlow.{
  StepId, ingest, pg, outbox, nats, worker, provider, steps, FlowStep, active_steps_for, tone_of,
  has_step, last_step, stopped_at, is_head_step,
}

abbrev pub step_ids : List StepId
step_ids = map (λ (s : FlowStep). s.id) steps

-- The steps that are lit are the first ones of the pipeline: none is lit behind one that is not.
-- All of them are lit exactly when the delivery has succeeded.
pub active_steps_for-prefix :
    (s : DeliveryStatus)
    → (rest : List StepId) × (active_steps_for (some s) ++ rest ≡ step_ids)
      × ((has_step (active_steps_for (some s)) provider ≡ true) ↔ (s ≡ succeeded))
unfolding active_steps_for
active_steps_for-prefix pending =
    (pg ∷ outbox ∷ nats ∷ worker ∷ provider ∷ [], refl, (λ h. cc, λ e. cc))
active_steps_for-prefix queued = (nats ∷ worker ∷ provider ∷ [], refl, (λ h. cc, λ e. cc))
active_steps_for-prefix succeeded = ([], refl, (λ h. refl, λ e. refl))
active_steps_for-prefix cancelled =
    (outbox ∷ nats ∷ worker ∷ provider ∷ [], refl, (λ h. cc, λ e. cc))
active_steps_for-prefix _ = (provider ∷ [], refl, (λ h. cc, λ e. cc))

-- The pipeline and the badge of a status have the same tone.
pub tone_of-badge_of : (s : DeliveryStatus) → tone_of (some s) ≡ (badge_of s).tone
unfolding tone_of
tone_of-badge_of succeeded = refl
tone_of-badge_of _ = refl

-- For a selected delivery a ring stands at one step, the last one that is lit, except where it is
-- cancelled: then there is none.
pub is_head_step_iff :
    (s : DeliveryStatus) (id : StepId)
    → (is_head_step (some s) id ≡ true)
      ↔ ((s ≢ cancelled) × (last_step (active_steps_for (some s)) ≡ some id))
unfolding is_head_step stopped_at tone_of active_steps_for
is_head_step_iff pending ingest = ground arith
is_head_step_iff _ ingest = ground arith
is_head_step_iff pending pg = ground arith
is_head_step_iff _ pg = ground arith
is_head_step_iff pending outbox = ground arith
is_head_step_iff _ outbox = ground arith
is_head_step_iff pending nats = ground arith
is_head_step_iff _ nats = ground arith
is_head_step_iff pending worker = ground arith
is_head_step_iff _ worker = ground arith
is_head_step_iff pending provider = ground arith
is_head_step_iff _ provider = ground arith

-- While no delivery is selected there is no ring.
pub is_head_step-none : (id : StepId) → is_head_step none id ≡ false
unfolding is_head_step stopped_at tone_of
is_head_step-none id = ground arith
