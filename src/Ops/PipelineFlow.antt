-- ===== src/Ops/PipelineFlow.antt =====
-- web/src/components/ops/PipelineFlow.tsx: where a delivery stands in the pipeline.
pub mod Position
use gocourier.Common.{
  ℕ, Bool, true, false, not, ◌&&◌, ◌||◌, Option, none, some, List, [], ◌∷◌, String, if◌then◌else◌,
  str_eq, is_some, any,
}
use gocourier.Html.{Attr, str, cn, Node, Nodes, nil, cons, nothing, many, text, h, when}
use gocourier.LoadTest.Config.{Tone, success, warning, danger, neutral}
use gocourier.Api.Types.{
  DeliveryStatus, pending, queued, processing, retrying, succeeded, failed, dlq, cancelled,
  rejected, status_text,
}
use gocourier.Ops.StatusBadge.{tone_eq}

pub data StepId : Type 0 where
  ingest pg outbox nats worker provider : StepId

abbrev pub step_text : StepId → String
step_text ingest = "ingest"
step_text pg = "pg"
step_text outbox = "outbox"
step_text nats = "nats"
step_text worker = "worker"
step_text provider = "provider"

-- `===` on the steps.
abbrev pub step_eq : StepId → StepId → Bool
step_eq a b = str_eq (step_text a) (step_text b)

pub record FlowStep : Type 0 where
  pub id : StepId
  pub label : String
  pub icon : String

-- `STEPS`
abbrev pub steps : List FlowStep
steps =
    record { id = ingest; label = "Ingest API"; icon = "Inbox" }
    ∷ record { id = pg; label = "PostgreSQL"; icon = "Database" }
    ∷ record { id = outbox; label = "Outbox"; icon = "Send" }
    ∷ record { id = nats; label = "NATS JetStream"; icon = "Network" }
    ∷ record { id = worker; label = "Worker"; icon = "Server" }
    ∷ record { id = provider; label = "Provider"; icon = "Mail" }
    ∷ []

-- The set, as the list of its elements in the order of insertion.
unfoldable pub active_steps_for : Option DeliveryStatus → List StepId
active_steps_for none = []
active_steps_for (some pending) = ingest ∷ []
active_steps_for (some queued) = ingest ∷ pg ∷ outbox ∷ []
active_steps_for (some processing) = ingest ∷ pg ∷ outbox ∷ nats ∷ worker ∷ []
active_steps_for (some retrying) = ingest ∷ pg ∷ outbox ∷ nats ∷ worker ∷ []
active_steps_for (some succeeded) = ingest ∷ pg ∷ outbox ∷ nats ∷ worker ∷ provider ∷ []
active_steps_for (some dlq) = ingest ∷ pg ∷ outbox ∷ nats ∷ worker ∷ []
active_steps_for (some failed) = ingest ∷ pg ∷ outbox ∷ nats ∷ worker ∷ []
active_steps_for (some rejected) = ingest ∷ pg ∷ outbox ∷ nats ∷ worker ∷ []
active_steps_for (some cancelled) = ingest ∷ pg ∷ []

unfoldable pub tone_of : Option DeliveryStatus → Tone
tone_of none = neutral
tone_of (some succeeded) = success
tone_of (some dlq) = danger
tone_of (some failed) = danger
tone_of (some rejected) = danger
tone_of (some cancelled) = neutral
tone_of (some _) = warning

-- `active.has(id)`
abbrev pub has_step : List StepId → StepId → Bool
has_step active id = any (λ a. step_eq a id) active

-- `[...active].pop()`
abbrev pub last_step : List StepId → Option StepId
last_step [] = none
last_step (a ∷ []) = some a
last_step (a ∷ b ∷ xs) = last_step (b ∷ xs)

unfoldable pub stopped_at : Option DeliveryStatus → Option StepId
stopped_at selected =
    let t = tone_of selected in
    if is_some selected && not (tone_eq t success) && not (tone_eq t neutral)
    then last_step (active_steps_for selected)
    else none

-- `STEPS[STEPS.length - 1].id`
abbrev pub head_step : StepId
head_step = provider

abbrev step_is : Option StepId → StepId → Bool
step_is none id = false
step_is (some a) id = step_eq a id

-- `isHead`
unfoldable pub is_head_step : Option DeliveryStatus → StepId → Bool
is_head_step selected id =
    step_is (stopped_at selected) id || (tone_eq (tone_of selected) success && step_eq id head_step)

-- `active.has(STEPS[idx + 1].id)`
abbrev any_next : List StepId → Option StepId → Bool
any_next active none = false
any_next active (some id) = has_step active id

abbrev pub next_id : List FlowStep → Option StepId
next_id [] = none
next_id (step ∷ _) = some step.id

module _ {Msg : Type 0} where
  -- One step and, where another follows, the line to it.
  unfoldable pub step_node : Option DeliveryStatus → FlowStep → Option StepId → Node Msg
  step_node selected step next =
      let active = active_steps_for selected in
      let t = tone_of selected in
      let is_active = has_step active step.id in
      let is_head = is_head_step selected step.id in
      (h "Fragment" (str "key" (step_text step.id) ∷ []) (
        (h "div" (str "className" "flex min-w-[110px] flex-1 flex-col items-center gap-1.5" ∷ []) (
          (h "div"
            (cn (
                some "grid h-10 w-10 place-items-center rounded-md border transition-colors"
                ∷ (if (not (is_active))
                    then some "border-border bg-background text-muted-foreground"
                    else none)
                ∷ (if ((is_active) && (tone_eq t warning))
                    then some "border-status-warning/40 bg-status-warning/10 text-status-warning"
                    else none)
                ∷ (if ((is_active) && (tone_eq t success))
                    then some "border-status-success/40 bg-status-success/10 text-status-success"
                    else none)
                ∷ (if ((is_active) && (tone_eq t danger))
                    then some "border-status-danger/40 bg-status-danger/10 text-status-danger"
                    else none)
                ∷ (if ((is_active) && (tone_eq t neutral))
                    then some "border-border bg-secondary text-foreground"
                    else none)
                ∷ (if (is_head) then some "ring-2 ring-offset-2 ring-offset-card" else none)
                ∷ (if ((is_head) && (tone_eq t warning))
                    then some "ring-status-warning/50"
                    else none)
                ∷ (if ((is_head) && (tone_eq t success))
                    then some "ring-status-success/50"
                    else none)
                ∷ (if ((is_head) && (tone_eq t danger)) then some "ring-status-danger/50" else none)
                ∷ [])
              ∷ [])
            ((h step.icon (str "className" "h-4 w-4" ∷ []) []) ∷ []))
          ∷ (h "div"
              (cn (
                  some "text-[11px] mono"
                  ∷ some (if (is_active) then "text-foreground" else "text-muted-foreground")
                  ∷ [])
                ∷ [])
              ((text step.label) ∷ []))
          ∷ []))
        ∷ (when (is_some next) (
            h "div" (str "className" "flex flex-1 items-center pt-5" ∷ []) (
              (h "div"
                (cn (
                    some "h-px w-full"
                    ∷ (if (has_step active step.id)
                        then some (
                            if (any_next active next)
                            then (if (tone_eq t danger)
                                then "bg-status-danger/50"
                                else (if (tone_eq t success)
                                    then "bg-status-success/50"
                                    else "bg-status-warning/50"))
                            else "bg-border")
                        else none)
                    ∷ [])
                  ∷ [])
                [])
              ∷ [])))
        ∷ []))

  -- `STEPS.map(…)`, where each step sees the one that follows.
  unfoldable pub step_nodes : Option DeliveryStatus → List FlowStep → Nodes Msg
  step_nodes selected [] = nil
  step_nodes selected (step ∷ rest) =
      cons (step_node selected step (next_id rest)) (step_nodes selected rest)

  -- `{selectedStatus}`
  abbrev status_node : Option DeliveryStatus → Node Msg
  status_node none = nothing
  status_node (some s) = text (status_text s)

  unfoldable pub pipeline_flow : Option DeliveryStatus → Node Msg
  pipeline_flow selected =
      (h "div" (str "className" "rounded-lg border border-border bg-card" ∷ []) (
        (h "div"
          (str "className"
              "flex items-center justify-between gap-4 border-b border-border px-4 py-2"
            ∷ [])
          ((h "div"
              (str "className" "text-xs font-medium uppercase tracking-wider text-muted-foreground"
                ∷ [])
              ((text "Pipeline") ∷ []))
            ∷ (if (is_some selected)
                then (h "div" (str "className" "text-[11px] text-muted-foreground mono" ∷ []) (
                    (text "tracking selected delivery → ")
                    ∷ (h "span" (str "className" "text-foreground" ∷ [])
                        ((status_node selected) ∷ []))
                    ∷ []))
                else (h "div" (str "className" "text-[11px] text-muted-foreground" ∷ [])
                    ((text "Select a delivery to trace its position") ∷ [])))
            ∷ []))
        ∷ (h "div" (str "className" "flex items-stretch gap-1 overflow-x-auto px-3 py-4" ∷ [])
            ((many (step_nodes selected steps)) ∷ []))
        ∷ []))
