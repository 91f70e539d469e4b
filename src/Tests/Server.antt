-- ===== src/Tests/Server.antt =====
-- Runs of the server's model: dispatch and the workers.
use gocourier.Common.{
  ℕ, ◌+◌, ◌≤◌, ◌≡◌, ◌⊎◌, refl, true, false, Option, some, List, [], ◌∷◌, get_elem?, arith, total,
}
use gocourier.Api.Types.{status_eq, queued, retrying, processing, dlq}
use gocourier.Server.Failures.{ok, err, err_transient, extended, errorf}
use gocourier.Server.Delivery.{mark_succeeded, Delivery}
use gocourier.Server.Ports.{Prog, call}
use gocourier.Server.Postgres.{
  find_delivery, find_by_id, update_if_status, overwrite, update, record_attempt,
}
use gocourier.Server.Run.{System, exec, perform}
use gocourier.Server.Breaker
use gocourier.Server.Mock
use gocourier.Server.Dispatch.{handle_message, dispatch, replay_delivery}
use gocourier.Server.Dispatch.Calm.{calm}
use gocourier.Server.Dispatch.Calm.Whole.{IsReady, reply_to}
use gocourier.Server.Dispatch.Endings.{EndsAs, end_of}
use gocourier.Server.Dispatch.Ends.{dispatch-EndsAs}
use gocourier.Server.Dispatch.Limit.{
  Failing, begin, again, IsAfter, attempts_left, Failing-bound, refusal, dispatch-refusal,
}
use gocourier.Server.Dispatch.Replaying.{
  is_replayable, requeued, replay_message, replay_delivery_lem,
}
use gocourier.Server.Workers.{Workers, Reach, here, next, consume, proceed, times_sent, sending}
use gocourier.Server.Workers.Protocol.{is_claimable}
use gocourier.Server.Workers.Rows.{rows}
use gocourier.Server.Workers.Safety.{sent_once}
use gocourier.Tests.Services.{env, settings, delivery, tables, system}

abbrev failing : Delivery
failing = delivery "d1" retrying "fail-transient"

abbrev failing_system : System
failing_system = system (tables (failing ∷ []))

failing-IsReady : IsReady env settings.dispatch_config failing_system failing
unfolding find_delivery
failing-IsReady = record { found = refl; claimable = refl; has_provider = refl; fresh = refl }

dispatch-EndsAs_example :
    EndsAs "d1" 1 [] []
      (end_of 3 1 (reply_to env settings.dispatch_config failing failing_system))
      (exec (calm env) (dispatch settings.dispatch_config "d1") failing_system)
dispatch-EndsAs_example =
    dispatch-EndsAs env settings.dispatch_config failing failing_system failing-IsReady

-- One failed dispatch.
one_failure :
    Failing env settings.dispatch_config "d1" failing_system 1
      (exec (calm env) (dispatch settings.dispatch_config "d1") failing_system).1
unfolding Breaker.allow Breaker.new Mock.send
one_failure =
    again begin failing refl failing-IsReady (extended err_transient "provider unavailable") refl

Failing-bound_example :
    (row : Delivery) × (find_delivery "d1"
        (exec (calm env) (dispatch settings.dispatch_config "d1") failing_system).1.db.deliveries
      ≡ some row)
    × IsAfter settings.dispatch_config failing 1 row
    × (1 ≤ attempts_left 3 1)
Failing-bound_example =
    Failing-bound env settings.dispatch_config failing failing_system
      (exec (calm env) (dispatch settings.dispatch_config "d1") failing_system).1 1
      failing-IsReady.found one_failure

abbrev claimed_system : System
claimed_system = system (tables (delivery "d1" processing "a" ∷ []))

dispatch-refusal_example :
    let (r, s') = exec (calm env) (dispatch settings.dispatch_config "d1") claimed_system in
    (r ≡ refusal processing) × (s'.db ≡ claimed_system.db) × (s'.sent ≡ []) × (s'.published ≡ [])
unfolding find_delivery
dispatch-refusal_example =
    dispatch-refusal env settings.dispatch_config (delivery "d1" processing "a") claimed_system refl
      refl

abbrev dead : Delivery
dead = delivery "d1" dlq "a"

abbrev dead_system : System
dead_system = system (tables (dead ∷ []))

replay_delivery_lem_example :
    let (r, s') = exec (calm env) (replay_delivery settings.dispatch_config "d1") dead_system in
    ((is_replayable dlq ≡ true)
      × (r ≡ ok tt)
      × (find_delivery "d1" s'.db.deliveries ≡ some (requeued 1001 dead))
      × (s'.published ≡ replay_message settings.dispatch_config dead ∷ []))
    ⊎ ((is_replayable dlq ≡ false)
        × (r ≡ err (errorf ("cannot replay from status " ∷ "dlq" ∷ [])))
        × (s'.db ≡ dead_system.db)
        × (s'.published ≡ []))
unfolding find_delivery
replay_delivery_lem_example = replay_delivery_lem env settings.dispatch_config dead dead_system refl

abbrev waiting : Delivery
waiting = delivery "d1" queued "a"

abbrev idle : Workers
idle = record { system = system (tables (waiting ∷ [])); programs = [] }

-- The next call of one program, if it makes one.
proceeded :
    {u : Workers} (n : ℕ) (v : Workers) (p : Option (Prog (Unit {0})))
    → Reach env settings u v
    → get_elem? v.programs n ≡ p
    → (w : Workers) × Reach env settings u w
proceeded n v (some (call o k)) run eq = (_, next run (proceed n o k eq))
proceeded n v _ run eq = (v, run)

-- The programs' next calls in an order.
scheduled :
    {u : Workers}
    → List ℕ
    → (v : Workers) × Reach env settings u v
    → (w : Workers) × Reach env settings u w
unfolding proceeded
scheduled [] run = run
scheduled (n ∷ ns) (v, run) = scheduled ns (proceeded n v (get_elem? v.programs n) run refl)

-- The broker delivers one message to two workers, whose calls alternate.
race : (v : Workers) × Reach env settings idle v
unfolding scheduled
race =
    let message = ok (("delivery_id", "d1") ∷ []) in
    scheduled (0 ∷ 1 ∷ 0 ∷ 1 ∷ 0 ∷ 1 ∷ 0 ∷ 1 ∷ 0 ∷ 0 ∷ 0 ∷ 0 ∷ 0 ∷ 0 ∷ 0 ∷ [])
      (_, next (next here (consume message [])) (consume message []))

sent_once_example :
    times_sent "d1" race.0.system
      + sending "d1" race.0
      + rows "d1" is_claimable race.0.system.db.deliveries
    ≤ 1
unfolding rows total
sent_once_example = sent_once env settings "d1" idle race.0 refl (omega arith) refl race.1

-- In the race, one of the two workers sends the delivery.
race_sent : times_sent "d1" race.0.system ≡ 1
unfolding race scheduled proceeded total handle_message perform find_by_id find_delivery status_eq
    update_if_status overwrite Breaker.allow Breaker.new Mock.send update record_attempt
    mark_succeeded
race_sent = refl
