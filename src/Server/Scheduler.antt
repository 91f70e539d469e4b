-- ===== src/Server/Scheduler.antt =====
-- internal/application/scheduler/service.go: one tick, as a program over the ports.
pub mod Skips
use gocourier.Common.{ℕ, true, List, [], ◌∷◌, String}
use gocourier.Server.Failures.{Failure, Outcome, ok, err}
use gocourier.Server.Delivery.{Delivery, queue}
use gocourier.Server.Routing.{notification_subject}
use gocourier.Server.Ingest.{envelope_of, headers_of}
use gocourier.Server.Ports.{
  Op, Prog, done, fail, call, act, try_call, ◌>>=◌, ◌>>◌, ignoring_errors, flag,
}

abbrev pub on_queued : String → String → Outcome Delivery → Prog (Unit {0})
on_queued prefix id (err e) = done tt
on_queued prefix id (ok d) = do
  act (Op.update d)
  act (
      Op.enqueue d.id (notification_subject prefix d.channel d.priority) (envelope_of d)
        (headers_of d))
  act (Op.mark_processed id)
  ignoring_errors (Op.append_audit d.id "NotificationQueued" (("scheduled", flag true) ∷ []))

-- A delivery that is not found, or that cannot be queued, is passed over.
abbrev pub on_found : String → ℕ → String → Outcome Delivery → Prog (Unit {0})
on_found prefix now id (err e) = done tt
on_found prefix now id (ok d) = on_queued prefix id (queue now d)

unfoldable pub process_one : String → ℕ → String → Prog (Unit {0})
unfolding queue
process_one prefix now id = do found ← try_call (Op.find_by_id id); on_found prefix now id found

unfoldable pub process_all : String → ℕ → List String → Prog (Unit {0})
unfolding process_one
process_all prefix now [] = done tt
process_all prefix now (id ∷ ids) = process_one prefix now id >> process_all prefix now ids

unfoldable pub process_due : String → ℕ → Prog (Unit {0})
unfolding process_all
process_due prefix batch = do
  now ← act Op.now
  ids ← act (Op.fetch_due now batch)
  process_all prefix now ids
