-- ===== src/Server/Scheduler/Skips.antt =====
-- A scheduled delivery that is no longer pending.
use gocourier.Common.{ℕ, suc, ◌≡◌, refl, false, Option, some, ap, ◌∙◌, String}
use gocourier.Api.Types.{pending, status_eq}
use gocourier.Server.Failures.{ok}
use gocourier.Server.Delivery.{Delivery, queue}
use gocourier.Server.Postgres.{find_delivery, find_by_id, or_failure, no_rows}
use gocourier.Server.Run.{Env, System, Fault, healthy, refused, lost, queried, perform, exec}
use gocourier.Server.Scheduler.{process_one, on_found}

passed_over :
    (env : Env) (prefix id : String) (now : ℕ) (d : Delivery) (f : Fault) (s : System)
    → status_eq d.status pending ≡ false
    → let (r, s') = queried f (ok d) s in
      exec env (on_found prefix now id r) (record s' { moment = suc s.moment })
      ≡ (ok tt, record s { moment = suc s.moment })
unfolding exec queue
passed_over env prefix id now d healthy s other = rw other refl
passed_over env prefix id now d (refused e) s other = refl
passed_over env prefix id now d (lost e) s other = refl

-- The scheduler passes a delivery over whose row is not pending, whatever the faults: no table changes, so its
-- scheduled row stays unprocessed, and nothing is published. That is so for a row that a tick before set to
-- queued without getting as far as the outbox.
pub process_one_skips :
    (env : Env) (prefix id : String) (now : ℕ) (d : Delivery) (s : System)
    → find_delivery id s.db.deliveries ≡ some d
    → status_eq d.status pending ≡ false
    → exec env (process_one prefix now id) s ≡ (ok tt, record s { moment = suc s.moment })
unfolding process_one exec perform find_by_id
process_one_skips env prefix id now d s found other =
    ap
      (λ (o : Option Delivery).
        let (r, s') = queried (env.fault s.moment) (or_failure o no_rows) s in
        exec env (on_found prefix now id r) (record s' { moment = suc s.moment }))
      found
    ∙ passed_over env prefix id now d (env.fault s.moment) s other
