-- ===== src/Server/Outbox.antt =====
-- internal/application/outbox/publisher.go: one flush, as a program over the ports. The trace headers are
-- left out.
pub mod NoLoss
use gocourier.Common.{ℕ, Bool, List, [], ◌∷◌, if◌then◌else◌}
use gocourier.Server.Failures.{Failure, Outcome, ok, err}
use gocourier.Server.Ports.{
  OutboxMessage, Op, Prog, done, fail, call, act, try_call, ◌>>=◌, ◌>>◌, ignoring_errors,
}

abbrev pub on_published : OutboxMessage → Outcome (Unit {0}) → Prog (Unit {0})
on_published m (err e) = ignoring_errors (Op.mark_failed m.id e.message)
on_published m (ok _) = ignoring_errors (Op.mark_published m.id)

-- The check that a row of the same delivery is published; its error skips the message.
abbrev pub on_checked : OutboxMessage → Outcome Bool → Prog (Unit {0})
on_checked m (err e) = done tt
on_checked m (ok published) =
    if published
    then ignoring_errors (Op.mark_published m.id)
    else (do reply ← try_call (Op.publish m.subject m.payload m.headers); on_published m reply)

unfoldable pub flush_message : OutboxMessage → Prog (Unit {0})
flush_message m = do checked ← try_call (Op.has_published m.delivery_id); on_checked m checked

unfoldable pub flush_all : List OutboxMessage → Prog (Unit {0})
unfolding flush_message
flush_all [] = done tt
flush_all (m ∷ ms) = flush_message m >> flush_all ms

unfoldable pub flush : ℕ → Prog (Unit {0})
unfolding flush_all
flush batch = do ignoring_errors Op.count_pending; ms ← act (Op.fetch_pending batch); flush_all ms
