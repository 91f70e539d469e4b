-- ===== src/Server/Workers/Quiet.antt =====
-- Programs that write no row of a delivery and send nothing: a request, a flush.
use gocourier.Common.{◌≡◌, refl, ℕ, Bool, true, false, List, [], ◌∷◌, String, Bool-cases, inl, inr}
use gocourier.Server.Failures.{Kind, Outcome, ok, err, is, err_transient}
use gocourier.Server.Schema.{IngestRequest, validate, parse_channel}
use gocourier.Server.Delivery.{Delivery, new_delivery_from_request, should_schedule}
use gocourier.Server.Ports.{OutboxMessage, Op, Prog, done, fail, call, settle, Answer, ◌>>=◌, ◌>>◌}
use gocourier.Server.Ingest.{ingest, store, on_found, on_stored, invalid, ready, ingestion_of}
use gocourier.Server.Ingest
use gocourier.Server.Outbox.{flush, flush_all, flush_message, on_checked, on_published}
use gocourier.Server.Workers.Protocol.{out, Allowed, after, Follows}

-- A call that neither writes the row of a delivery nor sends it.
abbrev IsQuietOp : Op → Type 0
IsQuietOp (Op.update d) = ⊥
IsQuietOp (Op.update_if_status d s) = ⊥
IsQuietOp (Op.send d) = ⊥
IsQuietOp _ = Unit

abbrev pub IsQuiet : {A : Type 0} → Prog A → Type 0
IsQuiet (done a) = Unit
IsQuiet (fail e) = Unit
IsQuiet (call o k) = IsQuietOp o × ((r : Outcome (Answer o)) → IsQuiet (k r))

Allowed-of_IsQuietOp :
    (i : String) (o : Op) (r : Outcome (Answer o))
    → IsQuietOp o
    → Allowed i out o × (after i out o r ≡ out)
Allowed-of_IsQuietOp i Op.now r quiet = (tt, refl)
Allowed-of_IsQuietOp i (Op.update d) r quiet = absurd quiet
Allowed-of_IsQuietOp i (Op.update_if_status d s) r quiet = absurd quiet
Allowed-of_IsQuietOp i (Op.send d) r quiet = absurd quiet
Allowed-of_IsQuietOp i _ r quiet = (tt, refl)

-- A program of such calls has no part in any delivery.
pub Follows-of_IsQuiet : {A : Type 0} (i : String) (p : Prog A) → IsQuiet p → Follows i out p
Follows-of_IsQuiet i (done a) quiet = tt
Follows-of_IsQuiet i (fail e) quiet = tt
Follows-of_IsQuiet i (call o k) (quiet, rest) = (
  (Allowed-of_IsQuietOp i o (err err_transient) quiet).0,
  λ r. rw ((Allowed-of_IsQuietOp i o r quiet).1) (Follows-of_IsQuiet i (k r) (rest r)),
)

bind-IsQuiet :
    {A B : Type 0} (p : Prog A) (f : A → Prog B)
    → IsQuiet p
    → ((a : A) → IsQuiet (f a))
    → IsQuiet (p >>= f)
bind-IsQuiet (done a) f quiet rest = rest a
bind-IsQuiet (fail e) f quiet rest = tt
bind-IsQuiet (call o k) f (quiet, k_quiet) rest =
    (quiet, λ r. bind-IsQuiet (k r) f (k_quiet r) rest)

settle-IsQuiet : {A : Type 0} (r : Outcome A) → IsQuiet (settle r)
settle-IsQuiet (ok a) = tt
settle-IsQuiet (err e) = tt

on_stored-IsQuiet : (d : Delivery) (r : Outcome (Unit {0})) → IsQuiet (on_stored d r)
on_stored-IsQuiet d (ok _) = tt
on_stored-IsQuiet d (err e) = elim (Bool-cases (is Kind.duplicate e)) [
  | inl same ↦ rw same (tt, λ r. bind-IsQuiet (settle r) _ (settle-IsQuiet r) (λ a. tt))
  | inr other ↦ rw other tt
]

store-IsQuiet : (cfg : Ingest.Config) (req : IngestRequest) → IsQuiet (store cfg req)
unfolding store
store-IsQuiet cfg req = (
  tt,
  λ r. bind-IsQuiet (settle r) _ (settle-IsQuiet r) λ now. (
    tt,
    λ r. bind-IsQuiet (settle r) _ (settle-IsQuiet r) λ id.
        bind-IsQuiet (settle (invalid (new_delivery_from_request id req now))) _ (settle-IsQuiet _)
          λ made.
            bind-IsQuiet (settle (ready now (should_schedule now made) made)) _ (settle-IsQuiet _)
              λ d. (tt, λ stored. on_stored-IsQuiet d stored),
  ),
)

on_found-IsQuiet :
    (cfg : Ingest.Config) (req : IngestRequest) (r : Outcome Delivery)
    → IsQuiet (on_found cfg req r)
on_found-IsQuiet cfg req (ok existing) = tt
on_found-IsQuiet cfg req (err e) = elim (Bool-cases (is Kind.not_found e)) [
  | inl missing ↦ rw missing (store-IsQuiet cfg req)
  | inr broken ↦ rw broken tt
]

pub ingest-IsQuiet :
    (cfg : Ingest.Config) (req : IngestRequest) → IsQuiet (ingest cfg req >> done tt)
unfolding ingest
ingest-IsQuiet cfg req =
    bind-IsQuiet _ _
      (bind-IsQuiet (settle (invalid (validate req))) _ (settle-IsQuiet _) λ valid.
        bind-IsQuiet (settle (parse_channel valid.channel)) _ (settle-IsQuiet _)
          λ channel. (tt, λ found. on_found-IsQuiet cfg valid found))
      (λ _. tt)

on_published-IsQuiet : (m : OutboxMessage) (r : Outcome (Unit {0})) → IsQuiet (on_published m r)
on_published-IsQuiet m (ok _) = (tt, λ _. tt)
on_published-IsQuiet m (err e) = (tt, λ _. tt)

on_checked-IsQuiet : (m : OutboxMessage) (r : Outcome Bool) → IsQuiet (on_checked m r)
on_checked-IsQuiet m (ok true) = (tt, λ _. tt)
on_checked-IsQuiet m (ok false) = (tt, λ r. on_published-IsQuiet m r)
on_checked-IsQuiet m (err e) = tt

flush_all-IsQuiet : (ms : List OutboxMessage) → IsQuiet (flush_all ms)
unfolding flush_all flush_message
flush_all-IsQuiet [] = tt
flush_all-IsQuiet (m ∷ ms) =
    (tt, λ r. bind-IsQuiet (on_checked m r) _ (on_checked-IsQuiet m r) λ _. flush_all-IsQuiet ms)

pub flush-IsQuiet : (batch : ℕ) → IsQuiet (flush batch)
unfolding flush
flush-IsQuiet batch =
    (tt, λ _. (tt, λ r. bind-IsQuiet (settle r) _ (settle-IsQuiet r) λ ms. flush_all-IsQuiet ms))
