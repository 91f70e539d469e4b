-- ===== src/Server/Workers/Follows.antt =====
-- The programs that run side by side keep to the protocol of every delivery.
pub mod Whole
use gocourier.Common.{
  ℕ, ◌+◌, ◌≡◌, refl, Bool, ◌||◌, leb, true, false, not, Option, none, some, List, [], ◌∷◌, String,
  if◌then◌else◌, str_eq, Bool-cases, inl, inr, arith,
}
use gocourier.Api.Types.{DeliveryStatus}
use gocourier.Server.Failures.{Failure, Outcome, ok, err, err_transient, is_permanent}
use gocourier.Server.Schema.{IngestRequest}
use gocourier.Server.Delivery.{
  Delivery, Attempt, ProviderResult, start_processing, mark_retrying, mark_succeeded, mark_dlq,
}
use gocourier.Server.Ports.{
  Fields, OutboxMessage, Op, Answer, Prog, done, fail, call, settle, ◌>>=◌, ◌>>◌,
}
use gocourier.Server.Dispatch.{
  Config, ended, new_attempt, on_reply, on_allowed, on_started, bury, move_to_dlq, schedule_retry,
  handle_failure, settle_success, deliver, dispatch, handle_message,
}
use gocourier.Server.Ingest.{ingest, store}
use gocourier.Server.Outbox.{flush, flush_all, flush_message}
use gocourier.Server.Workers.Protocol.{
  Part, out, claimed, delivered, Allowed, after, may_update, Follows,
}

-- A call whose error ends the program, and what comes after its answer.
pub next :
    {A B : Type 0} (i : String) (h : Part) (r : Outcome A) (f : A → Prog B)
    → ((a : A) → Follows i h (f a))
    → Follows i h (settle r >>= f)
next i h (ok a) f follows = follows a
next i h (err e) f follows = tt

pub last : {A : Type 0} (i : String) (h : Part) (r : Outcome A) → Follows i h (settle r)
last i h (ok a) = tt
last i h (err e) = tt

-- The part `h` of a program that handles `d`: it may write the row of `d` if that is `i`, and else has no
-- part in `i`.
record MayWrite (i : String) (h : Part) (d : Delivery) : Type 0 where
  own : str_eq d.id i ≡ true → may_update h d.status ≡ true
  other : str_eq d.id i ≡ false → h ≡ out

released :
    (i : String) (h : Part) (d : Delivery)
    → MayWrite i h d
    → (if str_eq d.id i then out else h) ≡ out
released i h d may = elim (Bool-cases (str_eq d.id i)) [
  | inl same ↦ rw same
  | inr apart ↦ rw apart (may.other apart)
]

bury-Follows :
    (i : String) (h : Part) (d : Delivery) (message : String)
    → MayWrite i h d
    → Follows i h (bury d message)
unfolding bury
bury-Follows i h d message may =
    (may.own, λ r. rw (released i h d may) (next i out r _ λ _. (tt, λ _. (tt, λ r. last i out r))))

move_to_dlq-Follows :
    (i : String) (h : Part) (d : Delivery) (now : ℕ) (message : String) (a : Option Attempt)
    → ((s : Attempt) → MayWrite i h (mark_dlq s message now d))
    → Follows i h (move_to_dlq d now message a)
unfolding move_to_dlq
move_to_dlq-Follows i h d now message (some a) may =
    (tt, λ r. next i h r _ λ _. bury-Follows i h (mark_dlq _ message now d) message (may _))
move_to_dlq-Follows i h d now message none may =
    bury-Follows i h (mark_dlq _ message now d) message (may _)

schedule_retry-Follows :
    (i : String) (h : Part) (d : Delivery) (a : Attempt) (message : String) (now : ℕ)
    → ((s : Attempt) → MayWrite i h (mark_retrying s message now d))
    → Follows i h (schedule_retry d a message now)
unfolding schedule_retry
schedule_retry-Follows i h d a message now may =
    let own = (may (ended a message now)).own in
    (
      own,
      λ r.
          rw (released i h _ (may (ended a message now)))
            (next i out r _ λ _. (tt, λ r. next i out r _ λ _. (tt, λ _. tt))),
    )

-- What a program that has claimed `d` holds of `i`.
abbrev pub Handles : String → Part → Part → Delivery → Type 0
Handles i h held d = (str_eq d.id i ≡ true → h ≡ held) × (str_eq d.id i ≡ false → h ≡ out)

pub branch :
    {A : Type 0} (i : String) (h : Part) (b : Bool) (p q : Prog A)
    → Follows i h p
    → Follows i h q
    → Follows i h (if b then p else q)
branch i h true p q f g = f
branch i h false p q f g = g

-- Whoever has claimed a delivery may write any status to its row.
claimed-MayWrite :
    (i : String) (h : Part) (d e : Delivery) → Handles i h claimed d → e.id ≡ d.id → MayWrite i h e
claimed-MayWrite i h d e handles eq = record {
  own = λ same. rw (handles.0 (rw eq at same)) refl;
  other = λ apart. handles.1 (rw eq at apart);
}

id-mark_dlq :
    (a : Attempt) (message : String) (now : ℕ) (d : Delivery) → (mark_dlq a message now d).id ≡ d.id
unfolding mark_dlq
id-mark_dlq a message now d = ground arith

id-mark_retrying :
    (a : Attempt) (message : String) (now : ℕ) (d : Delivery)
    → (mark_retrying a message now d).id ≡ d.id
unfolding mark_retrying
id-mark_retrying a message now d = refl

handle_failure-Follows :
    (i : String) (h : Part) (cfg : Config) (d : Delivery) (a : Attempt) (e : Failure)
    → Handles i h claimed d
    → Follows i h (handle_failure cfg d a e)
unfolding handle_failure
handle_failure-Follows i h cfg d a e handles = (
  tt,
  λ r. next i h r _ λ now.
      branch i h (is_permanent e || leb cfg.max_attempts (d.retry_count + 1)) _ _
        (move_to_dlq-Follows i h d now e.message (some a)
          (λ s. claimed-MayWrite i h d _ handles (id-mark_dlq s e.message now d)))
        (schedule_retry-Follows i h d a e.message now
          (λ s. claimed-MayWrite i h d _ handles (id-mark_retrying s e.message now d))),
)

-- Once it is sent, the row is written with the status succeeded.
delivered-MayWrite :
    (i : String) (h : Part) (d : Delivery) (a : Attempt) (now : ℕ)
    → Handles i h delivered d
    → MayWrite i h (mark_succeeded a now d)
unfolding mark_succeeded
delivered-MayWrite i h d a now handles = record {
  own = λ same. rw (handles.0 same) refl;
  other = λ apart. handles.1 apart;
}

settle_success-Follows :
    (i : String) (h : Part) (d : Delivery) (a : Attempt) (result : ProviderResult)
    → Handles i h delivered d
    → Follows i h (settle_success d a result)
unfolding settle_success
settle_success-Follows i h d a result handles = (
  tt,
  λ r. next i h r _ λ _. (
    tt,
    λ r. next i h r _ λ now.
        let may = delivered-MayWrite i h d _ now handles in
        (
          may.own,
          λ r.
              rw (released i h _ may)
                (next i out r _ λ _. (tt, λ r. next i out r _ λ _. (tt, λ r. last i out r))),
        ),
  ),
)

-- The part after an accepted notification.
sent-Handles :
    (i : String) (h : Part) (d : Delivery)
    → Handles i h claimed d
    → Handles i (if str_eq d.id i then delivered else h) delivered d
sent-Handles i h d handles = (λ same. rw same refl, λ apart. rw apart (handles.1 apart))

on_reply-Follows :
    (i : String) (h : Part) (cfg : Config) (d : Delivery) (a : Attempt)
    (reply : Outcome ProviderResult)
    → Handles i h claimed d
    → Follows i (after i h (Op.send d) reply) (on_reply cfg d a reply)
on_reply-Follows i h cfg d a (ok result) handles =
    settle_success-Follows i _ d a result (sent-Handles i h d handles)
on_reply-Follows i h cfg d a (err e) handles =
    (tt, λ r. next i h r _ λ _. handle_failure-Follows i h cfg d a e handles)

on_allowed-Follows :
    (i : String) (h : Part) (cfg : Config) (now : ℕ) (d : Delivery) (allowed : Outcome (Unit {0}))
    → Handles i h claimed d
    → Follows i h (on_allowed cfg now d allowed)
on_allowed-Follows i h cfg now d (err _) handles = (
  tt,
  λ r.
      next i h r _
        λ id. handle_failure-Follows i h cfg d (new_attempt id now d) err_transient handles,
)
on_allowed-Follows i h cfg now d (ok _) handles = (
  tt,
  λ r. next i h r _ λ id. (
    λ same. rw (handles.0 same) refl,
    λ reply. on_reply-Follows i h cfg d (new_attempt id now d) reply handles,
  ),
)

pub deliver-Follows :
    (i : String) (h : Part) (cfg : Config) (now : ℕ) (d : Delivery)
    → Handles i h claimed d
    → Follows i h (deliver cfg now d)
unfolding deliver
deliver-Follows i h cfg now d handles =
    branch i h (not (cfg.has_provider d.channel)) _ _
      (move_to_dlq-Follows i h d now "no provider for channel" none
        (λ s. claimed-MayWrite i h d _ handles (id-mark_dlq s "no provider for channel" now d)))
      (tt, λ allowed. on_allowed-Follows i h cfg now d allowed handles)
