-- ===== src/Server/Workers/Protocol.antt =====
-- The part that a program plays for one delivery: it does not hold it, it has claimed it, or it has had it
-- sent. A protocol says which calls are allowed in which part.
use gocourier.Common.{ℕ, ◌≡◌, Bool, true, false, ◌&&◌, List, [], ◌∷◌, String, if◌then◌else◌, str_eq}
use gocourier.Api.Types.{DeliveryStatus, queued, retrying, processing, succeeded}
use gocourier.Server.Failures.{Outcome, ok}
use gocourier.Server.Ports.{Op, Answer, Prog, done, fail, call}

pub data Part : Type 0 where
  out claimed delivered : Part

abbrev pub claims : Part → ℕ
claims claimed = 1
claims _ = 0

abbrev pub delivers : Part → ℕ
delivers delivered = 1
delivers _ = 0

abbrev pub is_claimable : DeliveryStatus → Bool
is_claimable queued = true
is_claimable retrying = true
is_claimable _ = false

abbrev pub is_processing : DeliveryStatus → Bool
is_processing processing = true
is_processing _ = false

abbrev pub is_succeeded : DeliveryStatus → Bool
is_succeeded succeeded = true
is_succeeded _ = false

-- A row is claimed by a compare and set, written by whoever holds it, and sent by whoever has claimed it.
abbrev pub may_update : Part → DeliveryStatus → Bool
may_update out s = false
may_update claimed s = true
may_update delivered s = is_succeeded s

abbrev pub may_claim : Part → DeliveryStatus → DeliveryStatus → Bool
may_claim out new expected = is_processing new && is_claimable expected
may_claim _ new expected = false

abbrev pub may_send : Part → Bool
may_send claimed = true
may_send _ = false

abbrev pub Allowed : String → Part → Op → Type 0
Allowed i h (Op.update d) = str_eq d.id i ≡ true → may_update h d.status ≡ true
Allowed i h (Op.update_if_status d expected) =
    str_eq d.id i ≡ true → may_claim h d.status expected ≡ true
Allowed i h (Op.send d) = str_eq d.id i ≡ true → may_send h ≡ true
Allowed i h _ = Unit

-- The part after a call.
abbrev pub won : Part → Outcome Bool → Part
won h (ok true) = claimed
won h _ = h

abbrev pub after : (i : String) (h : Part) (o : Op) → Outcome (Answer o) → Part
after i h (Op.update d) r = if str_eq d.id i then out else h
after i h (Op.update_if_status d expected) r = if str_eq d.id i then won h r else h
after i h (Op.send d) (ok _) = if str_eq d.id i then delivered else h
after i h _ r = h

-- Whatever the answers, the program keeps to the protocol.
abbrev pub Follows : {A : Type 0} → String → Part → Prog A → Type 0
Follows i h (done a) = Unit
Follows i h (fail e) = Unit
Follows i h (call o k) =
    Allowed i h o × ((r : Outcome (Answer o)) → Follows i (after i h o r) (k r))

abbrev pub AllFollow : String → List (Prog (Unit {0})) → List Part → Type 0
AllFollow i [] [] = Unit
AllFollow i (p ∷ ps) (h ∷ hs) = Follows i h p × AllFollow i ps hs
AllFollow i _ _ = ⊥
