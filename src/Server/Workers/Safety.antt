-- ===== src/Server/Workers/Safety.antt =====
-- What holds of every run of the workers, the API and the publisher side by side.
use gocourier.Common.{
  ℕ, suc, zero, ◌+◌, ◌≤◌, ◌≡◌, some, List, [], ◌∷◌, ◌++◌, String, get_elem?, set, total, arith,
  subst, total-append,
}
use gocourier.Server.Ports.{Op, Prog, fail, call}
use gocourier.Server.Run.{Env, System, perform}
use gocourier.Server.Workers.{
  Settings, Workers, Step, consume, request, tick, proceed, crash, Reach, here, next, times_sent,
  sends, sending,
}
use gocourier.Server.Workers.Protocol.{
  Part, out, claimed, claims, delivers, is_claimable, after, Follows, AllFollow,
}
use gocourier.Server.Workers.Rows.{rows, every}
use gocourier.Server.Workers.Keeps.{row_bounds}
use gocourier.Server.Workers.Perform.{IsSafeIn, perform-IsSafeIn}
use gocourier.Server.Workers.Quiet.{Follows-of_IsQuiet, ingest-IsQuiet, flush-IsQuiet}
use gocourier.Server.Workers.Follows.Whole.{handle_message-Follows}

-- The parts that the programs play for a delivery, and its safety.
record Plays (i : String) (w : Workers) (parts : List Part) : Type 0 where
  follow : AllFollow i w.programs parts
  safe : IsSafeIn i w.system (total claims parts) (total delivers parts)

AllFollow-append :
    (i : String) (ps : List (Prog (Unit {0}))) (hs : List Part) (p : Prog (Unit {0})) (h : Part)
    → AllFollow i ps hs
    → Follows i h p
    → AllFollow i (ps ++ p ∷ []) (hs ++ h ∷ [])
AllFollow-append i [] [] p h all one = (one, tt)
AllFollow-append i (q ∷ ps) (g ∷ hs) p h (first, all) one =
    (first, AllFollow-append i ps hs p h all one)
AllFollow-append i [] (g ∷ hs) p h all one = absurd all
AllFollow-append i (q ∷ ps) [] p h all one = absurd all

-- The part of the n-th program, taken out of the sums.
record Picked (i : String) (ps : List (Prog (Unit {0}))) (hs : List Part) (n : ℕ)
    (p : Prog (Unit {0})) : Type 0 where
  part : Part
  follows : Follows i part p
  claiming : ℕ
  delivering : ℕ
  claims_are : total claims hs ≡ claiming + claims part
  delivers_are : total delivers hs ≡ delivering + delivers part
  replaced :
      (q : Prog (Unit {0})) (h : Part)
      → Follows i h q
      → AllFollow i (set ps n q) (set hs n h)
        × (total claims (set hs n h) ≡ claiming + claims h)
        × (total delivers (set hs n h) ≡ delivering + delivers h)

pick :
    (i : String) (ps : List (Prog (Unit {0}))) (hs : List Part) (n : ℕ) (p : Prog (Unit {0}))
    → AllFollow i ps hs
    → get_elem? ps n ≡ some p
    → Picked i ps hs n p
unfolding total
pick i [] hs n p all at_n = cc
pick i (q ∷ ps) [] n p all at_n = absurd all
pick i (q ∷ ps) (g ∷ hs) zero p (first, all) at_n = record {
  part = g;
  follows = subst (Follows i g) (cc) first;
  claiming = total claims hs;
  delivering = total delivers hs;
  claims_are = omega arith;
  delivers_are = omega arith;
  replaced = λ r h one. ((one, all), omega arith, omega arith);
}
pick i (q ∷ ps) (g ∷ hs) (suc n) p (first, all) at_n =
    let found = pick i ps hs n p all at_n in
    record {
      part = found.part;
      follows = found.follows;
      claiming = claims g + found.claiming;
      delivering = delivers g + found.delivering;
      claims_are = omega (arith, found.claims_are);
      delivers_are = omega (arith, found.delivers_are);
      replaced = λ r h one.
          let (rest, c, d) = found.replaced r h one in
          ((first, rest), omega (arith, c), omega (arith, d));
    }

-- A program that begins has no part in the delivery.
begun-Plays :
    (i : String) (w : Workers) (hs : List Part) (p : Prog (Unit {0}))
    → Plays i w hs
    → Follows i out p
    → Plays i (record w { programs = w.programs ++ p ∷ [] }) (hs ++ out ∷ [])
unfolding total
begun-Plays i w hs p plays one = record {
  follow = AllFollow-append i w.programs hs p out plays.follow one;
  safe =
      rw (total-append claims hs (out ∷ []), total-append delivers hs (out ∷ []))
        (ground (arith, plays.safe));
}

module _ (env : Env) (settings : Settings) (i : String) where
  Step-Plays :
      {v w : Workers} (hs : List Part)
      → Plays i v hs
      → Step env settings v w
      → (gs : List Part) × Plays i w gs
  Step-Plays {v} hs plays (consume payload headers) = (
    hs ++ out ∷ [],
    begun-Plays i v hs _ plays (handle_message-Follows i settings.dispatch_config payload headers),
  )
  Step-Plays {v} hs plays (request req) = (
    hs ++ out ∷ [],
    begun-Plays i v hs _ plays (Follows-of_IsQuiet i _ (ingest-IsQuiet settings.ingest_config req)),
  )
  Step-Plays {v} hs plays tick = (
    hs ++ out ∷ [],
    begun-Plays i v hs _ plays (Follows-of_IsQuiet i _ (flush-IsQuiet settings.batch)),
  )
  Step-Plays {v} hs plays (proceed n o k at_n) =
      let found = pick i v.programs hs n (call o k) plays.follow at_n in
      let h' = after i found.part o (perform env o v.system).0 in
      let (follow, c, d) =
        found.replaced (k (perform env o v.system).0) h'
          (found.follows.1 (perform env o v.system).0) in
      let before : IsSafeIn i v.system (found.claiming + claims found.part)
          (found.delivering + delivers found.part) =
        rw (← found.claims_are, ← found.delivers_are) plays.safe in
      (
        set hs n h',
        record {
          follow = follow;
          safe =
              rw (c, d)
                (perform-IsSafeIn env i o found.part v.system found.claiming found.delivering before
                  found.follows.0);
        },
      )
  Step-Plays {v} hs plays (crash n p e at_n) =
      let found = pick i v.programs hs n p plays.follow at_n in
      let (follow, c, d) = found.replaced (fail e) out tt in
      (
        set hs n out,
        record {
          follow = follow;
          safe = omega (arith, c, d, found.claims_are, found.delivers_are);
        },
      )

  Reach-Plays :
      {v w : Workers} (hs : List Part)
      → Plays i v hs
      → Reach env settings v w
      → (gs : List Part) × Plays i w gs
  Reach-Plays hs plays here = (hs, plays)
  Reach-Plays hs plays (next r st) =
      let (gs, kept) = Reach-Plays hs plays r in Step-Plays gs kept st

-- A program that is about to send a delivery has claimed it.
sends-le-claims :
    (i : String) (p : Prog (Unit {0})) (h : Part) → Follows i h p → sends i p ≤ claims h
sends-le-claims i (call (Op.send d) k) claimed follows = ground arith
sends-le-claims i (call (Op.send d) k) _ follows = ground (arith, follows.0)
sends-le-claims i _ h follows = omega arith

sending-le-claims :
    (i : String) (ps : List (Prog (Unit {0}))) (hs : List Part)
    → AllFollow i ps hs
    → total (sends i) ps ≤ total claims hs
unfolding total
sending-le-claims i [] [] all = omega arith
sending-le-claims i (p ∷ ps) (h ∷ hs) (first, all) =
    omega (arith, sends-le-claims i p h first, sending-le-claims i ps hs all)
sending-le-claims i [] (h ∷ hs) all = absurd all
sending-le-claims i (p ∷ ps) [] all = absurd all

-- Before anything is sent or claimed.
fresh-IsSafe :
    (i : String) (s : System)
    → rows i every s.db.deliveries ≤ 1
    → times_sent i s ≡ 0
    → IsSafeIn i s (total claims []) (total delivers [])
unfolding total
fresh-IsSafe i s one_row unsent = omega (arith, row_bounds i s.db.deliveries)

-- In every run of messages, requests and flushes that begins with no program under way, with at most one
-- row of the delivery and with nothing sent of it, the times that a provider has accepted the delivery,
-- the programs that are about to hand it to one, and its rows that can be claimed, are one in all at
-- most. The broker may deliver a message any number of times, calls may interleave, fail or lose
-- their answers, and processes may end at any moment.
pub sent_once :
    (env : Env) (settings : Settings) (i : String) (w v : Workers)
    → w.programs ≡ []
    → rows i every w.system.db.deliveries ≤ 1
    → times_sent i w.system ≡ 0
    → Reach env settings w v
    → times_sent i v.system + sending i v + rows i is_claimable v.system.db.deliveries ≤ 1
sent_once env settings i w v idle one_row unsent run =
    let unsent_safe = fresh-IsSafe i w.system one_row unsent in
    let start : Plays i w [] = record { follow = rw idle tt; safe = unsent_safe } in
    let (gs, plays) = Reach-Plays env settings i [] start run in
    omega (arith, plays.safe.once, sending-le-claims i v.programs gs plays.follow)
