-- ===== src/Server/Dispatch/Calm/Whole.antt =====
-- A whole dispatch on its own: where it leaves the delivery, by the provider's reply.
use gocourier.Common.{
  ℕ, suc, ◌≡◌, refl, Bool, true, false, not, Option, some, List, [], ◌∷◌, String, if◌then◌else◌,
  Bool-cases, inl, inr, ◌∙◌, ap, arith, any, str_eq, eq_iff,
}
use gocourier.Api.Types.{
  DeliveryStatus, queued, processing, retrying, succeeded, dlq, status_eq, status_eq_iff,
}
use gocourier.Server.Failures.{Failure, Outcome, ok, err, err_transient}
use gocourier.Server.Delivery.{Delivery, Attempt, ProviderResult, start_processing, processing_from}
use gocourier.Server.Ports.{Op, Prog, done, settle, act, ◌>>=◌}
use gocourier.Server.Postgres.{
  has_id_and_status, overwrite, overwritten, find_delivery, update_if_status, find_by_id,
  or_failure, no_rows,
}
use gocourier.Server.Breaker.{allow}
use gocourier.Server.Run.{Env, System, with_breaker, provided, perform, exec}
use gocourier.Server.Workers.Protocol.{is_claimable}
use gocourier.Server.Dispatch.{
  Config, new_attempt, on_reply, on_allowed, on_started, deliver, dispatch, handle_failure,
}
use gocourier.Server.Dispatch.Calm.{calm, IsFresh}

-- What a search finds has the id.
pub id-find_delivery :
    (i : String) (row : Delivery) (ds : List Delivery) → find_delivery i ds ≡ some row → row.id ≡ i
unfolding find_delivery
id-find_delivery i row [] h = cc
id-find_delivery i row (d ∷ ds) h = elim (Bool-cases (str_eq d.id i)) [
  | inl same ↦ let k : some d ≡ some row = rw same at h in cc ((eq_iff d.id i).0 same)
  | inr other ↦ id-find_delivery i row ds (rw other at h)
]

-- A compare and set that names the status of the row found.
pub claim_found :
    (i : String) (new row : Delivery) (ds : List Delivery)
    → find_delivery i ds ≡ some row
    → (any (has_id_and_status i row.status) ds ≡ true)
      × (find_delivery i (overwrite (has_id_and_status i row.status) new ds)
          ≡ some (overwritten new row))
unfolding find_delivery overwrite
claim_found i new row [] h = cc
claim_found i new row (d ∷ ds) h = elim (Bool-cases (str_eq d.id i)) [
  | inl same ↦
      let k : some d ≡ some row = rw same at h in
      let e : d ≡ row = cc in
      let t : has_id_and_status i row.status d ≡ true =
        rw same ((status_eq_iff d.status row.status).1 (ap (λ (x : Delivery). x.status) e)) in
      (rw t refl, rw (t, same) (ap (λ (x : Delivery). some (overwritten new x)) e))
  | inr other ↦
      let (matched, found) = claim_found i new row ds (rw other at h) in
      ground (arith, matched, found)
]

-- A delivery that a dispatch will claim and attempt: it is queued or retrying, its channel has a provider,
-- and the id of the attempt is new.
pub record IsReady (env : Env) (cfg : Config) (s : System) (d : Delivery) : Type 0 where
  pub found : find_delivery d.id s.db.deliveries ≡ some d
  pub claimable : is_claimable d.status ≡ true
  pub has_provider : cfg.has_provider d.channel ≡ true
  pub fresh : IsFresh (env.uuid (suc (suc (suc (suc s.moment))))) s.db

-- The reply to the attempt: that of the provider, or the error of an open circuit.
abbrev pub reply_if : Outcome (Unit {0}) → Outcome ProviderResult → Outcome ProviderResult
reply_if (ok _) reply = reply
reply_if (err _) reply = err err_transient

module _ (env : Env) (cfg : Config) where
  -- The delivery that is sent, the attempt, and the system at that moment.
  abbrev pub claimed : Delivery → System → Delivery
  claimed d s = record d { status = processing; updated_at = env.clock (suc s.moment) }

  abbrev pub attempt : Delivery → System → Attempt
  attempt d s =
      new_attempt (env.uuid (suc (suc (suc (suc s.moment))))) (env.clock (suc s.moment))
        (claimed d s)

  abbrev pub reply_to : Delivery → System → Outcome ProviderResult
  reply_to d s =
      reply_if (allow (env.clock (suc (suc (suc s.moment)))) (s.breakers d.channel)).0
        (env.provider (suc (suc (suc (suc (suc s.moment))))) (claimed d s))

  -- The system in which a delivery is sent, from the one in which it is claimed.
  abbrev pub let_through : Delivery → System → System
  let_through d s =
      record (with_breaker d.channel (allow (env.clock s.moment) (s.breakers d.channel)).1 s) {
        moment = suc s.moment;
      }

  -- The reply, and the system after it.
  abbrev pub replied : Delivery → System → Outcome ProviderResult × System
  replied d s =
      let s₂ = record (let_through d s) { moment = suc (suc s.moment) } in
      let (r, s') = provided (env.provider s₂.moment d) d s₂ in
      (r, record s' { moment = suc s₂.moment })

  pub refused_circuit :
      (now : ℕ) (d : Delivery) (s : System) (e : Failure)
      → cfg.has_provider d.channel ≡ true
      → (allow (env.clock s.moment) (s.breakers d.channel)).0 ≡ err e
      → exec (calm env) (deliver cfg now d) s
        ≡ exec
            (calm env)
            (handle_failure cfg d (new_attempt (env.uuid (suc s.moment)) now d) err_transient)
            (record (let_through d s) { moment = suc (suc s.moment) })
  unfolding deliver exec perform
  refused_circuit now d s e has closed = rw has (
      ap (λ (r : Outcome (Unit {0})). exec (calm env) (on_allowed cfg now d r) (let_through d s))
        closed)

  pub deliver_ready :
      (now : ℕ) (d : Delivery) (s : System)
      → cfg.has_provider d.channel ≡ true
      → (allow (env.clock s.moment) (s.breakers d.channel)).0 ≡ ok tt
      → exec (calm env) (deliver cfg now d) s
        ≡ exec
            (calm env)
            (on_reply cfg d (new_attempt (env.uuid (suc s.moment)) now d) (replied d s).0)
            (replied d s).1
  unfolding deliver exec perform
  deliver_ready now d s has allowed = rw has (
      ap (λ (r : Outcome (Unit {0})). exec (calm env) (on_allowed cfg now d r) (let_through d s))
        allowed)

  -- The system in which the delivery is claimed.
  abbrev pub claimed_system : Delivery → System → System
  claimed_system d s = record s {
    db = record s.db {
      deliveries = overwrite (has_id_and_status d.id d.status) (claimed d s) s.db.deliveries;
    };
    moment = suc (suc (suc s.moment));
  }

  start_ready :
      (d : Delivery) (st : DeliveryStatus) (now : ℕ)
      → is_claimable st ≡ true
      → processing_from st now d ≡ ok (record d { status = processing; updated_at = now })
  start_ready d queued now h = refl
  start_ready d retrying now h = refl
  start_ready d _ now h = cc

  not_ended :
      (st : DeliveryStatus)
      → is_claimable st ≡ true
      → (status_eq st succeeded ≡ false) × (status_eq st dlq ≡ false)
  unfolding status_eq
  not_ended queued h = (refl, refl)
  not_ended retrying h = (refl, refl)
  not_ended _ h = cc

  -- The claim, from a start that succeeds.
  claim_ready :
      (d : Delivery) (s : System)
      → find_delivery d.id s.db.deliveries ≡ some d
      → exec
          (calm env)
          (on_started cfg (env.clock (suc s.moment)) d (ok (claimed d s)))
          (record s { moment = suc (suc s.moment) })
        ≡ exec
            (calm env)
            (deliver cfg (env.clock (suc s.moment)) (claimed d s))
            (claimed_system d s)
  unfolding exec perform update_if_status
  claim_ready d s found =
      ap
        (λ (b : Bool).
          exec (calm env)
            (if not b then done tt else deliver cfg (env.clock (suc s.moment)) (claimed d s))
            (claimed_system d s))
        (claim_found d.id (claimed d s) d s.db.deliveries found).0

  -- What follows the delivery that is found.
  abbrev pub on_row : Delivery → Prog (Unit {0})
  on_row d =
      if status_eq d.status succeeded
      then done tt
      else if status_eq d.status dlq
      then done tt
      else act Op.now >>= λ now. on_started cfg now d (start_processing now d)

  row_ready :
      (d : Delivery) (s : System)
      → is_claimable d.status ≡ true
      → exec (calm env) (on_row d) (record s { moment = suc s.moment })
        ≡ exec
            (calm env)
            (on_started cfg (env.clock (suc s.moment)) d (ok (claimed d s)))
            (record s { moment = suc (suc s.moment) })
  unfolding exec perform start_processing
  row_ready d s claimable =
      let (open_end, not_dead) = not_ended d.status claimable in
      rw (open_end, not_dead)
        (ap
          (λ (r : Outcome Delivery).
            exec (calm env) (on_started cfg (env.clock (suc s.moment)) d r)
              (record s { moment = suc (suc s.moment) }))
          (start_ready d d.status (env.clock (suc s.moment)) claimable))

  pub dispatch_ready :
      (d : Delivery) (s : System)
      → IsReady env cfg s d
      → exec (calm env) (dispatch cfg d.id) s
        ≡ exec
            (calm env)
            (deliver cfg (env.clock (suc s.moment)) (claimed d s))
            (claimed_system d s)
  unfolding dispatch exec perform find_by_id
  dispatch_ready d s ready =
      ap
        (λ (r : Option Delivery).
          exec (calm env) (settle (or_failure r no_rows) >>= on_row)
            (record s { moment = suc s.moment }))
        ready.found
      ∙ row_ready d s ready.claimable
      ∙ claim_ready d s ready.found
