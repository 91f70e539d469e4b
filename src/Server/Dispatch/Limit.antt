-- ===== src/Server/Dispatch/Limit.antt =====
-- How long a dispatch is repeated, and what it refuses.
use gocourier.Common.{
  ℕ, suc, ◌+◌, ◌-◌, ◌≤◌, ◌<◌, ◌≡◌, refl, true, false, ◌||◌, ◌⊎◌, inl, inr, Option, some, List, [],
  ◌∷◌, String, max, leb, Bool-cases, arith, ap, sym, subst, ◌∙◌,
}
use gocourier.Api.Types.{
  DeliveryStatus, pending, queued, retrying, status_text, succeeded, dlq, status_eq,
}
use gocourier.Server.Failures.{Failure, Outcome, ok, err, is_permanent, errorf}
use gocourier.Server.Delivery.{Delivery, ProviderResult, start_processing}
use gocourier.Server.Ports.{settle, ◌>>=◌}
use gocourier.Server.Postgres.{find_delivery, find_by_id, or_failure, no_rows}
use gocourier.Server.Run.{Env, System, perform, exec}
use gocourier.Server.Workers.Protocol.{is_claimable}
use gocourier.Server.Dispatch.{Config, dispatch}
use gocourier.Server.Dispatch.Calm.{calm}
use gocourier.Server.Dispatch.Calm.Whole.{IsReady, reply_to, on_row}
use gocourier.Server.Dispatch.Endings.{EndsAs, end_of}
use gocourier.Server.Dispatch.Ends.{dispatch-EndsAs}

-- Dispatches of a delivery, one after another, each of which finds it ready and fails.
pub data Failing (env : Env) (cfg : Config) (id : String) (s : System) : ℕ → System → Type 0 where
  begin : Failing env cfg id s 0 s
  again :
      {n : ℕ} {t : System}
      → Failing env cfg id s n t
      → (row : Delivery) → row.id ≡ id
      → IsReady env cfg t row
      → (e : Failure) → reply_to env cfg row t ≡ err e
      → Failing env cfg id s (suc n) (exec (calm env) (dispatch cfg id) t).1

-- The attempts that are left to a delivery with so many retries.
abbrev pub attempts_left : ℕ → ℕ → ℕ
attempts_left limit count = max 1 (limit - count)

-- The row after so many failures.
abbrev pub IsAfter : Config → Delivery → ℕ → Delivery → Type 0
IsAfter cfg d n row =
    (row.status ≡ dlq)
    ⊎ ((row.retry_count ≡ d.retry_count + n) × (n < attempts_left cfg.max_attempts d.retry_count))

-- One failure more.
fails_again :
    (limit count n : ℕ) (e : Failure) (row : Delivery)
    → n < attempts_left limit count
    → row.status ≡ (end_of limit (count + n) (err e)).status
    → row.retry_count ≡ (end_of limit (count + n) (err e)).retry_count
    → (row.status ≡ dlq) ⊎ ((row.retry_count ≡ count + suc n) × (suc n < attempts_left limit count))
unfolding end_of
fails_again limit count n e row below status retries =
    elim (Bool-cases (is_permanent e || leb limit (count + n + 1))) [
      | inl over ↦ let s : row.status ≡ dlq = rw over at status in inl s
      | inr more ↦
          let r : row.retry_count ≡ suc (count + n) = rw more at retries in
          inr (omega (arith, r), ground (arith, more))
    ]

not_dead : (st : DeliveryStatus) → st ≡ dlq → is_claimable st ≡ true → ⊥
not_dead dlq e h = cc
not_dead _ e h = cc

abbrev Holds : Config → Delivery → ℕ → System → Type 0
Holds cfg d n t =
    (row : Delivery) × (find_delivery d.id t.db.deliveries ≡ some row)
    × IsAfter cfg d n row
    × (n ≤ attempts_left cfg.max_attempts d.retry_count)

module _ (env : Env) (cfg : Config) (d : Delivery) where
  -- The row that a dispatch finds, which can be claimed, is not in the dead letter queue.
  counted :
      (n : ℕ) (before row : Delivery) (ds : List Delivery)
      → find_delivery d.id ds ≡ some before
      → IsAfter cfg d n before
      → find_delivery d.id ds ≡ some row
      → is_claimable row.status ≡ true
      → (row.retry_count ≡ d.retry_count + n) × (n < attempts_left cfg.max_attempts d.retry_count)
  counted n before row ds was (inl dead) found claimable =
      let same : before ≡ row = cc in
      absurd (not_dead row.status (ap (λ (x : Delivery). x.status) (sym same) ∙ dead) claimable)
  counted n before row ds was (inr (count, below)) found claimable =
      let same : before ≡ row = cc in
      (ap (λ (x : Delivery). x.retry_count) (sym same) ∙ count, below)

  failed_once :
      (n : ℕ) (t : System) (row : Delivery) (e : Failure)
      → Holds cfg d n t
      → row.id ≡ d.id
      → IsReady env cfg t row
      → reply_to env cfg row t ≡ err e
      → Holds cfg d (suc n) (exec (calm env) (dispatch cfg d.id) t).1
  failed_once n t row e (before, was, after, _) same ready fails =
      let found =
        subst (λ (j : String). find_delivery j t.db.deliveries ≡ some row) same ready.found in
      let (count, below) = counted n before row t.db.deliveries was after found ready.claimable in
      let ended =
        subst
          (λ (c : ℕ).
            EndsAs d.id c t.sent t.db.delivery_attempts (end_of cfg.max_attempts c (err e))
              (exec (calm env) (dispatch cfg d.id) t))
          count
          (subst
            (λ (r : Outcome ProviderResult).
              EndsAs d.id row.retry_count t.sent t.db.delivery_attempts
                (end_of cfg.max_attempts row.retry_count r) (exec (calm env) (dispatch cfg d.id) t))
            fails
            (subst
              (λ (j : String).
                EndsAs j row.retry_count t.sent t.db.delivery_attempts
                  (end_of cfg.max_attempts row.retry_count (reply_to env cfg row t))
                  (exec (calm env) (dispatch cfg j) t))
              same (dispatch-EndsAs env cfg row t ready))) in
      (
        ended.row,
        ended.found,
        fails_again cfg.max_attempts d.retry_count n e ended.row below ended.status_is
            ended.retry_count_is,
        below,
      )

  Failing-Holds :
      {s t : System} {n : ℕ}
      → find_delivery d.id s.db.deliveries ≡ some d
      → Failing env cfg d.id s n t
      → Holds cfg d n t
  Failing-Holds found begin = (d, found, inr (omega arith, omega arith), omega arith)
  Failing-Holds found (again run row same ready e fails) =
      failed_once _ _ row e (Failing-Holds found run) same ready fails

-- A delivery whose attempts all fail is attempted at most as often as the limit leaves, or once where it leaves
-- none. Its row is in the dead letter queue, or its retry count has grown by the number of attempts and
-- attempts are left. Each attempt is a dispatch that finds the delivery ready, its calls without fault.
pub Failing-bound :
    (env : Env) (cfg : Config) (d : Delivery) (s t : System) (n : ℕ)
    → find_delivery d.id s.db.deliveries ≡ some d
    → Failing env cfg d.id s n t
    → (row : Delivery) × (find_delivery d.id t.db.deliveries ≡ some row)
      × IsAfter cfg d n row
      × (n ≤ attempts_left cfg.max_attempts d.retry_count)
Failing-bound env cfg d s t n found run = Failing-Holds env cfg d found run

-- The answer to the broker where there is nothing to claim.
abbrev pub refusal : DeliveryStatus → Outcome (Unit {0})
refusal succeeded = ok tt
refusal dlq = ok tt
refusal st = err (errorf ("cannot process from status " ∷ status_text st ∷ []))

-- What follows the delivery that is found, by its status.
refused_row :
    (env : Env) (cfg : Config) (d : Delivery) (st : DeliveryStatus) (s : System)
    → d.status ≡ st
    → is_claimable st ≡ false
    → let (r, s') = exec (calm env) (on_row env cfg d) s in
      (r ≡ refusal st) × (s'.db ≡ s.db) × (s'.sent ≡ s.sent) × (s'.published ≡ s.published)
unfolding exec perform start_processing status_eq
refused_row env cfg d pending s eq h = rw eq (refl, refl, refl, refl)
refused_row env cfg d queued s eq h = cc
refused_row env cfg d retrying s eq h = cc
refused_row env cfg d _ s eq h = rw eq (refl, refl, refl, refl)

-- Where no call fails: a dispatch of a delivery in the tables that is neither queued nor retrying changes no
-- table, sends nothing and publishes nothing. A delivery that has succeeded or is in the dead letter queue is acknowledged; any other is
-- refused, also one that is processing, as a claim leaves it whose worker has ended.
pub dispatch-refusal :
    (env : Env) (cfg : Config) (d : Delivery) (s : System)
    → find_delivery d.id s.db.deliveries ≡ some d
    → is_claimable d.status ≡ false
    → let (r, s') = exec (calm env) (dispatch cfg d.id) s in
      (r ≡ refusal d.status) × (s'.db ≡ s.db) × (s'.sent ≡ s.sent) × (s'.published ≡ s.published)
unfolding dispatch exec perform find_by_id
dispatch-refusal env cfg d s found h =
    subst
      (λ (o : Option Delivery).
        let (r, s') =
          exec (calm env) (settle (or_failure o no_rows) >>= on_row env cfg)
            (record s { moment = suc s.moment }) in
        (r ≡ refusal d.status) × (s'.db ≡ s.db) × (s'.sent ≡ s.sent) × (s'.published ≡ s.published))
      (sym found) (refused_row env cfg d d.status (record s { moment = suc s.moment }) refl h)
