-- ===== src/Ops/StatsBar/Backlog.antt =====
-- When the counter of web/src/components/ops/StatsBar.tsx for the outbox turns red, and which
-- statuses the bar lists.
use gocourier.Common.{
  ℕ, ◌+◌, ◌*◌, ◌≤◌, ◌<◌, ◌≡◌, refl, ◌↔◌, true, Option, none, some, arith, all, ◌==◌,
}
use gocourier.Api.Types.{
  DeliveryStatus, pending, queued, processing, retrying, succeeded, failed, dlq, cancelled,
  rejected,
}
use gocourier.Ops.StatsBar.{
  Stale, not_stale, value_changed, stale_tick, outbox_alert, status_order, count_of,
}

-- The times at which the effect and the timer run, which never go back, and what they do.
-- `Runs now s b`: the state at time `now`, where `b` is when the backlog became positive.
pub data Runs : ℕ → Stale → Type 0 where
  mounted : (now : ℕ) → Runs now not_stale
  changed :
      {t : ℕ} {s : Stale}
      → Runs t s
      → (now value : ℕ) → t ≤ now
      → Runs now (value_changed value now s)
  ticked : {t : ℕ} {s : Stale} → Runs t s → (now : ℕ) → t ≤ now → Runs now (stale_tick now s)

-- The start is remembered exactly while the backlog is positive; it lies in the past, and the seconds
-- that are shown had passed since then.
abbrev IsTimedFrom : Option ℕ → ℕ → Stale → Type 0
IsTimedFrom none now s = (s.value ≡ 0) × (s.seconds ≡ 0)
IsTimedFrom (some t) now s = (0 < s.value) × (t + s.seconds * 1000 ≤ now)

Runs-IsTimed : {now : ℕ} {s : Stale} → Runs now s → IsTimedFrom s.started_at now s
unfolding value_changed stale_tick
Runs-IsTimed (mounted now) = (refl, refl)
Runs-IsTimed (changed r now value h) = let v = Runs-IsTimed r in ground arith
Runs-IsTimed (ticked r now h) = let v = Runs-IsTimed r in ground arith

-- The alarm is raised only where the backlog has been positive for more than thirty seconds: it is
-- positive, and its start, which every change to 0 forgets, is at least 31 seconds ago.
pub outbox_alert-late :
    {now : ℕ} {s : Stale}
    → Runs now s
    → outbox_alert s.value s.seconds ≡ true
    → (t : ℕ) × (s.started_at ≡ some t) × (0 < s.value) × (t + 31000 ≤ now)
unfolding outbox_alert
outbox_alert-late {now} {s} r h = by_start s.started_at refl (Runs-IsTimed r)
  where
    by_start :
        (o : Option ℕ)
        → s.started_at ≡ o
        → IsTimedFrom o now s
        → (t : ℕ) × (s.started_at ≡ some t) × (0 < s.value) × (t + 31000 ≤ now)
    by_start none e v = absurd (ground arith)
    by_start (some t) e v = (t, e, v.0, ground arith)

-- The bar says that there are no deliveries exactly when no status at all has a count: no status is
-- left out of its order.
pub status_order_complete :
    (counts : DeliveryStatus → Option ℕ)
    → (all (λ s. count_of counts s == 0) status_order ≡ true)
      ↔ ((s : DeliveryStatus) → count_of counts s ≡ 0)
status_order_complete counts = (
  λ h s. listed h s,
  λ h. ground (
    arith,
    h pending,
    h queued,
    h processing,
    h retrying,
    h succeeded,
    h failed,
    h dlq,
    h cancelled,
    h rejected,
  ),
)
  where
    listed :
        all (λ s. count_of counts s == 0) status_order ≡ true
        → (s : DeliveryStatus) → count_of counts s ≡ 0
    listed h pending = ground arith
    listed h _ = ground arith
