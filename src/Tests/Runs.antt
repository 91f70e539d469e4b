-- ===== src/Tests/Runs.antt =====
-- Runs of web/src/lib/loadTest.ts: three requests, two workers, and the replies out of order.
use gocourier.Common.{◌≡◌, refl, ◌↔◌, ◌≤◌, Option, true, some, arith, ◌+◌, min, get_elem?, ℕ, total}
use gocourier.Api.Types.{SendNotificationReq}
use gocourier.LoadTest.Run.{
  Pool, Reach, begin, then_settle, settle, start, spawn, take_next, limit, notify, finish,
  in_flight, run_sequential,
}
use gocourier.LoadTest.Run.Claim.{build_all}
use gocourier.LoadTest.Run.Complete.{
  outstanding, Completed, Reach-accounts, Reach-awaits, Reach-finished, run_parallel-ends,
  Continues, run_parallel-Completed,
}
use gocourier.LoadTest.Run.Sequential.{run_sequential-Completed, run_parallel-agrees}
use gocourier.Tests.Data.{browser, replies, timer, burst_build}

abbrev pool_1 : Pool (Option SendNotificationReq)
pool_1 = settle burst_build timer true 3 1 (replies 1) (start burst_build timer true 3 2 browser)

abbrev pool_2 : Pool (Option SendNotificationReq)
pool_2 = settle burst_build timer true 3 1 (replies 2) pool_1

abbrev pool_3 : Pool (Option SendNotificationReq)
pool_3 = settle burst_build timer true 3 0 (replies 0) pool_2

Reach-pool_1 : Reach burst_build timer true 3 2 browser replies 1 pool_1
unfolding start spawn limit take_next
Reach-pool_1 = then_settle begin 1 1 refl

Reach-pool_2 : Reach burst_build timer true 3 2 browser replies 2 pool_2
unfolding start spawn limit take_next settle notify
Reach-pool_2 = then_settle Reach-pool_1 1 2 refl

Reach-pool_3 : Reach burst_build timer true 3 2 browser replies 3 pool_3
unfolding start spawn limit take_next settle notify
Reach-pool_3 = then_settle Reach-pool_2 0 0 refl

none_left : outstanding pool_3 ≡ 0
unfolding start spawn limit take_next settle notify total
none_left = refl

Reach-accounts_example :
    (pool_2.result.ok + pool_2.result.fail + pool_2.result.duplicates ≡ 2)
    × (pool_2.result.total ≡ 3)
    × (2 + outstanding pool_2 ≡ min (limit burst_build timer true 3 2 + 2) 3)
    × (outstanding pool_2 ≤ limit burst_build timer true 3 2)
    × (pool_2.sent
        ≡ (build_all burst_build (min (limit burst_build timer true 3 2 + 2) 3) browser).0)
Reach-accounts_example = Reach-accounts burst_build timer true 3 2 browser replies Reach-pool_2

Reach-awaits_example : (k i : ℕ) × (get_elem? pool_2.workers k ≡ some (in_flight i))
Reach-awaits_example =
    Reach-awaits burst_build timer true 3 2 browser replies Reach-pool_2 (omega arith)

Reach-finished_example : ((outstanding pool_3 ≡ 0) ↔ (◌≡◌ {A = ℕ} 3 3)) × (3 ≤ 3)
Reach-finished_example = Reach-finished burst_build timer true 3 2 browser replies Reach-pool_3

run_parallel-ends_example :
    (t : Pool (Option SendNotificationReq)) × Continues burst_build timer true 3 replies pool_2 1 t
    × Reach burst_build timer true 3 2 browser replies 3 t
    × (outstanding t ≡ 0)
run_parallel-ends_example =
    run_parallel-ends burst_build timer true 3 2 browser replies Reach-pool_2

run_parallel-Completed_example :
    Completed burst_build 3 browser replies (finish burst_build timer true 3 pool_3) pool_3.sent
run_parallel-Completed_example =
    run_parallel-Completed burst_build timer true 3 2 browser replies Reach-pool_3 none_left

run_parallel-agrees_example :
    (pool_3.sent ≡ (run_sequential burst_build timer true 3 5 replies browser).sent)
    × (pool_3.result.ok ≡ (run_sequential burst_build timer true 3 5 replies browser).result.ok)
    × (pool_3.result.fail ≡ (run_sequential burst_build timer true 3 5 replies browser).result.fail)
    × (pool_3.result.duplicates
        ≡ (run_sequential burst_build timer true 3 5 replies browser).result.duplicates)
run_parallel-agrees_example =
    run_parallel-agrees burst_build timer true 3 5 browser replies Reach-pool_3 none_left

run_sequential-Completed_example :
    Completed burst_build 3 browser replies
      (run_sequential burst_build timer true 3 5 replies browser).result
      (run_sequential burst_build timer true 3 5 replies browser).sent
run_sequential-Completed_example =
    run_sequential-Completed burst_build timer true 3 5 browser replies
