-- ===== src/Server/Retry.antt =====
-- pkg/retry/backoff.go: the delay before an attempt is made again, in nanoseconds.
pub mod Bounds
use gocourier.Common.{
  ℕ, ◌+◌, ◌-◌, ◌*◌, ◌/◌, ◌%◌, ◌^◌, ◌<◌, Option, none, some, if◌then◌else◌, ltb, leb, max, min,
}

-- The product of two `time.Duration`s, as a pattern of 64 bits; `1 << k` is 0 from k = 64 on, as is
-- `2 ^ k` modulo `2 ^ 64`.
unfoldable pub product64 : ℕ → ℕ → ℕ
product64 base k = base * 2 ^ k % 2 ^ 64

-- `Delay`, for a base and a maximum that are not negative; `int63n` is `rand.Int63n`. A product whose
-- sign bit is set is negative, hence below the maximum, and its half is not positive. `none` is the
-- panic of `Int63n` at an argument that is not positive.
unfoldable pub delay : (ℕ → ℕ) → ℕ → ℕ → ℕ → Option ℕ
unfolding product64
delay int63n attempt base maximum =
    let product = product64 base (max attempt 1 - 1) in
    let d = if ltb maximum product then maximum else product in
    if leb (2 ^ 63) product then none else if ltb 1 d then some (d + int63n (d / 2)) else none
