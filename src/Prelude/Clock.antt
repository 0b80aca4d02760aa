-- ===== src/Prelude/Clock.antt =====
-- Go's package `time`, as far as the sources use it. A `time.Time` is the number of nanoseconds
-- since the zero time, so `IsZero` is a test for 0. A `time.Duration` is an int64 of nanoseconds.
use Prim.Native.Nat.{ℕ, ◌-◌, ◌^◌, ◌≤◌, min}
use mathlib.Core.Bool.{Bool}
use native.Mathlib.Omega.{arith}
use onramp.Prelude.Tests.{◌==◌}

-- `time.Millisecond`, in nanoseconds
abbrev pub millisecond : ℕ
millisecond = 1_000_000

-- The largest duration, at which `Sub` saturates.
abbrev pub max_duration : ℕ
max_duration = 2 ^ 63 - 1

-- `now.Sub(t)`, and so `time.Since(t)`. A time that lies ahead gives 0 here and a negative duration
-- in Go; the sources compare the result with positive durations and treat a negative one as 0.
abbrev pub since : ℕ → ℕ → ℕ
since now t = min (now - t) max_duration

abbrev pub is_zero : ℕ → Bool
is_zero t = t == 0

pub since-le : (now t : ℕ) → since now t ≤ max_duration
since-le now t = omega arith
