-- ===== src/Prelude/Int64.antt =====
-- Go's `int` and `time.Duration` on a 64-bit platform: integers that wrap modulo 2^64.
use Prim.Native.Nat.{ℕ, ◌-◌, ◌%◌, ◌≤◌}
use mathlib.Core.Path.{◌≡◌}
use native.Mathlib.Omega.{arith}
use kopiochi.Prelude.Tests.{ltb, if◌then◌else◌}
use kopiochi.Prelude.Int.{ℤ, pos, negsuc, pos_part, neg_part, ◌+ℤ◌, ◌<ℤ◌}

-- math.MaxInt64
abbrev pub max_int64 : ℕ
max_int64 = 9223372036854775807

-- The integer in [-2^63, 2^63) that a 64-bit pattern stands for.
abbrev signed64 : ℕ → ℤ
signed64 m = if ltb m 9223372036854775808 then pos m else negsuc (18446744073709551616 - m - 1)

-- Two's complement wrap-around.
unfoldable pub wrap64 : ℤ → ℤ
wrap64 (pos n) = signed64 (n % 18446744073709551616)
wrap64 (negsuc n) = signed64 (18446744073709551615 - n % 18446744073709551616)

abbrev pub InInt64 : ℤ → Type 0
InInt64 z = (pos_part z ≤ max_int64) × (neg_part z ≤ 9223372036854775808)

pub wrap64_id : (z : ℤ) → InInt64 z → wrap64 z ≡ z
unfolding wrap64
wrap64_id (pos n) h = ground arith
wrap64_id (negsuc n) h = ground arith

pub wrap64-InInt64 : (z : ℤ) → InInt64 (wrap64 z)
unfolding wrap64
wrap64-InInt64 (pos n) = ground arith
wrap64-InInt64 (negsuc n) = ground arith

-- `n++` on an `int`.
abbrev pub inc : ℤ → ℤ
inc z = wrap64 (z +ℤ pos 1)

pub inc_lem : (z : ℤ) → InInt64 z → z <ℤ pos max_int64 → inc z ≡ z +ℤ pos 1
unfolding ◌+ℤ◌
inc_lem (pos n) r h = wrap64_id _ (ground arith)
inc_lem (negsuc n) r h = wrap64_id _ (ground arith)
