-- ===== src/Common/Int.antt =====
-- Signed integers, for the `int` and `time.Duration` values that the code compares with zero.
use Prim.Native.Nat.{ℕ, zero, suc, ◌+◌, ◌-◌, ◌%◌, ◌^◌}
use mathlib.Core.Bool.{Bool, true, false}
use gokit_services.Common.Tests.{ltb, if◌then◌else◌}

-- `negsuc n` is -(n + 1).
pub data ℤ : Type 0 where
  pos : ℕ → ℤ
  negsuc : ℕ → ℤ

-- `0 < d`
abbrev pub is_positive : ℤ → Bool
is_positive (pos zero) = false
is_positive (pos (suc n)) = true
is_positive (negsuc n) = false

-- The value, with what lies below zero put at zero.
abbrev pub to_ℕ : ℤ → ℕ
to_ℕ (pos n) = n
to_ℕ (negsuc n) = 0

-- `int64` in two's complement, and its addition, which wraps.
abbrev pub to_word64 : ℤ → ℕ
to_word64 (pos n) = n % 2 ^ 64
to_word64 (negsuc n) = 2 ^ 64 - 1 - n % 2 ^ 64

abbrev pub from_word64 : ℕ → ℤ
from_word64 n = if ltb n (2 ^ 63) then pos n else negsuc (2 ^ 64 - 1 - n)

abbrev pub add_int64 : ℤ → ℤ → ℤ
add_int64 x y = from_word64 ((to_word64 x + to_word64 y) % 2 ^ 64)
