-- ===== src/Common/Int.antt =====
-- The integers: `negsuc n` is -(n + 1).
use Prim.Native.Nat.{ℕ, zero, suc, ◌-◌, ◌^◌, ◌%◌}
use mathlib.Core.Bool.{Bool, true, false}
use hayward.Common.Tests.{◌==◌, ltb, if◌then◌else◌}

pub data ℤ : Type 0 where
  pos : ℕ → ℤ
  negsuc : ℕ → ℤ

-- `n <= 0`, the test that a C comparison function's result is put to.
abbrev pub is_nonpos : ℤ → Bool
is_nonpos (pos zero) = true
is_nonpos (pos (suc n)) = false
is_nonpos (negsuc n) = true

abbrev pub same_int : ℤ → ℤ → Bool
same_int (pos a) (pos b) = a == b
same_int (negsuc a) (negsuc b) = a == b
same_int _ _ = false

-- INT_MIN of a 32-bit `int`.
abbrev pub int_min : ℤ
int_min = negsuc 2147483647

-- A `long` that is stored in an uint32_t or an `int` is taken modulo 2^32.
abbrev pub to_uint32 : ℤ → ℕ
to_uint32 (pos a) = a % 2 ^ 32
to_uint32 (negsuc a) = 2 ^ 32 - 1 - a % 2 ^ 32

unfoldable pub to_int32 : ℤ → ℤ
to_int32 i = let a = to_uint32 i in if ltb a (2 ^ 31) then pos a else negsuc (2 ^ 32 - 1 - a)
