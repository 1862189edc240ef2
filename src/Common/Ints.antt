-- ===== src/Common/Ints.antt =====
-- 32-bit integers as patterns of bits.
use tom_libs.Common.Tests.{ltb}
use Prim.Native.Nat.{ℕ, ◌+◌, ◌%◌, ◌^◌}
use mathlib.Core.Bool.{Bool}

abbrev pub u32_mod : ℕ
u32_mod = 2 ^ 32

-- `a < b` on `int`
abbrev pub int_lt : ℕ → ℕ → Bool
int_lt a b = ltb ((a + 2 ^ 31) % u32_mod) ((b + 2 ^ 31) % u32_mod)
