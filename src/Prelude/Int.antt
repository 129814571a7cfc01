-- ===== src/Prelude/Int.antt =====
-- The signed integers of Go (`int`, `int32`, `int64`), over the native numbers.
use Prim.Native.Nat.{ℕ, suc, ◌+◌, ◌%◌, ◌-◌}
use mathlib.Core.Bool.{Bool}
use gateway_llm.Prelude.Tests.{ltb, leb, ◌==◌}

-- `negsuc n` is -(n + 1).
pub data ℤ : Type 0 where
  pos : ℕ → ℤ
  negsuc : ℕ → ℤ

abbrev pub pos_part : ℤ → ℕ
pos_part (pos n) = n
pos_part (negsuc n) = 0

abbrev pub neg_part : ℤ → ℕ
neg_part (pos n) = 0
neg_part (negsuc n) = suc n

abbrev pub ltb_ℤ : ℤ → ℤ → Bool
ltb_ℤ a b = ltb (pos_part a + neg_part b) (pos_part b + neg_part a)

abbrev pub eq_ℤ : ℤ → ℤ → Bool
eq_ℤ a b = (pos_part a + neg_part b) == (pos_part b + neg_part a)

-- x <= 0
abbrev pub nonpos : ℤ → Bool
nonpos a = leb (pos_part a) 0

-- An int32 is kept as its bit pattern, a number below 2 ^ 32.
abbrev pub u32_mod : ℕ
u32_mod = 4294967296

-- int32(x)
abbrev pub to_int32 : ℤ → ℕ
to_int32 (pos n) = n % u32_mod
to_int32 (negsuc n) = u32_mod - 1 - n % u32_mod

-- a + b on int32
abbrev pub add_int32 : ℕ → ℕ → ℕ
add_int32 a b = (a + b) % u32_mod

-- a >= b on int32: flipping the sign bit turns the signed order into the order of the patterns.
abbrev pub ge_int32 : ℕ → ℕ → Bool
ge_int32 a b = leb ((b + 2147483648) % u32_mod) ((a + 2147483648) % u32_mod)
