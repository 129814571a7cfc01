-- ===== src/Prelude/Floats.antt =====
-- The arithmetic of float64, which is the processor's: a parameter.
use Prim.Native.Nat.{ℕ}
use mathlib.Core.Path.{◌≡◌}
use mathlib.Core.Bool.{Bool, true, false}
use gateway_llm.Prelude.Int.{ℤ}

-- `ratio n d` is the float64 nearest to n / d, and `of_int n` is float64(n).
pub record Floats (F : Type 0) : Type 0 where
  pub ratio : ℕ → ℕ → F
  pub of_int : ℤ → F
  pub plus : F → F → F
  pub minus : F → F → F
  pub times : F → F → F
  pub quotient : F → F → F
  pub sqrt : F → F
  pub less : F → F → Bool
  pub equal : F → F → Bool

abbrev pub zero_float : {F : Type 0} → Floats F → F
zero_float fl = fl.ratio 0 1

-- The order of IEEE 754, not-a-numbers included: nothing is below itself, and it is transitive.
pub record IsOrder {F : Type 0} (fl : Floats F) : Type 0 where
  pub irreflexive : (a : F) → fl.less a a ≡ false
  pub transitive : (a b c : F) → fl.less a b ≡ true → fl.less b c ≡ true → fl.less a c ≡ true
