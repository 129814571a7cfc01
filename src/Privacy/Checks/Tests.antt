-- ===== src/Privacy/Checks/Tests.antt =====
-- The checks of numbers at concrete texts.
use Prim.Native.Char.{code}
use Prim.Native.String.{String}
use gateway_llm.Prelude.{
  ℕ, ◌≡◌, ◌↔◌, ◌≤◌, ◌%◌, some, take, drop, length, refl, true, false, List, [], ◌∷◌, ◌++◌, arith,
}
use gateway_llm.Privacy.Checks.{
  luhn_valid, iban_valid, to_upper, drop_spaces, decimal_fuel, expand, value,
}
use gateway_llm.Privacy.Checks.Iban.{iban_valid_iff}
use gateway_llm.Privacy.Checks.Luhn.{luhn_valid-one_error}

abbrev codes : String → List ℕ
codes String.[] = []
codes (String.◌∷◌ c s) = code c ∷ codes s

card_passes : luhn_valid (codes "4111 1111-1111 1111") ≡ true
unfolding luhn_valid
card_passes = refl

luhn_valid-one_error_example : luhn_valid (codes "4111 1111-" ++ b'7' ∷ codes "111 1111") ≡ false
luhn_valid-one_error_example =
    luhn_valid-one_error (codes "4111 1111-") (codes "111 1111") b'1' b'7' refl refl (omega arith)
      card_passes

iban_passes : iban_valid (codes "GB82 WEST 1234 5698 7654 32") ≡ true
unfolding iban_valid decimal_fuel
iban_passes = refl

iban_fails : iban_valid (codes "GB82 WEST 1234 5698 7654 33") ≡ false
unfolding iban_valid decimal_fuel
iban_fails = refl

iban_valid_iff_example :
    (let up = to_upper (drop_spaces (codes "de89370400440532013000")) in
      (iban_valid (codes "de89370400440532013000") ≡ true) ↔ (
        (15 ≤ length up)
        × (length up ≤ 34)
        × ((ds : List ℕ) × (expand (drop 4 up ++ take 4 up) ≡ some ds) × (value 0 ds % 97 ≡ 1))))
iban_valid_iff_example = iban_valid_iff (codes "de89370400440532013000")
