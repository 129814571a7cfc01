-- ===== src/Privacy/Checks.antt =====
-- The checks of card and bank account numbers in backend/internal/privacy/redactor.go. A text is
-- the list of its code points; the texts are those that the two ASCII patterns match.
pub mod Luhn
pub mod Iban
mod Tests
use mathlib.Core.List.{reverse, filter}
use Prim.Native.String.{◌++◌ as str_append}
use gateway_llm.Prelude.{
  ℕ, zero, suc, ◌+◌, ◌-◌, ◌*◌, ◌/◌, ◌%◌, Bool, true, false, not, ◌&&◌, ◌||◌, Option, none, some,
  List, [], ◌∷◌, ◌++◌, length, take, drop, ltb, leb, ◌==◌, if◌then◌else◌,
}

-- r >= '0' && r <= '9'
abbrev pub is_digit : ℕ → Bool
is_digit c = leb b'0' c && leb c b'9'

-- The digits of a text.
unfoldable pub digits : List ℕ → List ℕ
digits [] = []
digits (c ∷ s) = let rest = digits s in if is_digit c then (c - b'0') ∷ rest else rest

-- d, or d doubled with its digits added.
abbrev pub weigh : Bool → ℕ → ℕ
weigh alt d = if alt then (if ltb 9 (d * 2) then d * 2 - 9 else d * 2) else d

-- The loop over the digits from the last one on.
unfoldable pub luhn_sum : Bool → List ℕ → ℕ
luhn_sum alt [] = 0
luhn_sum alt (d ∷ ds) = weigh alt d + luhn_sum (not alt) ds

-- luhnValid
unfoldable pub luhn_valid : List ℕ → Bool
unfolding digits luhn_sum
luhn_valid s =
    let ds = digits s in
    if ltb (length ds) 13 || ltb 19 (length ds)
    then false
    else luhn_sum false (reverse ds) % 10 == 0

-- strings.ReplaceAll(s, " ", "")
unfoldable pub drop_spaces : List ℕ → List ℕ
drop_spaces [] = []
drop_spaces (c ∷ s) = let rest = drop_spaces s in if c == b' ' then rest else c ∷ rest

-- strings.ToUpper on ASCII
unfoldable pub to_upper : List ℕ → List ℕ
to_upper [] = []
to_upper (c ∷ s) = (if leb b'a' c && leb c b'z' then c - 32 else c) ∷ to_upper s

-- The decimal digits of a number, most significant first, as %d prints them.
unfoldable pub decimal_fuel : ℕ → ℕ → List ℕ → List ℕ
decimal_fuel zero n acc = acc
decimal_fuel (suc f) n acc =
    let more = decimal_fuel f (n / 10) (n % 10 ∷ acc) in if ltb n 10 then n ∷ acc else more

abbrev pub decimal : ℕ → List ℕ
decimal n = decimal_fuel (suc n) n []

prepend : List ℕ → Option (List ℕ) → Option (List ℕ)
prepend ds none = none
prepend ds (some rest) = some (ds ++ rest)

-- Digits stay, letters become two digits, and anything else refuses the number.
unfoldable pub expand : List ℕ → Option (List ℕ)
unfolding prepend
expand [] = some []
expand (c ∷ s) =
    let rest = expand s in
    if is_digit c
    then prepend ((c - b'0') ∷ []) rest
    else (if leb b'A' c && leb c b'Z' then prepend (decimal (c - b'A' + 10)) rest else none)

-- n = n*10 + int(c-'0'), digit by digit
unfoldable pub value : ℕ → List ℕ → ℕ
value n [] = n
value n (d ∷ ds) = value (n * 10 + d) ds

-- The loop over chunks of seven digits, each behind the digits of the remainder so far.
unfoldable pub chunked_mod : ℕ → ℕ → List ℕ → ℕ
unfolding value
chunked_mod zero rem ds = rem
chunked_mod (suc f) rem [] = rem
chunked_mod (suc f) rem (d ∷ ds) =
    chunked_mod f (value 0 (decimal rem ++ take 7 (d ∷ ds)) % 97) (drop 7 (d ∷ ds))

check_digits : Option (List ℕ) → Bool
unfolding chunked_mod
check_digits none = false
check_digits (some ds) = chunked_mod (length ds) 0 ds == 1

-- ibanValid
unfoldable pub iban_valid : List ℕ → Bool
unfolding check_digits expand drop_spaces to_upper
iban_valid s =
    let up = to_upper (drop_spaces s) in
    if ltb (length up) 15 || ltb 34 (length up)
    then false
    else check_digits (expand (drop 4 up ++ take 4 up))
