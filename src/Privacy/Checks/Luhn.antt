-- ===== src/Privacy/Checks/Luhn.antt =====
-- What the Luhn check catches (backend/internal/privacy/redactor.go).
use mathlib.Core.List.{reverse, reverse-append, append_assoc}
use gateway_llm.Prelude.{
  ℕ, ◌+◌, ◌-◌, ◌%◌, ◌≡◌, ◌≢◌, ◌<◌, refl, sym, ap, ◌∙◌, Bool, true, false, not, List, [], ◌∷◌, ◌++◌,
  length, length-append, ltb, ◌==◌, ◌||◌, if◌then◌else◌, Bool-cases, inl, inr, arith,
}
use gateway_llm.Privacy.Checks.{is_digit, digits, weigh, luhn_sum, luhn_valid}

digits-append : (s t : List ℕ) → digits (s ++ t) ≡ digits s ++ digits t
unfolding digits
digits-append [] t = refl
digits-append (c ∷ s) t = elim (Bool-cases (is_digit c)) [
  | inl e ↦ rw e (rw (digits-append s t) refl)
  | inr e ↦ rw e (digits-append s t)
]

-- Two digits that weigh the same modulo ten are the same.
weigh_injective :
    (alt : Bool) (d e : ℕ) → d < 10 → e < 10 → weigh alt d % 10 ≡ weigh alt e % 10 → d ≡ e
weigh_injective true d e p q h = ground arith
weigh_injective false d e p q h = ground arith

-- The sum around one digit: where it stands decides how it is weighed.
luhn_sum-split :
    (xs ys : List ℕ) (alt : Bool)
    → (a : ℕ) × (flip : Bool) × ((d : ℕ) → luhn_sum alt (xs ++ d ∷ ys) ≡ a + weigh flip d)
unfolding luhn_sum
luhn_sum-split [] ys alt = (luhn_sum (not alt) ys, alt, λ d. omega arith)
luhn_sum-split (x ∷ xs) ys alt =
    let (a, flip, h) = luhn_sum-split xs ys (not alt) in
    (weigh alt x + a, flip, λ d. omega (arith, h d))

reverse_split : (xs ys : List ℕ) (d : ℕ) → reverse (xs ++ d ∷ ys) ≡ reverse ys ++ d ∷ reverse xs
reverse_split xs ys d =
    reverse-append xs (d ∷ ys)
    ∙ ap (λ l. l ++ reverse xs) (reverse-append (d ∷ []) ys)
    ∙ append_assoc (reverse ys) (d ∷ []) (reverse xs)

-- The check of a text around one digit: the number of digits, and the sum up to that digit's weight.
luhn_valid-split :
    (pre post : List ℕ)
    → (n : ℕ) × (a : ℕ) × (flip : Bool) × ((c : ℕ)
        → is_digit c ≡ true
        → luhn_valid (pre ++ c ∷ post)
          ≡ (if ltb n 13 || ltb 19 n then false else (a + weigh flip (c - b'0')) % 10 == 0))
unfolding luhn_valid
luhn_valid-split pre post =
    let (a, flip, h) = luhn_sum-split (reverse (digits post)) (reverse (digits pre)) false in
    (
      length (digits pre ++ 0 ∷ digits post),
      a,
      flip,
      λ c e.
          let ds : digits (pre ++ c ∷ post) ≡ digits pre ++ (c - b'0') ∷ digits post =
            digits-append pre (c ∷ post) ∙ ap (λ l. digits pre ++ l) (unfold digits in rw e refl) in
          let len : length (digits pre ++ (c - b'0') ∷ digits post)
              ≡ length (digits pre ++ 0 ∷ digits post) =
            omega (
              arith,
              length-append (digits pre) ((c - b'0') ∷ digits post),
              length-append (digits pre) (0 ∷ digits post),
            ) in
          rw (ds, len, reverse_split (digits pre) (digits post) (c - b'0'), h (c - b'0')) refl,
    )

-- Of two sums that differ by their last digits only one is divisible by ten.
one_divisible :
    (n a x y : ℕ)
    → x % 10 ≢ y % 10
    → (if ltb n 13 || ltb 19 n then false else (a + x) % 10 == 0) ≡ true
    → (if ltb n 13 || ltb 19 n then false else (a + y) % 10 == 0) ≡ false
one_divisible n a x y differ h = ground arith

-- A text that passes luhnValid fails it once any one of its digits is replaced by another digit.
pub luhn_valid-one_error :
    (pre post : List ℕ) (c c' : ℕ)
    → is_digit c ≡ true
    → is_digit c' ≡ true
    → c ≢ c'
    → luhn_valid (pre ++ c ∷ post) ≡ true
    → luhn_valid (pre ++ c' ∷ post) ≡ false
luhn_valid-one_error pre post c c' p p' differ valid =
    let (n, a, flip, h) = luhn_valid-split pre post in
    let differs : weigh flip (c - b'0') % 10 ≢ weigh flip (c' - b'0') % 10 = λ same. differ (
      let e = weigh_injective flip (c - b'0') (c' - b'0') (ground arith) (ground arith) same in
      ground arith) in
    h c' p'
    ∙ one_divisible n a (weigh flip (c - b'0')) (weigh flip (c' - b'0')) differs
        (sym (h c p) ∙ valid)
