-- ===== src/Privacy/Checks/Iban.antt =====
-- The remainder that ibanValid computes in chunks, against the whole number
-- (backend/internal/privacy/redactor.go).
use gateway_llm.Prelude.{
  ℕ, zero, suc, ◌+◌, ◌*◌, ◌/◌, ◌%◌, ◌≡◌, ◌≤◌, ◌<◌, ◌↔◌, refl, sym, ap, ◌∙◌, true, Option, none,
  some, List, [], ◌∷◌, ◌++◌, length, take, drop, take-append-drop, length-drop, ltb, ◌||◌,
  Bool-cases, inl, inr, arith,
}
use gateway_llm.Privacy.Checks.{
  decimal_fuel, decimal, value, chunked_mod, expand, iban_valid, check_digits, drop_spaces,
  to_upper,
}

value-append : (n : ℕ) (xs ys : List ℕ) → value n (xs ++ ys) ≡ value (value n xs) ys
unfolding value
value-append n [] ys = refl
value-append n (x ∷ xs) ys = value-append (n * 10 + x) xs ys

-- The digits that are printed have the number's value, whatever is behind them.
value-decimal_fuel : (f n : ℕ) (acc : List ℕ) → n < f → value 0 (decimal_fuel f n acc) ≡ value n acc
unfolding value decimal_fuel
value-decimal_fuel zero n acc h = absurd (omega arith)
value-decimal_fuel (suc f) n acc h = elim (Bool-cases (ltb n 10)) [
  | inl small ↦ let e : 0 + n ≡ n = omega arith in rw small (ap (λ k. value k acc) e)
  | inr large ↦
      let e : n / 10 * 10 + n % 10 ≡ n = omega arith in
      rw large (value-decimal_fuel f (n / 10) (n % 10 ∷ acc) (ground arith) ∙ rw e refl)
]

-- Only the remainder of the number so far matters.
value_mod : (n m : ℕ) (ds : List ℕ) → n % 97 ≡ m % 97 → value n ds % 97 ≡ value m ds % 97
unfolding value
value_mod n m [] h = h
value_mod n m (d ∷ ds) h = value_mod (n * 10 + d) (m * 10 + d) ds (omega arith)

chunked_mod_lem :
    (f rem : ℕ) (ds : List ℕ) → length ds ≤ f → rem < 97 → chunked_mod f rem ds ≡ value rem ds % 97
unfolding chunked_mod
chunked_mod_lem zero rem [] h r = unfold value in omega arith
chunked_mod_lem zero rem (d ∷ ds) h r = absurd (omega arith)
chunked_mod_lem (suc f) rem [] h r = unfold value in omega arith
chunked_mod_lem (suc f) rem (d ∷ ds) h r =
    let chunk = value 0 (decimal rem ++ take 7 (d ∷ ds)) in
    let read : chunk ≡ value rem (take 7 (d ∷ ds)) =
      value-append 0 (decimal rem) (take 7 (d ∷ ds))
      ∙ ap (λ n. value n (take 7 (d ∷ ds)))
          (value-decimal_fuel (suc rem) rem [] (omega arith) ∙ (unfold value in refl)) in
    chunked_mod_lem f (chunk % 97) (drop 7 (d ∷ ds)) (omega (arith, length-drop 7 (d ∷ ds)))
      (omega arith)
    ∙ value_mod (chunk % 97) (value rem (take 7 (d ∷ ds))) (drop 7 (d ∷ ds)) (omega (arith, read))
    ∙ ap (λ n. n % 97)
        (sym (value-append rem (take 7 (d ∷ ds)) (drop 7 (d ∷ ds)))
          ∙ ap (value rem) (take-append-drop 7 (d ∷ ds)))

check_digits_lem :
    (o : Option (List ℕ))
    → (check_digits o ≡ true) ↔ ((ds : List ℕ) × (o ≡ some ds) × (value 0 ds % 97 ≡ 1))
unfolding check_digits
check_digits_lem none = ((λ h. cc), (λ h. cc))
check_digits_lem (some ds) = (
  (λ h. (ds, refl, ground (arith, chunked_mod_lem (length ds) 0 ds))),
  (λ h.
      let e : ds ≡ h.0 = cc in
      let one : value 0 ds % 97 ≡ 1 = rw e h.2 in ground (arith, chunked_mod_lem (length ds) 0 ds)),
)

-- ibanValid accepts a text exactly if, without spaces and in capitals, it has 15 to 34 characters,
-- all of them digits and letters, and the number that they spell once the first four stand last,
-- with 10 to 35 for the letters, has remainder 1 by 97: going by chunks of seven digits with the
-- remainder in front computes the remainder of the whole number.
pub iban_valid_iff :
    (s : List ℕ)
    → (let up = to_upper (drop_spaces s) in
        (iban_valid s ≡ true) ↔ (
          (15 ≤ length up)
          × (length up ≤ 34)
          × ((ds : List ℕ) × (expand (drop 4 up ++ take 4 up) ≡ some ds) × (value 0 ds % 97 ≡ 1))))
unfolding iban_valid
iban_valid_iff s =
    let up = to_upper (drop_spaces s) in
    let checked = check_digits_lem (expand (drop 4 up ++ take 4 up)) in
    elim (Bool-cases (ltb (length up) 15 || ltb 34 (length up))) [
      | inl out ↦ rw out ((λ h. absurd (cc)), (λ h. absurd (ground arith)))
      | inr inside ↦
          rw inside ((λ h. (ground arith, ground arith, checked.0 h)), (λ h. checked.1 h.2))
    ]
