-- ===== src/Billing/Receipt/Toy.antt =====
-- A library that the theorems on signatures hold for, to run examples with.
use Prim.Native.Char.{code}
use gateway_llm.Prelude.{
  zero, suc, Bool, ◌&&◌, ℕ, ◌+◌, ◌≡◌, refl, String, true, false, Option, none, some, [], ◌++◌, ◌∷◌,
  ◌==◌, arith, ap, ◌∙◌,
}
use gateway_llm.Billing.Receipt.{Library, IsSound, Bytes}

abbrev pub same_bytes : Bytes → Bytes → Bool
same_bytes [] [] = true
same_bytes (x ∷ xs) (y ∷ ys) = x == y && same_bytes xs ys
same_bytes xs ys = false

pub same_bytes_refl : (b : Bytes) → same_bytes b b ≡ true
same_bytes_refl [] = refl
same_bytes_refl (x ∷ xs) = ground (arith, same_bytes_refl xs)

-- An encoding in unary, in the place of base64.
abbrev pub stroke : ℕ → String → String
stroke zero rest = String.◌∷◌ "." rest
stroke (suc n) rest = String.◌∷◌ "1" (stroke n rest)

abbrev pub to_text : Bytes → String
to_text [] = ""
to_text (n ∷ b) = stroke n (to_text b)

abbrev pub of_text : ℕ → String → Bytes
of_text n String.[] = []
of_text n (String.◌∷◌ c s) = elim (code c == 49) [
  | true ↦ of_text (n + 1) s
  | false ↦ n ∷ of_text 0 s
]

of_text-stroke : (n k : ℕ) (rest : String) → of_text k (stroke n rest) ≡ (k + n) ∷ of_text 0 rest
of_text-stroke zero k rest = let e : k ≡ k + 0 = omega arith in ap (λ n. n ∷ of_text 0 rest) e
of_text-stroke (suc n) k rest =
    of_text-stroke n (k + 1) rest
    ∙ (let e : k + 1 + n ≡ k + suc n = omega arith in ap (λ n. n ∷ of_text 0 rest) e)

pub of_text-to_text : (b : Bytes) → of_text 0 (to_text b) ≡ b
of_text-to_text [] = refl
of_text-to_text (n ∷ b) =
    of_text-stroke n 0 (to_text b)
    ∙ (let e : 0 + n ≡ n = omega arith in rw (e, of_text-to_text b) refl)

-- A key of two halves, made of one number.
abbrev pub double : Bytes → Option Bytes
double (n ∷ []) = some (n ∷ n ∷ [])
double _ = none

-- The half that signs.
abbrev pub seed_of : Bytes → Bytes
seed_of (a ∷ b ∷ []) = a ∷ []
seed_of _ = []

-- The half that verifies.
abbrev pub public_of : Bytes → Bytes
public_of (a ∷ b ∷ []) = b ∷ []
public_of _ = []

double_halves : (random priv : Bytes) → double random ≡ some priv → seed_of priv ≡ public_of priv
double_halves [] priv h = cc
double_halves (n ∷ []) priv h = let e : n ∷ n ∷ [] ≡ priv = cc in rw (← e) refl
double_halves (n ∷ m ∷ b) priv h = cc

-- A signature is the body behind a seven and the half that signs.
abbrev pub toy : Library
toy = record {
  generate_key = double;
  public_key = public_of;
  sign_bytes = λ priv body. 7 ∷ (seed_of priv ++ body);
  verify_bytes = λ key body sig. same_bytes (7 ∷ (key ++ body)) sig;
  sha256 = λ b. b;
  append_hash = λ b. b;
  hex = to_text;
  hex_prefix = to_text;
  base64_encode = to_text;
  base64_decode = λ s. some (of_text 0 s);
  marshal = λ c. some (c.cost_usd ∷ []);
}

pub toy-IsSound : IsSound toy
toy-IsSound = record {
  accepts = λ priv body generated.
      let (random, e) = generated in
      rw (double_halves random priv e) (same_bytes_refl (7 ∷ (public_of priv ++ body)));
  decodes = λ b. rw (of_text-to_text b) refl;
}
