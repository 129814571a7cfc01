-- ===== src/Privacy/Bytes.antt =====
-- Byte strings as lists of numbers, and maps keyed by them (backend/internal/privacy).
use Prim.Native.Char.{code}
use Prim.Native.String.{String}
use gateway_llm.Prelude.{
  ℕ, zero, suc, ◌-◌, ◌≡◌, ◌≤◌, refl, ap, Bool, true, false, ◌&&◌, Option, none, some, List, [], ◌∷◌,
  ◌++◌, ◌==◌, if◌then◌else◌, take, drop, arith, take-append-drop, ◌↔◌,
}

abbrev pub Bytes : Type 0
Bytes = List ℕ

-- The bytes of an ASCII text.
abbrev pub codes : String → Bytes
codes String.[] = []
codes (String.◌∷◌ c s) = code c ∷ codes s

unfoldable pub bytes_eq : Bytes → Bytes → Bool
bytes_eq [] [] = true
bytes_eq (x ∷ xs) (y ∷ ys) = x == y && bytes_eq xs ys
bytes_eq xs ys = false

pub bytes_eq_refl : (xs : Bytes) → bytes_eq xs xs ≡ true
unfolding bytes_eq
bytes_eq_refl [] = refl
bytes_eq_refl (x ∷ xs) = ground (arith, bytes_eq_refl xs)

pub bytes_eq_sound : (xs ys : Bytes) → bytes_eq xs ys ≡ true → xs ≡ ys
unfolding bytes_eq
bytes_eq_sound [] [] h = refl
bytes_eq_sound [] (y ∷ ys) h = cc
bytes_eq_sound (x ∷ xs) [] h = cc
bytes_eq_sound (x ∷ xs) (y ∷ ys) h = ground (arith, bytes_eq_sound xs ys)

pub bytes_eq_iff : (xs ys : Bytes) → (bytes_eq xs ys ≡ true) ↔ (xs ≡ ys)
bytes_eq_iff xs ys = (bytes_eq_sound xs ys, (λ e. rw e (bytes_eq_refl ys)))

-- text[a:b]
abbrev pub slice : Bytes → ℕ → ℕ → Bytes
slice text a b = take (b - a) (drop a text)

take_nil : (n : ℕ) → take {A = ℕ} n [] ≡ []
take_nil zero = refl
take_nil (suc n) = refl

pub slice-append-drop :
    (text : Bytes) (a b : ℕ) → a ≤ b → slice text a b ++ drop b text ≡ drop a text
slice-append-drop text zero b h = let e : b - 0 ≡ b = omega arith in rw e (take-append-drop b text)
slice-append-drop text (suc a) zero h = absurd (omega arith)
slice-append-drop [] (suc a) (suc b) h = ap (λ l. l ++ []) (take_nil (suc b - suc a))
slice-append-drop (x ∷ text) (suc a) (suc b) h =
    let e : suc b - suc a ≡ b - a = omega arith in rw e (slice-append-drop text a b (omega arith))

abbrev pub Table : Type 0
Table = List (Bytes × Bytes)

-- m[key], ok
unfoldable pub find : Bytes → Table → Option Bytes
unfolding bytes_eq
find key [] = none
find key ((k, v) ∷ rest) = if bytes_eq k key then some v else find key rest

-- m[key] = v
unfoldable pub put : Bytes → Bytes → Table → Table
unfolding bytes_eq
put key v [] = (key, v) ∷ []
put key v ((k, w) ∷ rest) = if bytes_eq k key then (key, v) ∷ rest else (k, w) ∷ put key v rest

pub find-put :
    (key k v : Bytes) (m : Table)
    → find key (put k v m) ≡ (if bytes_eq k key then some v else find key m)
unfolding find put
find-put key k v [] = refl
find-put key k v ((j, w) ∷ rest) =
    ground (arith, bytes_eq_iff j k, bytes_eq_iff k key, bytes_eq_iff j key, find-put key k v rest)
