-- ===== src/Router/Order/Ties/Segments.antt =====
-- Parts of lists, for the loop that rotates runs of equal elements
-- (backend/internal/router/router.go).
use gateway_llm.Prelude.{ℕ, sym, subst, List, [], ◌∷◌, ◌++◌, take, drop, take-append-drop}
use gateway_llm.Router.Sort.Laws.{AllOf, AllOf-imp, AllOf-append, Ascends}

module _ {A : Type 0} where
  pub AllOf-left : (P : A → Type 0) (xs ys : List A) → AllOf P (xs ++ ys) → AllOf P xs
  AllOf-left P [] ys h = tt
  AllOf-left P (x ∷ xs) ys h = (h.0, AllOf-left P xs ys h.1)

  pub AllOf-right : (P : A → Type 0) (xs ys : List A) → AllOf P (xs ++ ys) → AllOf P ys
  AllOf-right P [] ys h = h
  AllOf-right P (x ∷ xs) ys h = AllOf-right P xs ys h.1

  pub AllOf-rotated :
      (P : A → Type 0) (k : ℕ) (xs : List A) → AllOf P xs → AllOf P (drop k xs ++ take k xs)
  AllOf-rotated P k xs h =
      let split = subst (AllOf P) (sym (take-append-drop k xs)) h in
      AllOf-append P (drop k xs) (take k xs) (AllOf-right P (take k xs) (drop k xs) split)
        (AllOf-left P (take k xs) (drop k xs) split)

  pub Ascends-left : (R : A → A → Type 0) (xs ys : List A) → Ascends R (xs ++ ys) → Ascends R xs
  Ascends-left R [] ys h = tt
  Ascends-left R (x ∷ xs) ys h = (AllOf-left (R x) xs ys h.0, Ascends-left R xs ys h.1)

  pub Ascends-right : (R : A → A → Type 0) (xs ys : List A) → Ascends R (xs ++ ys) → Ascends R ys
  Ascends-right R [] ys h = h
  Ascends-right R (x ∷ xs) ys h = Ascends-right R xs ys h.1

  pub Ascends-across :
      (R : A → A → Type 0) (xs ys : List A) → Ascends R (xs ++ ys) → AllOf (λ x. AllOf (R x) ys) xs
  Ascends-across R [] ys h = tt
  Ascends-across R (x ∷ xs) ys h = (AllOf-right (R x) xs ys h.0, Ascends-across R xs ys h.1)

  pub Ascends-append :
      (R : A → A → Type 0) (xs ys : List A)
      → Ascends R xs
      → Ascends R ys
      → AllOf (λ x. AllOf (R x) ys) xs
      → Ascends R (xs ++ ys)
  Ascends-append R [] ys h k a = k
  Ascends-append R (x ∷ xs) ys h k a =
      (AllOf-append (R x) xs ys h.0 a.0, Ascends-append R xs ys h.1 k a.1)

  pub Ascends-of_related :
      (R : A → A → Type 0) (S : A → Type 0) (xs : List A)
      → ((x y : A) → S x → S y → R x y)
      → AllOf S xs
      → Ascends R xs
  Ascends-of_related R S [] f h = tt
  Ascends-of_related R S (x ∷ xs) f h =
      (AllOf-imp S (R x) xs (λ y s. f x y h.0 s) h.1, Ascends-of_related R S xs f h.1)
