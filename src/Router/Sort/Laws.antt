-- ===== src/Router/Sort/Laws.antt =====
-- Laws of the insertion sorts (backend/internal/router/router.go).
use mathlib.Core.List.{Perm, perm_middle, append-nil}
use mathlib.Core.List.Perm
use gateway_llm.Prelude.{
  suc, ◌+◌, length, ◌≡◌, refl, Bool, true, false, List, [], ◌∷◌, ◌++◌, arith, Bool-cases, inl, inr,
}
use gateway_llm.Router.Sort.{insert_back, sort_loop, unwind, insertion_sort}

module _ {ℓ} {A : Type ℓ} where
  insert_back-perm :
      (less : A → A → Bool) (x : A) (ys : List A) → Perm (insert_back less x ys) (x ∷ ys)
  unfolding insert_back
  insert_back-perm less x [] = Perm.refl (x ∷ [])
  insert_back-perm less x (y ∷ ys) = elim (Bool-cases (less x y)) [
    | inl p ↦ rw p (Perm.trans (Perm.cons y (insert_back-perm less x ys)) (Perm.swap x y ys))
    | inr q ↦ rw q (Perm.refl (x ∷ y ∷ ys))
  ]

  sort_loop-perm :
      (less : A → A → Bool) (sorted xs : List A) → Perm (sort_loop less sorted xs) (xs ++ sorted)
  unfolding sort_loop
  sort_loop-perm less sorted [] = Perm.refl sorted
  sort_loop-perm less sorted (x ∷ xs) =
      Perm.trans (sort_loop-perm less (insert_back less x sorted) xs)
        (Perm.trans (Perm.append_left xs (insert_back-perm less x sorted)) (perm_middle xs sorted))

  pub unwind-perm : (xs acc : List A) → Perm (unwind xs acc) (xs ++ acc)
  unfolding unwind
  unwind-perm [] acc = Perm.refl acc
  unwind-perm (x ∷ xs) acc = Perm.trans (unwind-perm xs (x ∷ acc)) (perm_middle xs acc)

  pub insertion_sort-perm : (less : A → A → Bool) (xs : List A) → Perm (insertion_sort less xs) xs
  unfolding insertion_sort
  insertion_sort-perm less xs =
      Perm.trans (unwind-perm (sort_loop less [] xs) [])
        (rw append-nil (rw append-nil at (sort_loop-perm less [] xs)))

  length-insert_back :
      (less : A → A → Bool) (x : A) (ys : List A) → length (insert_back less x ys) ≡ suc (length ys)
  unfolding insert_back
  length-insert_back less x [] = refl
  length-insert_back less x (y ∷ ys) = ground (arith, length-insert_back less x ys)

  length-sort_loop :
      (less : A → A → Bool) (sorted xs : List A)
      → length (sort_loop less sorted xs) ≡ length sorted + length xs
  unfolding sort_loop
  length-sort_loop less sorted [] = omega arith
  length-sort_loop less sorted (x ∷ xs) = omega (
    arith,
    length-sort_loop less (insert_back less x sorted) xs,
    length-insert_back less x sorted,
  )

  length-unwind : (xs acc : List A) → length (unwind xs acc) ≡ length xs + length acc
  unfolding unwind
  length-unwind [] acc = omega arith
  length-unwind (x ∷ xs) acc = omega (arith, length-unwind xs (x ∷ acc))

  pub length-insertion_sort :
      (less : A → A → Bool) (xs : List A) → length (insertion_sort less xs) ≡ length xs
  unfolding insertion_sort
  length-insertion_sort less xs =
      omega (arith, length-unwind (sort_loop less [] xs) [], length-sort_loop less [] xs)

  abbrev pub AllOf {κ} : (A → Type κ) → List A → Type κ
  AllOf P [] = Unit
  AllOf P (x ∷ xs) = P x × AllOf P xs

  -- Each element is related to all that follow it.
  abbrev pub Ascends {κ} : (A → A → Type κ) → List A → Type κ
  Ascends R [] = Unit
  Ascends R (x ∷ xs) = AllOf (R x) xs × Ascends R xs

  pub AllOf-imp {κ μ} :
      (P : A → Type κ) (Q : A → Type μ) (xs : List A)
      → ((x : A) → P x → Q x)
      → AllOf P xs
      → AllOf Q xs
  AllOf-imp P Q [] f h = tt
  AllOf-imp P Q (x ∷ xs) f h = (f x h.0, AllOf-imp P Q xs f h.1)

  pub AllOf-append {κ} :
      (P : A → Type κ) (xs ys : List A) → AllOf P xs → AllOf P ys → AllOf P (xs ++ ys)
  AllOf-append P [] ys h k = k
  AllOf-append P (x ∷ xs) ys h k = (h.0, AllOf-append P xs ys h.1 k)

  -- Two predicates at once, in the shape that `unwind` meets.
  AllOf-both {κ} :
      (P Q : A → Type κ) (xs : List A) → AllOf P xs → AllOf Q xs → AllOf (λ x. P x × Q x) xs
  AllOf-both P Q [] h k = tt
  AllOf-both P Q (x ∷ xs) h k = ((h.0, k.0), AllOf-both P Q xs h.1 k.1)

  AllOf-always {κ} : (P : A → Type κ) (xs : List A) → ((x : A) → P x) → AllOf P xs
  AllOf-always P [] f = tt
  AllOf-always P (x ∷ xs) f = (f x, AllOf-always P xs f)

  AllOf-insert_back {κ} :
      (P : A → Type κ) (less : A → A → Bool) (x : A) (ys : List A)
      → P x
      → AllOf P ys
      → AllOf P (insert_back less x ys)
  unfolding insert_back
  AllOf-insert_back P less x [] p h = (p, tt)
  AllOf-insert_back P less x (y ∷ ys) p h = elim (Bool-cases (less x y)) [
    | inl e ↦ rw e (h.0, AllOf-insert_back P less x ys p h.1)
    | inr e ↦ rw e (p, h)
  ]

  AllOf-sort_loop {κ} :
      (P : A → Type κ) (less : A → A → Bool) (sorted xs : List A)
      → AllOf P sorted
      → AllOf P xs
      → AllOf P (sort_loop less sorted xs)
  unfolding sort_loop
  AllOf-sort_loop P less sorted [] h k = h
  AllOf-sort_loop P less sorted (x ∷ xs) h k =
      AllOf-sort_loop P less (insert_back less x sorted) xs
        (AllOf-insert_back P less x sorted k.0 h) k.1

  AllOf-unwind {κ} :
      (P : A → Type κ) (xs acc : List A) → AllOf P xs → AllOf P acc → AllOf P (unwind xs acc)
  unfolding unwind
  AllOf-unwind P [] acc h k = k
  AllOf-unwind P (x ∷ xs) acc h k = AllOf-unwind P xs (x ∷ acc) h.1 (h.0, k)

  pub AllOf-insertion_sort {κ} :
      (P : A → Type κ) (less : A → A → Bool) (xs : List A)
      → AllOf P xs
      → AllOf P (insertion_sort less xs)
  unfolding insertion_sort
  AllOf-insertion_sort P less xs h =
      AllOf-unwind P (sort_loop less [] xs) [] (AllOf-sort_loop P less [] xs tt h) tt

-- An order that the test `less` decides.
module _ {A : Type 0} (less : A → A → Bool) (R : A → A → Type 0)
    (below : (x y : A) → less x y ≡ true → R x y) (above : (x y : A) → less x y ≡ false → R y x)
    (R_trans : (x y z : A) → R x y → R y z → R x z) where
  abbrev Descends : List A → Type 0
  Descends = Ascends (λ x y. R y x)

  insert_back-Descends : (x : A) (ys : List A) → Descends ys → Descends (insert_back less x ys)
  unfolding insert_back
  insert_back-Descends x [] h = (tt, tt)
  insert_back-Descends x (y ∷ ys) h = elim (Bool-cases (less x y)) [
    | inl e ↦
        rw e (
          AllOf-insert_back (λ z. R z y) less x ys (below x y e) h.0,
          insert_back-Descends x ys h.1,
        )
    | inr e ↦ rw e (
      (
        above x y e,
        AllOf-imp (λ z. R z y) (λ z. R z x) ys (λ z r. R_trans z y x r (above x y e)) h.0,
      ),
      h,
    )
  ]

  sort_loop-Descends : (sorted xs : List A) → Descends sorted → Descends (sort_loop less sorted xs)
  unfolding sort_loop
  sort_loop-Descends sorted [] h = h
  sort_loop-Descends sorted (x ∷ xs) h =
      sort_loop-Descends (insert_back less x sorted) xs (insert_back-Descends x sorted h)

  -- Where every element of the first list is below all of the second.
  unwind-Ascends :
      (xs acc : List A)
      → Descends xs
      → Ascends R acc
      → AllOf (λ x. AllOf (R x) acc) xs
      → Ascends R (unwind xs acc)
  unfolding unwind
  unwind-Ascends [] acc d a b = a
  unwind-Ascends (x ∷ xs) acc d a b =
      unwind-Ascends xs (x ∷ acc) d.1 (b.0, a)
        (AllOf-both (λ z. R z x) (λ z. AllOf (R z) acc) xs d.0 b.1)

  pub insertion_sort-Ascends : (xs : List A) → Ascends R (insertion_sort less xs)
  unfolding insertion_sort
  insertion_sort-Ascends xs =
      unwind-Ascends (sort_loop less [] xs) [] (sort_loop-Descends [] xs tt) tt
        (AllOf-always (λ x. Unit {0}) (sort_loop less [] xs) (λ x. tt))
