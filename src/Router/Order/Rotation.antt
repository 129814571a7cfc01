-- ===== src/Router/Order/Rotation.antt =====
-- The loops over computed indices, as drops and takes (backend/internal/router/router.go).
use mathlib.Core.List.{Perm, append-nil, perm_append_comm}
use native.Mathlib.Nat.{mod-lt, mod-eq_of_lt, mod-add-mod}
use gateway_llm.Prelude.{
  ℕ, zero, suc, ◌+◌, ◌-◌, ◌%◌, ◌≤◌, ◌<◌, ◌≡◌, refl, sym, ap, ◌∙◌, Option, some, List, [], ◌∷◌, ◌++◌,
  length, get_elem?, take, drop, take-append-drop, length-drop, take_all, get_elem?-drop, arith,
}
use gateway_llm.Router.Order.Index.{gather, rotate}

wraps : (start j n : ℕ) → j < start → start < n → (start + (n - start + j)) % n ≡ 0 + j
wraps start j n h k = grind arith

module _ {A : Type 0} where
  gather_step :
      (at : ℕ → Option ℕ) (i t j : ℕ) (xs : List A) (x : A) (r : List A)
      → at i ≡ some j
      → get_elem? xs j ≡ some x
      → gather at (i + 1) t xs ≡ some r
      → gather at i (suc t) xs ≡ some (x ∷ r)
  unfolding gather
  gather_step at i t j xs x r p q e = rw (p, q, e)

  -- The first k of t indices run upwards from b: they copy a segment, and the others follow.
  gather_run :
      (at : ℕ → Option ℕ) (t i k b m l : ℕ) (xs r : List A)
      → t ≡ k + l
      → m ≡ i + k
      → ((j : ℕ) → j < k → at (i + j) ≡ some (b + j))
      → b + k ≤ length xs
      → gather at m l xs ≡ some r
      → gather at i t xs ≡ some (take k (drop b xs) ++ r)
  gather_run at t i zero b m l xs r et em h lt last =
      let same_i : i ≡ m = omega arith in
      let same_t : t ≡ l = omega arith in rw (same_i, same_t) last
  gather_run at zero i (suc k) b m l xs r et em h lt last = absurd (omega arith)
  gather_run at (suc t) i (suc k) b m l xs r et em h lt last =
      let (x, found, at_head) = get_elem?-drop b xs (omega arith) in
      let here : at i ≡ some b = ap at (omega arith) ∙ h 0 (omega arith) ∙ ap some (omega arith) in
      let rest : gather at (i + 1) t xs ≡ some (take k (drop (suc b) xs) ++ r) =
        gather_run at t (i + 1) k (suc b) m l xs r (omega arith) (omega arith)
          (λ j lt. ap at (omega arith) ∙ h (suc j) (omega arith) ∙ ap some (omega arith))
          (omega arith) last in
      rw at_head (gather_step at i t b xs x _ here found rest)

  -- Indices that count up from start, modulo the length, rotate a list.
  pub gather_rotation :
      (at : ℕ → Option ℕ) (start : ℕ) (xs : List A)
      → start < length xs
      → ((i : ℕ) → i < length xs → at i ≡ some ((start + i) % length xs))
      → gather at 0 (length xs) xs ≡ some (drop start xs ++ take start xs)
  gather_rotation at start xs lt h =
      let n : ℕ = length xs in
      let wrapped : gather at (n - start) start xs ≡ some (take start xs ++ []) =
        gather_run at start (n - start) start 0 n 0 xs [] (omega arith) (omega arith)
          (λ j jl. h (n - start + j) (omega arith) ∙ ap some (wraps start j n (omega arith) lt))
          (omega arith) (unfold gather in refl) in
      let whole =
        gather_run at n 0 (n - start) start (n - start) start xs (take start xs ++ []) (omega arith)
          (omega arith)
          (λ j jl. ap at (omega arith) ∙ h j (omega arith) ∙ ap some (mod-eq_of_lt (omega arith)))
          (omega arith) wrapped in
      whole
      ∙ ap some (
          simp (
            append-nil,
            take_all (n - start) (drop start xs) (omega (arith, length-drop start xs)),
          ))

  pub drop_take-perm : (start : ℕ) (xs : List A) → Perm (drop start xs ++ take start xs) xs
  drop_take-perm start xs =
      rw take-append-drop at (perm_append_comm (drop start xs) (take start xs))

  -- The copy loop of a group, for any index that is not negative.
  pub rotate-eq :
      (idx : ℕ) (x : A) (xs : List A)
      → let group = x ∷ xs in
        let start = idx % length group in
        rotate idx group ≡ some (drop start group ++ take start group)
  unfolding rotate
  rotate-eq idx x xs =
      gather_rotation _ (idx % length (x ∷ xs)) (x ∷ xs) (omega (arith, mod-lt))
        (λ i lt. ap some (sym (mod-add-mod idx (length (x ∷ xs)) i)))
