-- ===== src/Router/Sort.antt =====
-- The insertion sorts of backend/internal/router/router.go (`priorityOrdered`, `cheapest`). The part
-- ordered[:i] that is sorted already is kept as a list from its last element to its first, the
-- order in which the inner loop meets it.
pub mod Laws
use gateway_llm.Prelude.{Bool, List, [], ◌∷◌, if◌then◌else◌}

module _ {ℓ} {A : Type ℓ} where
  -- The inner loop: x moves past each y that it is less than, and stops at the first other one.
  unfoldable pub insert_back : (A → A → Bool) → A → List A → List A
  insert_back less x [] = x ∷ []
  insert_back less x (y ∷ ys) = if less x y then y ∷ insert_back less x ys else x ∷ y ∷ ys

  -- The outer loop.
  unfoldable pub sort_loop : (A → A → Bool) → List A → List A → List A
  sort_loop less sorted [] = sorted
  sort_loop less sorted (x ∷ xs) = sort_loop less (insert_back less x sorted) xs

  -- A list from its last element to its first, put before another.
  unfoldable pub unwind : List A → List A → List A
  unwind [] acc = acc
  unwind (x ∷ xs) acc = unwind xs (x ∷ acc)

  unfoldable pub insertion_sort : (A → A → Bool) → List A → List A
  insertion_sort less xs = unwind (sort_loop less [] xs) []
