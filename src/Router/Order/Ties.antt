-- ===== src/Router/Order/Ties.antt =====
-- The loop that rotates runs of equal elements (`priorityOrdered` and `cheapest` of
-- backend/internal/router/router.go).
pub mod Segments
pub mod Sorted
use gateway_llm.Prelude.{
  ℕ, Bool, true, false, ◌&&◌, Option, none, some, List, [], ◌∷◌, ◌++◌, length, ltb, if◌then◌else◌,
}
use gateway_llm.Router.Order.Index.{int_index, next_count, rotate, ◌>>=◌}

module _ {A : Type 0} where
  -- A run of equal elements, rotated by the counter or left as it is.
  unfoldable pub close_run : Bool → ℕ → List A → Option (List A × ℕ)
  close_run true c run = do
    idx ← int_index c (length run)
    run' ← rotate idx run
    some (run', next_count c)
  close_run false c run = some (run, c)

  -- What follows a closed run.
  unfoldable pub after_run : Option (List A × ℕ) → (ℕ → Option (List A × ℕ)) → Option (List A × ℕ)
  after_run none rest = none
  after_run (some (out, c)) rest = do (more, c') ← rest c; some (out ++ more, c')

-- The loop that `priorityOrdered` and `cheapest` share: x heads the run of equal elements, `run` has
-- the others met so far, and the counter moves on once for each run that is rotated.
module _ {A : Type 0} (same : A → A → Bool) (rotates : A → Bool) where
  unfoldable pub rotate_runs : ℕ → A → List A → List A → Option (List A × ℕ)
  unfolding close_run after_run
  rotate_runs c x run [] = close_run (rotates x && ltb 0 (length run)) c (x ∷ run)
  rotate_runs c x run (y ∷ ys) =
      let longer = rotate_runs c x (run ++ y ∷ []) ys in
      let next =
        after_run (close_run (rotates x && ltb 0 (length run)) c (x ∷ run))
          (λ c'. rotate_runs c' y [] ys) in
      if same y x then longer else next

  unfoldable pub rotate_ties : ℕ → List A → Option (List A × ℕ)
  rotate_ties c [] = some ([], c)
  rotate_ties c (x ∷ xs) = rotate_runs c x [] xs
