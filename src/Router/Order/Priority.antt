-- ===== src/Router/Order/Priority.antt =====
-- `priorityOrdered` and `roundRobin` of backend/internal/router/router.go.
use mathlib.Core.List.{Perm}
use mathlib.Core.List.Perm
use native.Mathlib.Nat.{mod-lt, mod-eq_of_lt, mod-add-mod}
use gateway_llm.Prelude.{
  ℕ, suc, ◌+◌, ◌%◌, ◌≤◌, ◌<◌, ◌≡◌, refl, String, true, false, some, List, ◌∷◌, ◌++◌, length, take,
  drop, arith,
}
use gateway_llm.Prelude.Int.{pos_part, neg_part}
use gateway_llm.Router.Deployment.{DeploymentInfo}
use gateway_llm.Router.State.{ModelRouter, lookup, store}
use gateway_llm.Router.Sort.{insertion_sort}
use gateway_llm.Router.Sort.Laws.{
  Ascends, insertion_sort-perm, insertion_sort-Ascends, length-insertion_sort,
}
use gateway_llm.Router.Order.Index.{int_index, u64_mod, int_max}
use gateway_llm.Router.Order.Rotation.{gather_rotation}
use gateway_llm.Router.Order.Ties.{rotate_ties}
use gateway_llm.Router.Order.Ties.Sorted.{Rotated, tie_runs, rotate_ties-Rotated, next_count_small}
use gateway_llm.Router.Order.{priority_ordered, round_robin, less_priority, same_priority}

-- The priority of the first is no higher a number than that of the second.
abbrev pub LePriority : DeploymentInfo → DeploymentInfo → Type 0
LePriority a b =
    pos_part a.priority + neg_part b.priority ≤ pos_part b.priority + neg_part a.priority

below : (a b : DeploymentInfo) → less_priority a b ≡ true → LePriority a b
below a b h = ground arith

above : (a b : DeploymentInfo) → less_priority a b ≡ false → LePriority b a
above a b h = ground arith

LePriority-trans : (a b c : DeploymentInfo) → LePriority a b → LePriority b c → LePriority a c
LePriority-trans a b c h k = omega arith

same_self : (a : DeploymentInfo) → same_priority a a ≡ true
same_self a = ground arith

same_related :
    (x a b : DeploymentInfo) → same_priority a x ≡ true → same_priority b x ≡ true → LePriority a b
same_related x a b h k = ground arith

ties-Rotated :
    (c : ℕ) (deps : List DeploymentInfo)
    → c + length deps < int_max
    → Rotated LePriority c
        (tie_runs same_priority (λ d. true) (insertion_sort less_priority deps))
        (insertion_sort less_priority deps)
        (rotate_ties same_priority (λ d. true) c (insertion_sort less_priority deps))
ties-Rotated c deps h =
    rotate_ties-Rotated LePriority same_priority (λ d. true) same_self same_related c
      (insertion_sort less_priority deps) (omega (arith, length-insertion_sort less_priority deps))
      (insertion_sort-Ascends less_priority LePriority below above LePriority-trans deps)

-- With a count c of the alias and c + length deps < 2 ^ 63, priorityOrdered does not panic. It
-- gives the deployments in another order, in which no priority is followed by a lower number, and
-- it changes of the router this alias's counter alone: it moves on by one for every run of two or
-- more deployments of one priority in the sorted list, at most by the number of deployments.
pub priority_ordered-sorted :
    (name : String) (deps : List DeploymentInfo) (r : ModelRouter) (c : ℕ)
    → lookup name r.counters ≡ some c
    → c + length deps < int_max
    → (out : List DeploymentInfo) × (c' : ℕ) × (priority_ordered name deps r
        ≡ some (out, record r { counters = store name c' r.counters }))
      × Perm out deps
      × Ascends LePriority out
      × (c' ≡ c + tie_runs same_priority (λ d. true) (insertion_sort less_priority deps))
      × (c' ≤ c + length deps)
unfolding priority_ordered
priority_ordered-sorted name deps r c found h =
    let t = ties-Rotated c deps h in
    (
      t.out,
      t.count,
      rw (found, priority_ordered, t.returns) refl,
      Perm.trans t.perm (insertion_sort-perm less_priority deps),
      t.ascends,
      t.counted,
      omega (arith, t.counted, t.few, length-insertion_sort less_priority deps),
    )

round_index :
    (c i n : ℕ) → c + n < int_max → i < n → int_index ((c + i) % u64_mod) n ≡ some ((c % n + i) % n)
unfolding int_index
round_index c i n h k =
    let whole : (c + i) % u64_mod ≡ c + i = mod-eq_of_lt (omega arith) in
    rw (mod-add-mod c n i, whole) (ground arith)

-- With a count c of the alias and c + length deps < 2 ^ 63, roundRobin does not panic: it gives the
-- deployments from index c % n on, then those before it, and moves the alias's counter on by one.
pub round_robin-rotates :
    (name : String) (d : DeploymentInfo) (ds : List DeploymentInfo) (r : ModelRouter) (c : ℕ)
    → lookup name r.counters ≡ some c
    → c + length (d ∷ ds) < int_max
    → let deps = d ∷ ds in
      let start = c % length deps in
      round_robin name deps r
      ≡ some (
        drop start deps ++ take start deps,
        record r { counters = store name (suc c) r.counters },
      )
unfolding round_robin
round_robin-rotates name d ds r c found h =
    let deps = d ∷ ds in
    let turned =
      gather_rotation (λ i. int_index ((c + i) % u64_mod) (length deps)) (c % length deps) deps
        (mod-lt c (omega arith)) (λ i lt. round_index c i (length deps) h lt) in
    rw (found, turned, next_count_small c (omega arith)) refl
