-- ===== src/Router/Tests/Ordering.antt =====
-- The orderings' theorems at concrete inputs.
use mathlib.Core.List.{Perm}
use gateway_llm.Prelude.{ℕ, ◌+◌, true, ◌≤◌, ◌≡◌, refl, some, List, [], ◌∷◌, map, arith}
use gateway_llm.Router.Deployment.{DeploymentInfo}
use gateway_llm.Router.State.{lookup, store}
use gateway_llm.Router.Sort.Laws.{Ascends}
use gateway_llm.Router.Order.Ties.Sorted.{tie_runs}
use gateway_llm.Router.Sort.{insertion_sort}
use gateway_llm.Router.Order.{
  less_priority, same_priority, priority_ordered, least_latency, order, with_latency,
}
use gateway_llm.Router.Order.Priority.{LePriority, priority_ordered-sorted}
use gateway_llm.Router.Order.Latency.{NearlyAscends, Below10, least_latency-nearly_sorted}
use gateway_llm.Router.Order.Total.{InRange, Orders, order-Orders}
use gateway_llm.Router.Tests.Fixtures.{first, second, third, counting_router, zeros, rested}

abbrev three : List DeploymentInfo
three = first ∷ second ∷ third ∷ []

counted : lookup "gpt" counting_router.counters ≡ some 5
unfolding lookup
counted = refl

zeros-InRange : InRange zeros
zeros-InRange k n h = h

zeros-Below10 : Below10 zeros
zeros-Below10 k = omega arith

order-Orders_example : Orders three counting_router (order zeros rested "gpt" three counting_router)
order-Orders_example =
    order-Orders zeros rested "gpt" three counting_router 5 zeros-InRange counted (omega arith)

priority_ordered-sorted_example :
    (out : List DeploymentInfo) × (c' : ℕ) × (priority_ordered "gpt" three counting_router
      ≡ some (out, record counting_router { counters = store "gpt" c' counting_router.counters }))
    × Perm out three
    × Ascends LePriority out
    × (c' ≡ 5 + tie_runs same_priority (λ d. true) (insertion_sort less_priority three))
    × (c' ≤ 8)
priority_ordered-sorted_example =
    priority_ordered-sorted "gpt" three counting_router 5 counted (omega arith)

least_latency-nearly_sorted_example :
    (out : List DeploymentInfo) × (k : ℕ) × (least_latency zeros rested three counting_router
      ≡ some (out, record counting_router { draws = k }))
    × Perm out three
    × NearlyAscends (map (with_latency rested) out)
least_latency-nearly_sorted_example =
    least_latency-nearly_sorted zeros rested three counting_router zeros-Below10
