-- ===== src/Router/Order.antt =====
-- How the router orders the deployments of an alias (backend/internal/router/router.go). A panic of
-- the source (a nil counter, an index out of range) is `none`.
pub mod Index
pub mod Ties
pub mod Rotation
pub mod Priority
pub mod Weighted
pub mod Latency
pub mod Cheapest
pub mod Total
use gateway_llm.Prelude.{
  ℕ, zero, suc, ◌+◌, ◌-◌, ◌%◌, String, Bool, true, false, not, ◌&&◌, Option, none, some, List, [],
  ◌∷◌, ◌++◌, ◌||◌, map, length, get_elem?, ltb, leb, ◌==◌, str_eq, if◌then◌else◌,
}
use gateway_llm.Prelude.Int.{ℤ, pos, pos_part, ltb_ℤ, eq_ℤ, nonpos}
use gateway_llm.Router.Deployment.{DeploymentInfo, Heap}
use gateway_llm.Router.Sort.{insertion_sort, unwind}
use gateway_llm.Router.Order.Index.{int_index, next_count, rotate, gather, ◌>>=◌, u64_mod}
use gateway_llm.Router.State.{ModelRouter, Rand, lookup, store}
use gateway_llm.Router.Order.Ties.{rotate_ties}

-- r.counters[alias] after the loop
set_counter :
    String
    → ModelRouter
    → Option (List DeploymentInfo × ℕ)
    → Option (List DeploymentInfo × ModelRouter)
set_counter name r none = none
set_counter name r (some (out, c)) = some (out, record r { counters = store name c r.counters })

abbrev pub less_priority : DeploymentInfo → DeploymentInfo → Bool
less_priority a b = ltb_ℤ a.priority b.priority

abbrev pub same_priority : DeploymentInfo → DeploymentInfo → Bool
same_priority a b = eq_ℤ a.priority b.priority

-- priorityOrdered
unfoldable pub priority_ordered :
    String → List DeploymentInfo → ModelRouter → Option (List DeploymentInfo × ModelRouter)
unfolding set_counter
priority_ordered name deps r =
    let ordered = insertion_sort less_priority deps in
    elim (lookup name r.counters) [
      | none ↦ some (ordered, r)
      | some c ↦ set_counter name r (rotate_ties same_priority (λ d. true) c ordered)
    ]

-- The `scored` of cheapest.
pub record Scored : Type 0 where
  pub dep : DeploymentInfo
  pub cost : ℕ
  pub known : Bool
  pub idx : ℕ

score_one : Option (ℕ × ℕ) → DeploymentInfo → ℕ → Scored
score_one none d i = record { dep = d; cost = 0; known = false; idx = i }
score_one (some (input, output)) d i = record {
  dep = d;
  cost = input + output;
  known = true;
  idx = i;
}

unfoldable pub ask_price :
    Option (String → String → Option (ℕ × ℕ)) → DeploymentInfo → Option (ℕ × ℕ)
ask_price none d = none
ask_price (some pricing) d = pricing d.provider d.provider_model

unfoldable pub score_all :
    Option (String → String → Option (ℕ × ℕ)) → ℕ → List DeploymentInfo → List Scored
unfolding score_one ask_price
score_all pricing i [] = []
score_all pricing i (d ∷ ds) = score_one (ask_price pricing d) d i ∷ score_all pricing (i + 1) ds

-- The switch that sets `better`.
unfoldable pub better_in : Bool → Bool → Scored → Scored → Bool
better_in true false a b = true
better_in false false a b = ltb a.idx b.idx
better_in true true a b = ltb a.cost b.cost
better_in false true a b = false

abbrev pub better : Scored → Scored → Bool
better a b = better_in a.known b.known a b

same_known : Bool → Bool → Bool
same_known true true = true
same_known false false = true
same_known _ _ = false

unfoldable pub same_price : Scored → Scored → Bool
unfolding same_known
same_price a b = same_known a.known b.known && a.cost == b.cost

unwrap_scored : Option (List Scored × ℕ) → Option (List DeploymentInfo × ℕ)
unwrap_scored none = none
unwrap_scored (some (out, c)) = some (map (λ s. s.dep) out, c)

-- cheapest
unfoldable pub cheapest :
    String → List DeploymentInfo → ModelRouter → Option (List DeploymentInfo × ModelRouter)
unfolding set_counter unwrap_scored
cheapest name deps r =
    let scored = insertion_sort better (score_all r.pricing 0 deps) in
    elim (lookup name r.counters) [
      | none ↦ some (map (λ s. s.dep) scored, r)
      | some c ↦ set_counter name r (unwrap_scored (rotate_ties same_price (λ s. s.known) c scored))
    ]

-- roundRobin: the index is computed on int, whose sums wrap around.
unfoldable pub round_robin :
    String → List DeploymentInfo → ModelRouter → Option (List DeploymentInfo × ModelRouter)
round_robin name deps r = do
  c ← lookup name r.counters
  let n = length deps
  ordered ← gather (λ i. int_index ((c + i) % u64_mod) n) 0 n deps
  some (ordered, record r { counters = store name (next_count c) r.counters })

-- The weight of a deployment, 1 by default.
unfoldable pub weight_of : DeploymentInfo → ℕ
weight_of d = if nonpos d.weight then 1 else pos_part d.weight

unfoldable pub total_weight : List DeploymentInfo → ℕ
total_weight [] = 0
total_weight (d ∷ ds) = weight_of d + total_weight ds

-- The loop that looks for the primary deployment; it stays 0 if none is found.
unfoldable pub primary_from : ℕ → ℕ → List DeploymentInfo → ℕ
primary_from pick i [] = 0
primary_from pick i (d ∷ ds) =
    let rest = primary_from (pick - weight_of d) (i + 1) ds in
    if ltb pick (weight_of d) then i else rest

-- The deployments at other indices than the primary's, in order.
unfoldable pub all_but : ℕ → ℕ → List DeploymentInfo → List DeploymentInfo
all_but primary i [] = []
all_but primary i (d ∷ ds) =
    let rest = all_but primary (i + 1) ds in if i == primary then rest else d ∷ rest

-- weighted
unfoldable pub weighted :
    Rand → String → List DeploymentInfo → ModelRouter → Option (List DeploymentInfo × ModelRouter)
weighted rand name deps r =
    let total = total_weight deps in
    let pick = rand r.draws total in
    let primary = primary_from pick 0 deps in
    if leb total (length deps) then round_robin name deps r else (do
      d ← get_elem? deps primary
      some (d ∷ all_but primary 0 deps, record r { draws = r.draws + 1 }))

-- leastLatency: the inner loop draws a number below 10 for each comparison. A deployment stands
-- with the latency that was read before the loops.
unfoldable pub insert_latency :
    Rand → ℕ → DeploymentInfo × ℕ → List (DeploymentInfo × ℕ) → List (DeploymentInfo × ℕ) × ℕ
insert_latency rand k x [] = (x ∷ [], k)
insert_latency rand k x (y ∷ ys) =
    let (rest, k') = insert_latency rand (k + 1) x ys in
    if ltb (x.1 + rand k 10) y.1 then (y ∷ rest, k') else (x ∷ y ∷ ys, k + 1)

unfoldable pub latency_loop :
    Rand → ℕ → List (DeploymentInfo × ℕ) → List (DeploymentInfo × ℕ) → List (DeploymentInfo × ℕ) × ℕ
latency_loop rand k sorted [] = (sorted, k)
latency_loop rand k sorted (x ∷ xs) =
    let (sorted', k') = insert_latency rand k x sorted in latency_loop rand k' sorted' xs

abbrev pub with_latency : Heap → DeploymentInfo → DeploymentInfo × ℕ
with_latency h d = (d, (h d.addr).latency_ewma)

abbrev pub first_of_pair : DeploymentInfo × ℕ → DeploymentInfo
first_of_pair p = p.0

unfoldable pub least_latency :
    Rand → Heap → List DeploymentInfo → ModelRouter → Option (List DeploymentInfo × ModelRouter)
least_latency rand h deps r =
    let (sorted, k) = latency_loop rand r.draws [] (map (with_latency h) deps) in
    some (map first_of_pair (unwind sorted []), record r { draws = k })

-- The switch of `order`.
unfoldable pub order_by :
    String
    → Rand
    → Heap
    → String
    → List DeploymentInfo
    → ModelRouter
    → Option (List DeploymentInfo × ModelRouter)
order_by strategy rand h name deps r =
    if str_eq strategy "least-latency"
    then least_latency rand h deps r
    else (if str_eq strategy "weighted" || str_eq strategy "variant" || str_eq strategy "ab"
        then weighted rand name deps r
        else (if str_eq strategy "priority"
            then priority_ordered name deps r
            else (if str_eq strategy "cheapest"
                then cheapest name deps r
                else round_robin name deps r)))

-- order
unfoldable pub order :
    Rand
    → Heap
    → String
    → List DeploymentInfo
    → ModelRouter
    → Option (List DeploymentInfo × ModelRouter)
order rand h name [] r = some ([], r)
order rand h name (d ∷ []) r = some (d ∷ [], r)
order rand h name (d ∷ e ∷ ds) r =
    let strategy = if str_eq d.routing_strategy "" then r.strategy else d.routing_strategy in
    order_by strategy rand h name (d ∷ e ∷ ds) r
