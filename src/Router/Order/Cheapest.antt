-- ===== src/Router/Order/Cheapest.antt =====
-- `cheapest` of backend/internal/router/router.go.
use mathlib.Core.List.{Perm}
use mathlib.Core.List.Perm
use gateway_llm.Prelude.{
  ℕ, suc, ◌+◌, ◌≤◌, ◌<◌, ◌≡◌, refl, ap, String, Bool, true, false, Option, none, some, List, [],
  ◌∷◌, map, length, arith,
}
use gateway_llm.Router.Deployment.{DeploymentInfo}
use gateway_llm.Router.State.{ModelRouter, lookup, store}
use gateway_llm.Router.Sort.{insertion_sort}
use gateway_llm.Router.Sort.Laws.{
  AllOf, Ascends, insertion_sort-perm, insertion_sort-Ascends, length-insertion_sort,
  AllOf-insertion_sort,
}
use gateway_llm.Router.Order.Index.{int_max}
use gateway_llm.Router.Order.Ties.{rotate_ties}
use gateway_llm.Router.Order.Ties.Sorted.{Rotated, tie_runs, rotate_ties-Rotated}
use gateway_llm.Router.Order.{Scored, ask_price, score_all, better_in, better, same_price, cheapest}

abbrev Pricing : Type 0
Pricing = Option (String → String → Option (ℕ × ℕ))

abbrev sum_price : Option (ℕ × ℕ) → Option ℕ
sum_price none = none
sum_price (some (input, output)) = some (input + output)

-- The price of a deployment, input and output together, if it is known.
abbrev pub price_of : Pricing → DeploymentInfo → Option ℕ
price_of pricing d = sum_price (ask_price pricing d)

-- Known prices come before unknown ones, and lower before higher.
abbrev pub LePrice : Option ℕ → Option ℕ → Type 0
LePrice (some x) (some y) = x ≤ y
LePrice none (some y) = ⊥
LePrice _ none = Unit

abbrev rank_in : Bool → ℕ → Option ℕ
rank_in true cost = some cost
rank_in false cost = none

abbrev rank : Scored → Option ℕ
rank s = rank_in s.known s.cost

abbrev LeScored : Scored → Scored → Type 0
LeScored a b = LePrice (rank a) (rank b)

below : (a b : Scored) → better a b ≡ true → LeScored a b
unfolding better_in
below a b h = ground arith

above : (a b : Scored) → better a b ≡ false → LeScored b a
unfolding better_in
above a b h = ground arith

LePrice-trans : (x y z : Option ℕ) → LePrice x y → LePrice y z → LePrice x z
LePrice-trans x y z h k = ground arith

same_self : (a : Scored) → same_price a a ≡ true
unfolding same_price
same_self a = ground arith

same_related : (x a b : Scored) → same_price a x ≡ true → same_price b x ≡ true → LeScored a b
unfolding same_price
same_related x a b h k = ground arith

length-score_all :
    (pricing : Pricing) (i : ℕ) (deps : List DeploymentInfo)
    → length (score_all pricing i deps) ≡ length deps
unfolding score_all
length-score_all pricing i [] = refl
length-score_all pricing i (d ∷ ds) = ap suc (length-score_all pricing (i + 1) ds)

map-score_all :
    (pricing : Pricing) (i : ℕ) (deps : List DeploymentInfo)
    → map (λ (s : Scored). s.dep) (score_all pricing i deps) ≡ deps
unfolding score_all
map-score_all pricing i [] = refl
map-score_all pricing i (d ∷ ds) = ground (arith, map-score_all pricing (i + 1) ds)

Fits : Pricing → Scored → Type 0
Fits pricing s = rank s ≡ price_of pricing s.dep

score_all-Fits :
    (pricing : Pricing) (i : ℕ) (deps : List DeploymentInfo)
    → AllOf (Fits pricing) (score_all pricing i deps)
unfolding score_all Fits
score_all-Fits pricing i [] = tt
score_all-Fits pricing i (d ∷ ds) = (ground arith, score_all-Fits pricing (i + 1) ds)

abbrev pub LePriced : Pricing → DeploymentInfo → DeploymentInfo → Type 0
LePriced pricing d e = LePrice (price_of pricing d) (price_of pricing e)

head_priced :
    (pricing : Pricing) (s : Scored) (xs : List Scored)
    → Fits pricing s
    → AllOf (Fits pricing) xs
    → AllOf (LeScored s) xs
    → AllOf (LePriced pricing s.dep) (map (λ (s : Scored). s.dep) xs)
unfolding Fits
head_priced pricing s [] f a h = tt
head_priced pricing s (x ∷ xs) f a h = (rw (f, a.0) at h.0, head_priced pricing s xs f a.1 h.1)

Ascends-priced :
    (pricing : Pricing) (xs : List Scored)
    → AllOf (Fits pricing) xs
    → Ascends LeScored xs
    → Ascends (LePriced pricing) (map (λ (s : Scored). s.dep) xs)
Ascends-priced pricing [] a h = tt
Ascends-priced pricing (x ∷ xs) a h =
    (head_priced pricing x xs a.0 a.1 h.0, Ascends-priced pricing xs a.1 h.1)

abbrev sorted_scores : Pricing → List DeploymentInfo → List Scored
sorted_scores pricing deps = insertion_sort better (score_all pricing 0 deps)

ties-Rotated :
    (pricing : Pricing) (c : ℕ) (deps : List DeploymentInfo)
    → c + length deps < int_max
    → Rotated LeScored c
        (tie_runs same_price (λ s. s.known) (sorted_scores pricing deps))
        (sorted_scores pricing deps)
        (rotate_ties same_price (λ s. s.known) c (sorted_scores pricing deps))
ties-Rotated pricing c deps h =
    let scored = score_all pricing 0 deps in
    rotate_ties-Rotated LeScored same_price (λ s. s.known) same_self same_related c
      (insertion_sort better scored)
      (omega (arith, length-insertion_sort better scored, length-score_all pricing 0 deps))
      (insertion_sort-Ascends better LeScored below above
        (λ x y z. LePrice-trans (rank x) (rank y) (rank z)) scored)

-- With a count c of the alias and c + length deps < 2 ^ 63, cheapest does not panic. It gives the
-- deployments in another order, in which those with a known price come first, by price, and it
-- changes of the router this alias's counter alone, by no more than the number of deployments.
pub cheapest-sorted :
    (name : String) (deps : List DeploymentInfo) (r : ModelRouter) (c : ℕ)
    → lookup name r.counters ≡ some c
    → c + length deps < int_max
    → (out : List DeploymentInfo) × (c' : ℕ) × (cheapest name deps r
        ≡ some (out, record r { counters = store name c' r.counters }))
      × Perm out deps
      × Ascends (LePriced r.pricing) out
      × (c' ≤ c + length deps)
unfolding cheapest
cheapest-sorted name deps r c found h =
    let t = ties-Rotated r.pricing c deps h in
    let scored = score_all r.pricing 0 deps in
    let fits =
      t.all (Fits r.pricing)
        (AllOf-insertion_sort (Fits r.pricing) better scored (score_all-Fits r.pricing 0 deps)) in
    (
      map (λ (s : Scored). s.dep) t.out,
      t.count,
      rw (found, cheapest, t.returns) refl,
      rw (map-score_all r.pricing 0 deps) at (
          Perm.map (λ (s : Scored). s.dep) (Perm.trans t.perm (insertion_sort-perm better scored))),
      Ascends-priced r.pricing t.out fits t.ascends,
      omega (
        arith,
        t.counted,
        t.few,
        length-insertion_sort better scored,
        length-score_all r.pricing 0 deps,
      ),
    )
