-- ===== src/Router/Order/Total.antt =====
-- `order` of backend/internal/router/router.go, whatever the strategy.
use mathlib.Core.List.{Perm}
use mathlib.Core.List.Perm
use gateway_llm.Prelude.{
  ℕ, ◌+◌, ◌<◌, ◌≡◌, refl, String, Bool, true, false, Option, some, List, [], ◌∷◌, length, arith,
  leb, if◌then◌else◌, Bool-cases, inl, inr,
}
use gateway_llm.Router.Deployment.{DeploymentInfo, Heap}
use gateway_llm.Router.State.{ModelRouter, Rand, lookup, store}
use gateway_llm.Router.Order.Index.{int_max}
use gateway_llm.Router.Order.Rotation.{drop_take-perm}
use gateway_llm.Router.Order.{
  round_robin, weighted, priority_ordered, cheapest, least_latency, total_weight, order_by, order,
}
use gateway_llm.Router.Order.Priority.{priority_ordered-sorted, round_robin-rotates}
use gateway_llm.Router.Order.Cheapest.{cheapest-sorted}
use gateway_llm.Router.Order.Latency.{least_latency-nearly_sorted}
use gateway_llm.Router.Order.Weighted.{weighted-chooses}

-- What math/rand documents: a number drawn below a positive n is below n.
abbrev pub InRange : Rand → Type 0
InRange rand = (k n : ℕ) → 0 < n → rand k n < n

-- An ordering that returns: the deployments in another order, and of the router only counters and
-- drawn numbers changed.
pub record Orders (deps : List DeploymentInfo) (r : ModelRouter)
    (res : Option (List DeploymentInfo × ModelRouter)) : Type 0 where
  pub out : List DeploymentInfo
  pub router : ModelRouter
  pub returns : res ≡ some (out, router)
  pub perm : Perm out deps
  pub aliases_kept : router.aliases ≡ r.aliases
  pub index_kept : router.org_index ≡ r.org_index

module _ (rand : Rand) (h : Heap) (name : String) (d e : DeploymentInfo) (ds : List DeploymentInfo)
    (r : ModelRouter) (c : ℕ) (in_range : InRange rand) (found : lookup name r.counters ≡ some c)
    (room : c + length (d ∷ e ∷ ds) < int_max) where
  abbrev deps : List DeploymentInfo
  deps = d ∷ e ∷ ds

  round_robin-Orders : Orders deps r (round_robin name deps r)
  round_robin-Orders = record {
    returns = round_robin-rotates name d (e ∷ ds) r c found room;
    perm = drop_take-perm _ deps;
    aliases_kept = refl;
    index_kept = refl;
    out = _;
    router = _;
  }

  priority-Orders : Orders deps r (priority_ordered name deps r)
  priority-Orders =
      let (out, c', eq, perm, asc, runs, moved) =
        priority_ordered-sorted name deps r c found room in
      record {
        out = out;
        router = record r { counters = store name c' r.counters };
        returns = eq;
        perm = perm;
        aliases_kept = refl;
        index_kept = refl;
      }

  cheapest-Orders : Orders deps r (cheapest name deps r)
  cheapest-Orders =
      let (out, c', eq, perm, asc, moved) = cheapest-sorted name deps r c found room in
      record {
        out = out;
        router = record r { counters = store name c' r.counters };
        returns = eq;
        perm = perm;
        aliases_kept = refl;
        index_kept = refl;
      }

  latency-Orders : Orders deps r (least_latency rand h deps r)
  latency-Orders =
      let (out, k, eq, perm, near) =
        least_latency-nearly_sorted rand h deps r (λ k. in_range k 10 (omega arith)) in
      record {
        out = out;
        router = record r { draws = k };
        returns = eq;
        perm = perm;
        aliases_kept = refl;
        index_kept = refl;
      }

  -- Where all weights are 1, `weighted` is round robin.
  weighted_default :
      leb (total_weight deps) (length deps) ≡ true
      → weighted rand name deps r ≡ round_robin name deps r
  unfolding weighted
  weighted_default e = rw e refl

  weighted-Orders : Orders deps r (weighted rand name deps r)
  weighted-Orders = elim (Bool-cases (leb (total_weight deps) (length deps))) [
    | inl few ↦ rw (weighted_default few) round_robin-Orders
    | inr many ↦
        let more : length deps < total_weight deps = ground arith in
        let (p, x, others, eq, at, lower, upper, perm) =
          weighted-chooses rand name deps r more
            (in_range r.draws (total_weight deps) (omega arith)) in
        record {
          out = x ∷ others;
          router = record r { draws = r.draws + 1 };
          returns = eq;
          perm = perm;
          aliases_kept = refl;
          index_kept = refl;
        }
  ]

  if-Orders :
      (b : Bool) {x y : Option (List DeploymentInfo × ModelRouter)}
      → Orders deps r x
      → Orders deps r y
      → Orders deps r (if b then x else y)
  if-Orders true p q = p
  if-Orders false p q = q

  order_by-Orders : (strategy : String) → Orders deps r (order_by strategy rand h name deps r)
  unfolding order_by
  order_by-Orders strategy = if-Orders _ latency-Orders (
      if-Orders _ weighted-Orders
        (if-Orders _ priority-Orders (if-Orders _ cheapest-Orders round_robin-Orders)))

-- Where the alias has a counter c with c + length deps < 2 ^ 63, and the drawn numbers are in
-- range, `order` does not panic, whatever the strategy: it gives the deployments in another order,
-- and leaves the router's aliases and its index.
pub order-Orders :
    (rand : Rand) (h : Heap) (name : String) (deps : List DeploymentInfo) (r : ModelRouter) (c : ℕ)
    → InRange rand
    → lookup name r.counters ≡ some c
    → c + length deps < int_max
    → Orders deps r (order rand h name deps r)
order-Orders rand h name [] r c in_range found room =
    unfold order in
    record {
      out = [];
      router = r;
      returns = refl;
      perm = Perm.refl [];
      aliases_kept = refl;
      index_kept = refl;
    }
order-Orders rand h name (d ∷ []) r c in_range found room =
    unfold order in
    record {
      out = d ∷ [];
      router = r;
      returns = refl;
      perm = Perm.refl (d ∷ []);
      aliases_kept = refl;
      index_kept = refl;
    }
order-Orders rand h name (d ∷ e ∷ ds) r c in_range found room =
    unfold order in order_by-Orders rand h name d e ds r c in_range found room _
