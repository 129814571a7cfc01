-- ===== src/Router/Order/Weighted.antt =====
-- `weighted` of backend/internal/router/router.go.
use mathlib.Core.List.{Perm}
use mathlib.Core.List.Perm
use native.Mathlib.Nat.{zero-add}
use gateway_llm.Prelude.{
  ℕ, zero, suc, ◌+◌, ◌-◌, ◌≤◌, ◌<◌, ◌≡◌, refl, ap, ◌∙◌, String, false, some, List, [], ◌∷◌, length,
  take, get_elem?, arith, ltb, leb, ◌==◌, Bool-cases, inl, inr,
}
use gateway_llm.Router.Deployment.{DeploymentInfo}
use gateway_llm.Router.State.{ModelRouter, Rand}
use gateway_llm.Router.Order.{weight_of, total_weight, primary_from, all_but, weighted}

-- A number below the total falls into the range of one deployment.
record Chosen (pick i : ℕ) (deps : List DeploymentInfo) (p : ℕ) (d : DeploymentInfo) : Type 0 where
  index : primary_from pick i deps ≡ i + p
  element : get_elem? deps p ≡ some d
  above : total_weight (take p deps) ≤ pick
  below : pick < total_weight (take p deps) + weight_of d

Chosen-next :
    (pick i : ℕ) (x : DeploymentInfo) (deps : List DeploymentInfo) (p : ℕ) (d : DeploymentInfo)
    → ltb pick (weight_of x) ≡ false
    → Chosen (pick - weight_of x) (i + 1) deps p d
    → Chosen pick i (x ∷ deps) (suc p) d
unfolding primary_from total_weight
Chosen-next pick i x deps p d e c = ground arith

left_over :
    (pick : ℕ) (x : DeploymentInfo) (deps : List DeploymentInfo)
    → ltb pick (weight_of x) ≡ false
    → pick < total_weight (x ∷ deps)
    → pick - weight_of x < total_weight deps
unfolding total_weight
left_over pick x deps e h = ground arith

primary-Chosen :
    (pick i : ℕ) (deps : List DeploymentInfo)
    → pick < total_weight deps
    → (p : ℕ) × (d : DeploymentInfo) × Chosen pick i deps p d
primary-Chosen pick i [] h = absurd (unfold total_weight in omega arith)
primary-Chosen pick i (x ∷ deps) h = elim (Bool-cases (ltb pick (weight_of x))) [
  | inl e ↦ (0, x, unfold primary_from total_weight in ground arith)
  | inr e ↦
      let (p, d, c) =
        primary-Chosen (pick - weight_of x) (i + 1) deps (left_over pick x deps e h) in
      (suc p, d, Chosen-next pick i x deps p d e c)
]

nothing : (p : ℕ) (d : DeploymentInfo) → get_elem? {A = DeploymentInfo} [] p ≡ some d → ⊥
nothing p d h = cc

-- From index i on, no index is a primary below i.
all_but-none :
    (primary i : ℕ) (deps : List DeploymentInfo) → primary < i → all_but primary i deps ≡ deps
unfolding all_but
all_but-none primary i [] h = refl
all_but-none primary i (x ∷ deps) h = ground (arith, all_but-none primary (i + 1) deps)

all_but_here :
    (i : ℕ) (x : DeploymentInfo) (deps : List DeploymentInfo)
    → all_but (i + 0) i (x ∷ deps) ≡ all_but (i + 0) (i + 1) deps
unfolding all_but
all_but_here i x deps = ground arith

all_but_keep :
    (primary i : ℕ) (x : DeploymentInfo) (deps : List DeploymentInfo)
    → (i == primary) ≡ false
    → all_but primary i (x ∷ deps) ≡ x ∷ all_but primary (i + 1) deps
unfolding all_but
all_but_keep primary i x deps e = rw e refl

all_but_later :
    (p i : ℕ) (x : DeploymentInfo) (deps : List DeploymentInfo)
    → all_but (i + suc p) i (x ∷ deps) ≡ x ∷ all_but (i + 1 + p) (i + 1) deps
all_but_later p i x deps =
    let same : i + suc p ≡ i + 1 + p = omega arith in
    all_but_keep (i + suc p) i x deps (ground arith)
    ∙ ap (λ (k : ℕ). x ∷ all_but k (i + 1) deps) same

all_but-perm :
    (p i : ℕ) (deps : List DeploymentInfo) (d : DeploymentInfo)
    → get_elem? deps p ≡ some d
    → Perm (d ∷ all_but (i + p) i deps) deps
all_but-perm p i [] d h = absurd (nothing p d h)
all_but-perm zero i (x ∷ deps) d h =
    let same : x ≡ d = cc h in
    rw (all_but_here i x deps, all_but-none (i + 0) (i + 1) deps (omega arith), same)
      (Perm.refl (d ∷ deps))
all_but-perm (suc p) i (x ∷ deps) d h = rw (all_but_later p i x deps) (
    Perm.trans (Perm.swap x d (all_but (i + 1 + p) (i + 1) deps))
      (Perm.cons x (all_but-perm p (i + 1) deps d h)))

-- Where the weights are not all 1, a number below their total that is drawn chooses the first
-- deployment: the one whose range of weights it falls into, so that a deployment is first for as
-- many of the numbers as its weight. The others follow, and the result is a permutation.
pub weighted-chooses :
    (rand : Rand) (name : String) (deps : List DeploymentInfo) (r : ModelRouter)
    → length deps < total_weight deps
    → rand r.draws (total_weight deps) < total_weight deps
    → let pick = rand r.draws (total_weight deps) in
      (p : ℕ) × (d : DeploymentInfo) × (others : List DeploymentInfo) × (weighted rand name deps r
        ≡ some (d ∷ others, record r { draws = r.draws + 1 }))
      × (get_elem? deps p ≡ some d)
      × (total_weight (take p deps) ≤ pick)
      × (pick < total_weight (take p deps) + weight_of d)
      × Perm (d ∷ others) deps
unfolding weighted
weighted-chooses rand name deps r h k =
    let pick : ℕ = rand r.draws (total_weight deps) in
    let (p, d, c) = primary-Chosen pick 0 deps k in
    let at : primary_from pick 0 deps ≡ p = c.index ∙ omega arith in
    let many : leb (total_weight deps) (length deps) ≡ false = ground arith in
    let perm : Perm (d ∷ all_but p 0 deps) deps =
      rw zero-add at (all_but-perm p 0 deps d c.element) in
    (p, d, all_but p 0 deps, rw (many, at, c.element) refl, c.element, c.above, c.below, perm)
