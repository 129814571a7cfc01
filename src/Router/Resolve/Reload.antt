-- ===== src/Router/Resolve/Reload.antt =====
-- The tables of the router after New and after Reload (backend/internal/router/router.go).
use gateway_llm.Prelude.{
  ℕ, ◌≡◌, refl, ap, ◌∙◌, String, Bool, true, Option, none, some, List, [], ◌∷◌, str_eq, eq_iff,
  arith, if◌then◌else◌, Bool-cases, Option-cases, inl, inr,
}
use gateway_llm.Router.Deployment.{DeploymentInfo}
use gateway_llm.Router.State.{ModelRouter, RoutingConfig, lookup, lookup-store}
use gateway_llm.Router.Resolve.Tables.{
  ModelAlias, add_if_missing, build_org_index, configure_all, add_alias, new_loop, new_router,
  index_all, add_counters, keep_counters, reload,
}

abbrev pub index_of : Option (List DeploymentInfo) → Option (List (ℕ × List DeploymentInfo))
index_of none = none
index_of (some deps) = some (build_org_index deps)

-- The index holds for each alias the index of its deployments, and nothing else, and each alias has
-- a counter.
pub record IsConsistent (r : ModelRouter) : Type 0 where
  pub indexed : (name : String) → lookup name r.org_index ≡ index_of (lookup name r.aliases)
  pub counted :
      (name : String) (deps : List DeploymentInfo)
      → lookup name r.aliases ≡ some deps
      → (c : ℕ) × (lookup name r.counters ≡ some c)

counted_store :
    (name key : String) (new deps : List DeploymentInfo) (r : ModelRouter)
    → IsConsistent r
    → (if str_eq name key then some new else lookup key r.aliases) ≡ some deps
    → (c : ℕ) × ((if str_eq name key then some 0 else lookup key r.counters) ≡ some c)
counted_store name key new deps r v h = elim (Bool-cases (str_eq name key)) [
  | inl e ↦ (0, rw e refl)
  | inr e ↦ let (c, found) = v.counted key deps (rw e at h) in (c, rw e found)
]

add_alias-IsConsistent :
    (name : String) (deps : List DeploymentInfo) (r : ModelRouter)
    → IsConsistent r
    → IsConsistent (add_alias name deps r)
unfolding add_alias
add_alias-IsConsistent name deps r v = record {
  indexed = λ key. simp lookup-store (ground (arith, v.indexed key));
  counted = λ key ds found.
      rw lookup-store (counted_store name key deps ds r v (rw lookup-store at found));
}

new_loop-IsConsistent :
    (getenv : String → String) (addr : ℕ) (models : List ModelAlias) (r : ModelRouter)
    → IsConsistent r
    → IsConsistent (new_loop getenv addr models r)
unfolding new_loop
new_loop-IsConsistent getenv addr [] r v = v
new_loop-IsConsistent getenv addr (a ∷ rest) r v =
    let (deps, addr') = configure_all getenv addr a.deployments in
    new_loop-IsConsistent getenv addr' rest (add_alias a.model_alias deps r)
      (add_alias-IsConsistent a.model_alias deps r v)

nothing :
    (name : String) (deps : List DeploymentInfo)
    → lookup {V = List DeploymentInfo} name [] ≡ some deps
    → ⊥
unfolding lookup
nothing name deps h = cc

-- The router that New builds from any configuration, repeated aliases included, has consistent
-- tables.
pub new_router-IsConsistent :
    (getenv : String → String) (models : List ModelAlias) (cfg : RoutingConfig)
    → IsConsistent (new_router getenv models cfg)
new_router-IsConsistent getenv models cfg =
    unfold new_router in
    new_loop-IsConsistent getenv 1 models _ (record {
      indexed = λ name. unfold lookup in refl;
      counted = λ name deps found. absurd (nothing name deps found);
    })

lookup-index_all :
    (name : String) (aliases : List (String × List DeploymentInfo))
    → lookup name (index_all aliases) ≡ index_of (lookup name aliases)
unfolding lookup index_all
lookup-index_all name [] = refl
lookup-index_all name ((k, deps) ∷ rest) = ground (arith, lookup-index_all name rest)

-- The old count, or 0 for an alias that had none.
abbrev pub count_or_zero : Option (List DeploymentInfo) → Option ℕ → Option ℕ
count_or_zero none old = old
count_or_zero (some deps) none = some 0
count_or_zero (some deps) (some c) = some c

same_lookup :
    (name key : String) (counters : List (String × ℕ))
    → str_eq name key ≡ true
    → lookup name counters ≡ lookup key counters
same_lookup name key counters e = ap (λ k. lookup k counters) ((eq_iff name key).0 e)

add_counters_step :
    (k : String) (deps : List DeploymentInfo) (rest : List (String × List DeploymentInfo))
    (counters : List (String × ℕ)) (name : String)
    → lookup name (add_counters ((k, deps) ∷ rest) counters)
      ≡ lookup name (add_counters rest (add_if_missing (lookup k counters) k counters))
unfolding add_counters
add_counters_step k deps rest counters name = refl

-- A count that is missing becomes 0, under the key alone.
abbrev or_zero : Option ℕ → Option ℕ
or_zero none = some 0
or_zero (some c) = some c

count_cases :
    (b : Bool) (deps : List DeploymentInfo) (o : Option (List DeploymentInfo)) (old : Option ℕ)
    → count_or_zero o (if b then or_zero old else old)
      ≡ count_or_zero (if b then some deps else o) old
count_cases b deps o old = ground arith

lookup-add_if_missing :
    (name key : String) (counters : List (String × ℕ))
    → lookup key (add_if_missing (lookup name counters) name counters)
      ≡ (if str_eq name key then or_zero (lookup key counters) else lookup key counters)
unfolding add_if_missing
lookup-add_if_missing name key counters = elim (Option-cases (lookup name counters)) [
  | inl e ↦
      rw (e, add_if_missing)
        (rw lookup-store (ground (arith, eq_iff name key, same_lookup name key counters)))
  | inr (c, e) ↦ rw (e, add_if_missing) (ground (arith, same_lookup name key counters))
]

lookup-add_counters :
    (name : String) (aliases : List (String × List DeploymentInfo)) (counters : List (String × ℕ))
    → lookup name (add_counters aliases counters)
      ≡ count_or_zero (lookup name aliases) (lookup name counters)
lookup-add_counters name [] counters = unfold lookup add_counters in refl
lookup-add_counters name ((k, deps) ∷ rest) counters =
    add_counters_step k deps rest counters name
    ∙ lookup-add_counters name rest (add_if_missing (lookup k counters) k counters)
    ∙ ap (count_or_zero (lookup name rest)) (lookup-add_if_missing k name counters)
    ∙ count_cases (str_eq k name) deps (lookup name rest) (lookup name counters)
    ∙ ap (λ o. count_or_zero o (lookup name counters)) (unfold lookup in refl)

lookup-keep_counters :
    (name : String) (aliases : List (String × List DeploymentInfo)) (counters : List (String × ℕ))
    → lookup name (keep_counters aliases counters)
      ≡ (elim (lookup name aliases) [ none ↦ none | some deps ↦ lookup name counters ])
unfolding lookup keep_counters
lookup-keep_counters name aliases [] = ground arith
lookup-keep_counters name aliases ((k, c) ∷ rest) =
    ground (arith, lookup-keep_counters name aliases rest, eq_iff k name)

-- After Reload an alias of the new table has its old count, or 0 if it had none, and no other alias
-- has a counter.
pub lookup-reload_counters :
    (name : String) (aliases : List (String × List DeploymentInfo)) (r : ModelRouter)
    → lookup name (reload aliases r).counters ≡ (elim (lookup name aliases) [
      | none ↦ none
      | some deps ↦ count_or_zero (some deps) (lookup name r.counters)
    ])
unfolding reload
lookup-reload_counters name aliases r =
    lookup-keep_counters name aliases (add_counters aliases r.counters)
    ∙ ground (arith, lookup-add_counters name aliases r.counters)

reload_counted :
    (name : String) (aliases : List (String × List DeploymentInfo)) (r : ModelRouter)
    (deps : List DeploymentInfo)
    → lookup name (reload aliases r).aliases ≡ some deps
    → (c : ℕ) × (lookup name (reload aliases r).counters ≡ some c)
reload_counted name aliases r deps found =
    let kept : lookup name aliases ≡ some deps = unfold reload in found in
    elim (Option-cases (lookup name r.counters)) [
      | inl e ↦ (0, lookup-reload_counters name aliases r ∙ rw (kept, e) refl)
      | inr (c, e) ↦ (c, lookup-reload_counters name aliases r ∙ rw (kept, e) refl)
    ]

-- Reload leaves consistent tables, whatever the router's tables were.
pub reload-IsConsistent :
    (aliases : List (String × List DeploymentInfo)) (r : ModelRouter)
    → IsConsistent (reload aliases r)
reload-IsConsistent aliases r = record {
  indexed = λ name. unfold reload in lookup-index_all name aliases;
  counted = λ name deps found. reload_counted name aliases r deps found;
}
