-- ===== src/Router/Resolve/Canonical.antt =====
-- The canonical name of a model (`ResolveCanonical` of backend/internal/router/router.go).
use gateway_llm.Prelude.{
  ◌≡◌, refl, sym, ap, ◌∙◌, String, false, Option, none, some, List, [], ◌∷◌, str_eq, eq_iff,
  Bool-cases, Option-cases, ◌⊎◌, inl, inr,
}
use gateway_llm.Router.Deployment.{DeploymentInfo}
use gateway_llm.Router.State.{ModelRouter, lookup}
use gateway_llm.Router.Resolve.Prefix.{split_litellm_prefix}
use gateway_llm.Router.Resolve.{
  find_serving, resolve_by_provider_model, alias_name_for_deployment, canonical_name,
  resolve_canonical,
}

-- A deployment that is found has an alias that is found, and it is in the table.
found_alias :
    (provider model : String) (aliases : List (String × List DeploymentInfo))
    → (resolve_by_provider_model provider model aliases ≡ [])
      ⊎ ((deps : List DeploymentInfo) × (lookup
              (alias_name_for_deployment provider model aliases)
              aliases
            ≡ some deps))
unfolding resolve_by_provider_model alias_name_for_deployment lookup
found_alias provider model [] = inl refl
found_alias provider model ((name, deps) ∷ rest) =
    elim (Option-cases (find_serving provider model deps)) [
      | inr (d, e) ↦
          rw (e, resolve_by_provider_model, alias_name_for_deployment)
            (inr (deps, rw ((eq_iff name name).1 refl) refl))
      | inl e ↦
          let skip : alias_name_for_deployment provider model ((name, deps) ∷ rest)
              ≡ alias_name_for_deployment provider model rest =
            rw (e, alias_name_for_deployment) refl in
          elim (found_alias provider model rest) [
            | inl nothing ↦ inl (rw (e, resolve_by_provider_model) nothing)
            | inr (ds, at) ↦
                elim (Bool-cases (str_eq name (alias_name_for_deployment provider model rest))) [
                  | inl same ↦ inr (deps, rw (skip, same) refl)
                  | inr other ↦
                      inr (ds, ap (λ x. lookup x ((name, deps) ∷ rest)) skip ∙ rw other at)
                ]
          ]
    ]

canonical_alias :
    (name : String) (r : ModelRouter) (deps : List DeploymentInfo)
    → lookup name r.aliases ≡ some deps
    → resolve_canonical name r ≡ name
unfolding resolve_canonical
canonical_alias name r deps e = rw (e, resolve_canonical) refl

canonical_unlisted :
    (name : String) (r : ModelRouter)
    → lookup name r.aliases ≡ none
    → resolve_canonical name r ≡ canonical_name (split_litellm_prefix name) name r
unfolding resolve_canonical
canonical_unlisted name r e = rw (e, resolve_canonical) refl

none_not_some : (deps : List DeploymentInfo) → none ≡ some deps → ⊥
none_not_some deps e = cc

by_list :
    (provider model name : String) (r : ModelRouter) (l : List DeploymentInfo)
    → resolve_by_provider_model provider model r.aliases ≡ l
    → (deps : List DeploymentInfo)
    → lookup (alias_name_for_deployment provider model r.aliases) r.aliases ≡ some deps
    → str_eq (alias_name_for_deployment provider model r.aliases) "" ≡ false
    → (canonical_name (some (provider, model)) name r ≡ name)
      ⊎ ((ds : List DeploymentInfo) × (lookup
              (canonical_name (some (provider, model)) name r)
              r.aliases
            ≡ some ds))
unfolding canonical_name
by_list provider model name r [] e deps at named = rw (e, canonical_name) (inl refl)
by_list provider model name r (d ∷ ds) e deps at named =
    inr (deps, rw (e, canonical_name, named) at)

-- What the prefix path answers: the name itself, or an alias.
canonical_name_cases :
    (split : Option (String × String)) (name : String) (r : ModelRouter)
    → lookup "" r.aliases ≡ none
    → (canonical_name split name r ≡ name)
      ⊎ ((deps : List DeploymentInfo) × (lookup (canonical_name split name r) r.aliases
            ≡ some deps))
unfolding canonical_name
canonical_name_cases none name r e = inl refl
canonical_name_cases (some (provider, model)) name r e =
    elim (found_alias provider model r.aliases) [
      | inl nothing ↦ rw (nothing, canonical_name) (inl refl)
      | inr (deps, at) ↦
          elim (Bool-cases (str_eq (alias_name_for_deployment provider model r.aliases) "")) [
            | inl empty ↦ absurd (
                none_not_some deps (
                  sym e
                  ∙ ap (λ x. lookup x r.aliases)
                      (sym
                        ((eq_iff (alias_name_for_deployment provider model r.aliases) "").0 empty))
                  ∙ at))
            | inr named ↦
                by_list provider model name r (resolve_by_provider_model provider model r.aliases)
                  refl deps at named
          ]
    ]

-- Where no alias is the empty name, ResolveCanonical is idempotent, and what it answers is the
-- given name or an alias of the table.
pub resolve_canonical-idempotent :
    (name : String) (r : ModelRouter)
    → lookup "" r.aliases ≡ none
    → (resolve_canonical (resolve_canonical name r) r ≡ resolve_canonical name r)
      × ((resolve_canonical name r ≡ name)
          ⊎ ((deps : List DeploymentInfo) × (lookup (resolve_canonical name r) r.aliases
                ≡ some deps)))
resolve_canonical-idempotent name r e = elim (Option-cases (lookup name r.aliases)) [
  | inr (deps, at) ↦
      let same = canonical_alias name r deps at in (ap (λ x. resolve_canonical x r) same, inl same)
  | inl missing ↦
      let first = canonical_unlisted name r missing in
      elim (canonical_name_cases (split_litellm_prefix name) name r e) [
        | inl same ↦ let fixed = first ∙ same in (ap (λ x. resolve_canonical x r) fixed, inl fixed)
        | inr (deps, at) ↦
            let listed = ap (λ x. lookup x r.aliases) first ∙ at in
            (canonical_alias (resolve_canonical name r) r deps listed, inr (deps, listed))
      ]
]
