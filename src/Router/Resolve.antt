-- ===== src/Router/Resolve.antt =====
-- Which deployments serve a model (backend/internal/router/router.go): resolution with and without
-- an organization, the prefixes of LiteLLM, and the tables that New and Reload build.
pub mod Prefix
pub mod Tables
pub mod Index
pub mod Reload
pub mod Canonical
pub mod Answers
pub mod Tenancy
use Prim.Native.String.{◌++◌}
use gateway_llm.Prelude.{
  ℕ, String, Bool, true, false, ◌&&◌, ◌||◌, Option, none, some, List, [], ◌∷◌, ◌==◌, str_eq,
  if◌then◌else◌, map,
}
use gateway_llm.Router.Deployment.{DeploymentInfo, Heap}
use gateway_llm.Router.State.{ModelRouter, Rand, lookup}
use gateway_llm.Router.Order.{order}
use gateway_llm.Router.Order.Index.{◌>>=◌}
use gateway_llm.Router.Resolve.Prefix.{split_litellm_prefix}
use gateway_llm.Router.Resolve.Tables.{lookup_org}

-- The two errors of resolution, with the model.
pub data ResolveError : Type 0 where
  model_not_found : String → ResolveError
  not_found_for_org : String → ResolveError

pub data Resolved : Type 0 where
  ok : List DeploymentInfo → Resolved
  err : ResolveError → Resolved

abbrev serves : String → String → DeploymentInfo → Bool
serves provider model d = str_eq d.provider provider && str_eq d.provider_model model

-- The inner loop of resolveByProviderModel.
find_serving : String → String → List DeploymentInfo → Option DeploymentInfo
find_serving provider model [] = none
find_serving provider model (d ∷ ds) =
    if serves provider model d then some d else find_serving provider model ds

-- resolveByProviderModel: the aliases in the order in which the map is ranged over.
unfoldable pub resolve_by_provider_model :
    String → String → List (String × List DeploymentInfo) → List DeploymentInfo
unfolding find_serving
resolve_by_provider_model provider model [] = []
resolve_by_provider_model provider model ((name, deps) ∷ rest) =
    let later = resolve_by_provider_model provider model rest in
    elim (find_serving provider model deps) [ none ↦ later | some d ↦ d ∷ [] ]

-- aliasNameForDeployment, "" if there is none
unfoldable pub alias_name_for_deployment :
    String → String → List (String × List DeploymentInfo) → String
unfolding find_serving
alias_name_for_deployment provider model [] = ""
alias_name_for_deployment provider model ((name, deps) ∷ rest) =
    let later = alias_name_for_deployment provider model rest in
    elim (find_serving provider model deps) [ none ↦ later | some d ↦ name ]

module _ (rand : Rand) (h : Heap) where
  -- return r.order(alias, deps), nil
  unfoldable pub ordered :
      String → List DeploymentInfo → ModelRouter → Option (Resolved × ModelRouter)
  ordered name deps r = do (out, r') ← order rand h name deps r; some (ok out, r')

  resolve_served : String → List DeploymentInfo → ModelRouter → Option (Resolved × ModelRouter)
  resolve_served name [] r = some (err (model_not_found name), r)
  resolve_served name (d ∷ ds) r = ordered name (d ∷ ds) r

  -- The second half of Resolve.
  pub resolve_prefixed :
      Option (String × String) → String → ModelRouter → Option (Resolved × ModelRouter)
  unfolding resolve_served
  resolve_prefixed none name r = some (err (model_not_found name), r)
  resolve_prefixed (some (provider, model)) name r =
      resolve_served name (resolve_by_provider_model provider model r.aliases) r

  resolve_listed :
      Option (List DeploymentInfo) → String → ModelRouter → Option (Resolved × ModelRouter)
  unfolding resolve_prefixed
  resolve_listed (some (d ∷ ds)) name r = ordered name (d ∷ ds) r
  resolve_listed _ name r = resolve_prefixed (split_litellm_prefix name) name r

  -- Resolve
  unfoldable pub resolve : String → ModelRouter → Option (Resolved × ModelRouter)
  unfolding resolve_listed
  resolve name r = resolve_listed (lookup name r.aliases) name r

-- The branch of ResolveCanonical for a name that is no alias.
canonical_name : Option (String × String) → String → ModelRouter → String
canonical_name none name r = name
canonical_name (some (provider, model)) name r =
    let found = alias_name_for_deployment provider model r.aliases in
    elim (resolve_by_provider_model provider model r.aliases) [
      | [] ↦ name
      | d ∷ ds ↦ if str_eq found "" then provider ++ "/" ++ model else found
    ]

-- ResolveCanonical
unfoldable pub resolve_canonical : String → ModelRouter → String
unfolding canonical_name
resolve_canonical name r = elim (lookup name r.aliases) [
  | none ↦ canonical_name (split_litellm_prefix name) name r
  | some deps ↦ name
]

-- ListAliases
unfoldable pub list_aliases : ModelRouter → List String
list_aliases r = map (λ entry. entry.0) r.aliases

-- A nil slice for a missing key.
abbrev pub or_nil : Option (List DeploymentInfo) → List DeploymentInfo
or_nil none = []
or_nil (some deps) = deps

-- GetDeployments
unfoldable pub get_deployments : String → ModelRouter → List DeploymentInfo
get_deployments name r = or_nil (lookup name r.aliases)

-- Global, or the organization's own.
abbrev pub is_own : ℕ → Option ℕ → Bool
is_own org none = true
is_own org (some o) = o == org

unfoldable pub keep_own : ℕ → List DeploymentInfo → List DeploymentInfo
keep_own org [] = []
keep_own org (d ∷ ds) = let rest = keep_own org ds in if is_own org d.org_id then d ∷ rest else rest

filtered : String → List DeploymentInfo → Resolved
filtered name [] = err (model_not_found name)
filtered name (d ∷ ds) = ok (d ∷ ds)

-- What ResolveForOrg makes of the answer of Resolve.
pub scoped : Option ℕ → String → Resolved → Resolved
unfolding filtered
scoped org name (err e) = err (model_not_found name)
scoped org name (ok []) = err (model_not_found name)
scoped none name (ok (d ∷ ds)) = ok (d ∷ ds)
scoped (some org) name (ok (d ∷ ds)) = filtered name (keep_own org (d ∷ ds))

module _ (rand : Rand) (h : Heap) where
  resolve_scoped : Option ℕ → String → ModelRouter → Option (Resolved × ModelRouter)
  unfolding scoped
  resolve_scoped org name r = do
    (answer, r') ← resolve rand h name r
    some (scoped org name answer, r')

  -- The global deployments, under uuid.Nil.
  resolve_global :
      Option (List DeploymentInfo) → String → ModelRouter → Option (Resolved × ModelRouter)
  resolve_global (some (d ∷ ds)) name r = ordered rand h name (d ∷ ds) r
  resolve_global _ name r = some (err (not_found_for_org name), r)

  -- The organization's deployments, else the global ones.
  resolve_own :
      Option (List DeploymentInfo)
      → List (ℕ × List DeploymentInfo)
      → String
      → ModelRouter
      → Option (Resolved × ModelRouter)
  unfolding resolve_global
  resolve_own (some (d ∷ ds)) index name r = ordered rand h name (d ∷ ds) r
  resolve_own _ index name r = resolve_global (lookup_org 0 index) name r

  resolve_indexed :
      Option (List (ℕ × List DeploymentInfo))
      → Option ℕ
      → String
      → ModelRouter
      → Option (Resolved × ModelRouter)
  unfolding resolve_scoped resolve_own
  resolve_indexed (some (entry ∷ rest)) none name r =
      ordered rand h name (or_nil (lookup name r.aliases)) r
  resolve_indexed (some (entry ∷ rest)) (some org) name r =
      resolve_own (lookup_org org (entry ∷ rest)) (entry ∷ rest) name r
  resolve_indexed _ org name r = resolve_scoped org name r

  -- ResolveForOrg
  unfoldable pub resolve_for_org : Option ℕ → String → ModelRouter → Option (Resolved × ModelRouter)
  unfolding resolve_indexed
  resolve_for_org org name r = resolve_indexed (lookup name r.org_index) org name r
