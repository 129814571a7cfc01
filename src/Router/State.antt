-- ===== src/Router/State.antt =====
-- The state of the router, and its maps (backend/internal/router/router.go).
use gateway_llm.Prelude.{
  ℕ, String, Bool, Option, none, some, List, [], ◌∷◌, ◌≡◌, refl, arith, eq_iff, str_eq,
  if◌then◌else◌,
}
use gateway_llm.Prelude.Int.{ℤ}
use gateway_llm.Router.Deployment.{DeploymentInfo}

-- config.RoutingConfig
pub record RoutingConfig : Type 0 where
  pub strategy : String
  pub retries : ℤ
  pub retry_delay : ℕ
  pub fallback_enabled : Bool

-- ModelRouter. A map is an association list, `counters` has each alias's count, a price is a number
-- of units per token, and `draws` counts the numbers that were drawn from math/rand.
pub record ModelRouter : Type 0 where
  pub aliases : List (String × List DeploymentInfo)
  pub strategy : String
  pub counters : List (String × ℕ)
  pub org_index : List (String × List (ℕ × List DeploymentInfo))
  pub cfg : RoutingConfig
  pub pricing : Option (String → String → Option (ℕ × ℕ))
  pub draws : ℕ

-- SetPricingLookup
unfoldable pub set_pricing_lookup :
    Option (String → String → Option (ℕ × ℕ)) → ModelRouter → ModelRouter
set_pricing_lookup lookup_price r = record r { pricing = lookup_price }

-- `rand k n` is the answer of rand.Intn(n) or rand.Int63n(n) as the k-th number drawn.
abbrev pub Rand : Type 0
Rand = ℕ → ℕ → ℕ

module _ {ℓ} {V : Type ℓ} where
  -- m[key], ok
  unfoldable pub lookup : String → List (String × V) → Option V
  lookup key [] = none
  lookup key ((k, v) ∷ rest) = if str_eq k key then some v else lookup key rest

  -- m[key] = v
  unfoldable pub store : String → V → List (String × V) → List (String × V)
  store key v [] = (key, v) ∷ []
  store key v ((k, w) ∷ rest) = if str_eq k key then (key, v) ∷ rest else (k, w) ∷ store key v rest

  -- A store gives its key the value and leaves the other keys'.
  pub lookup-store :
      (key k : String) (v : V) (m : List (String × V))
      → lookup key (store k v m) ≡ (if str_eq k key then some v else lookup key m)
  unfolding lookup store
  lookup-store key k v [] = refl
  lookup-store key k v ((j, w) ∷ rest) =
      ground (arith, eq_iff j k, eq_iff k key, eq_iff j key, lookup-store key k v rest)
