-- ===== src/Router/Resolve/Tables.antt =====
-- The tables of the router that New and Reload build (backend/internal/router/router.go).
use gateway_llm.Prelude.{
  ℕ, ◌+◌, String, Option, none, some, List, [], ◌∷◌, ◌++◌, ◌==◌, if◌then◌else◌,
}
use gateway_llm.Prelude.Int.{ℤ, pos}
use gateway_llm.Router.Deployment.{DeploymentInfo}
use gateway_llm.Router.State.{ModelRouter, RoutingConfig, lookup, store}

-- The key of a deployment in the index: uuid.Nil, the number 0, for a global one.
abbrev pub org_key : Option ℕ → ℕ
org_key none = 0
org_key (some org) = org

-- index[org], ok
unfoldable pub lookup_org : ℕ → List (ℕ × List DeploymentInfo) → Option (List DeploymentInfo)
lookup_org org [] = none
lookup_org org ((key, deps) ∷ rest) = if key == org then some deps else lookup_org org rest

-- idx[key] = append(idx[key], d)
unfoldable pub append_at :
    ℕ → DeploymentInfo → List (ℕ × List DeploymentInfo) → List (ℕ × List DeploymentInfo)
append_at key d [] = (key, d ∷ []) ∷ []
append_at key d ((k, deps) ∷ rest) =
    if k == key then (k, deps ++ d ∷ []) ∷ rest else (k, deps) ∷ append_at key d rest

unfoldable pub index_loop :
    List (ℕ × List DeploymentInfo) → List DeploymentInfo → List (ℕ × List DeploymentInfo)
index_loop idx [] = idx
index_loop idx (d ∷ ds) = index_loop (append_at (org_key d.org_id) d idx) ds

-- buildOrgIndex
unfoldable pub build_org_index : List DeploymentInfo → List (ℕ × List DeploymentInfo)
build_org_index deps = index_loop [] deps

-- config.Deployment and config.ModelAlias
pub record ConfigDeployment : Type 0 where
  pub provider : String
  pub model : String
  pub api_key_env : String
  pub api_base : String
  pub priority : ℤ

pub record ModelAlias : Type 0 where
  pub model_alias : String
  pub deployments : List ConfigDeployment

-- The DeploymentInfo of a configured deployment, allocated at an address; the other fields are zero.
unfoldable pub configured : (String → String) → ℕ → ConfigDeployment → DeploymentInfo
configured getenv addr d = record {
  addr = addr;
  provider = d.provider;
  provider_model = d.model;
  api_key = getenv d.api_key_env;
  api_base = d.api_base;
  priority = d.priority;
  org_id = none;
  weight = pos 0;
  variant_id = "";
  routing_strategy = "";
}

unfoldable pub configure_all :
    (String → String) → ℕ → List ConfigDeployment → List DeploymentInfo × ℕ
configure_all getenv addr [] = ([], addr)
configure_all getenv addr (d ∷ ds) =
    let (rest, addr') = configure_all getenv (addr + 1) ds in
    (configured getenv addr d ∷ rest, addr')

-- One round of the loop of New.
unfoldable pub add_alias : String → List DeploymentInfo → ModelRouter → ModelRouter
add_alias name deps r = record r {
  aliases = store name deps r.aliases;
  counters = store name 0 r.counters;
  org_index = store name (build_org_index deps) r.org_index;
}

unfoldable pub new_loop : (String → String) → ℕ → List ModelAlias → ModelRouter → ModelRouter
new_loop getenv addr [] r = r
new_loop getenv addr (a ∷ rest) r =
    let (deps, addr') = configure_all getenv addr a.deployments in
    new_loop getenv addr' rest (add_alias a.model_alias deps r)

-- New
unfoldable pub new_router : (String → String) → List ModelAlias → RoutingConfig → ModelRouter
new_router getenv models cfg = new_loop getenv 1 models (record {
  aliases = [];
  strategy = cfg.strategy;
  counters = [];
  org_index = [];
  cfg = cfg;
  pricing = none;
  draws = 0;
})

-- The indices of the new aliases.
unfoldable pub index_all :
    List (String × List DeploymentInfo) → List (String × List (ℕ × List DeploymentInfo))
index_all [] = []
index_all ((name, deps) ∷ rest) = (name, build_org_index deps) ∷ index_all rest

unfoldable pub add_if_missing : Option ℕ → String → List (String × ℕ) → List (String × ℕ)
add_if_missing none name counters = store name 0 counters
add_if_missing (some c) name counters = counters

-- A counter for each alias that has none.
unfoldable pub add_counters :
    List (String × List DeploymentInfo) → List (String × ℕ) → List (String × ℕ)
unfolding add_if_missing
add_counters [] counters = counters
add_counters ((name, deps) ∷ rest) counters =
    add_counters rest (add_if_missing (lookup name counters) name counters)

-- The counters of the aliases that are left.
unfoldable pub keep_counters :
    List (String × List DeploymentInfo) → List (String × ℕ) → List (String × ℕ)
keep_counters aliases [] = []
keep_counters aliases ((name, c) ∷ rest) =
    let kept = keep_counters aliases rest in
    elim (lookup name aliases) [ none ↦ kept | some deps ↦ (name, c) ∷ kept ]

-- Reload
unfoldable pub reload : List (String × List DeploymentInfo) → ModelRouter → ModelRouter
reload aliases r = record r {
  aliases = aliases;
  org_index = index_all aliases;
  counters = keep_counters aliases (add_counters aliases r.counters);
}
