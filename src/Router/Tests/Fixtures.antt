-- ===== src/Router/Tests/Fixtures.antt =====
-- Deployments, routers and a world to test with.
use gateway_llm.Prelude.{ℕ, suc, String, Bool, true, false, Option, none, some, List, [], ◌∷◌}
use gateway_llm.Prelude.Int.{pos}
use gateway_llm.Router.Breaker.{CircuitBreaker, circuit_open}
use gateway_llm.Router.Deployment.{DeploymentInfo, Heap}
use gateway_llm.Router.State.{ModelRouter, Rand, RoutingConfig}
use gateway_llm.Router.Fallback.{Outside, responded}

abbrev pub deployment : ℕ → ℕ → Option ℕ → DeploymentInfo
deployment addr n org = record {
  addr = addr;
  provider = "openai";
  provider_model = "gpt-4o";
  api_key = "";
  api_base = "";
  priority = pos n;
  org_id = org;
  weight = pos n;
  variant_id = "";
  routing_strategy = "";
}

abbrev pub first : DeploymentInfo
first = deployment 0 2 none

abbrev pub second : DeploymentInfo
second = deployment 1 1 (some 7)

abbrev pub third : DeploymentInfo
third = deployment 2 1 (some 8)

abbrev pub shared : List (String × List DeploymentInfo)
shared = ("gpt", first ∷ second ∷ third ∷ []) ∷ []

abbrev pub config : Bool → RoutingConfig
config fallback = record {
  strategy = "round-robin";
  retries = pos 2;
  retry_delay = 5;
  fallback_enabled = fallback;
}

abbrev pub empty_router : ModelRouter
empty_router = record {
  aliases = [];
  strategy = "priority";
  counters = [];
  org_index = [];
  cfg = config true;
  pricing = some (λ provider model. some (3, 4));
  draws = 0;
}

abbrev pub counting_router : ModelRouter
counting_router = record empty_router { counters = ("gpt", 5) ∷ [] }

abbrev pub zeros : Rand
zeros k n = 0

abbrev pub rested : Heap
rested addr = record { latency_ewma = 0; failures = 0; breaker = none }

-- Every call is answered with 200, and counted.
abbrev pub healthy : Outside ℕ
healthy = record {
  call = λ d w. (responded 200, suc w);
  wait = λ n w. (none, w);
  now = λ w. (w, w);
  blend = λ a b. a;
}

abbrev pub tripped : CircuitBreaker
tripped = record {
  failure_threshold = 5;
  open_duration = 30;
  state = circuit_open;
  failures = 5;
  opened_at = 10;
  probe_in_flight = false;
}
