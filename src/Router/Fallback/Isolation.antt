-- ===== src/Router/Fallback/Isolation.antt =====
-- A whole execution for an organization (`ExecuteWithFallbackForOrg` of
-- backend/internal/router/fallback.go, with `ResolveForOrg` of backend/internal/router/router.go).
use mathlib.Core.List.{Mem}
use gateway_llm.Prelude.{ℕ, ◌<◌, ◌≡◌, refl, String, true, Option, none, some, List}
use gateway_llm.Router.Deployment.{DeploymentInfo, Heap}
use gateway_llm.Router.Deployment.Laws.{IsRested}
use gateway_llm.Router.State.{ModelRouter, Rand}
use gateway_llm.Router.Order.Total.{InRange}
use gateway_llm.Router.Resolve.{Resolved, ok, err}
use gateway_llm.Router.Resolve.Reload.{IsConsistent}
use gateway_llm.Router.Resolve.Answers.{is_visible, HasRoom}
use gateway_llm.Router.Resolve.Tenancy.{resolve_for_org-Answers}
use gateway_llm.Router.Fallback.{
  Outside, ExecError, resolve_error, Executed, success, failure, try_all, on_resolved,
  execute_for_org,
}
use gateway_llm.Router.Fallback.Success.{try_all-success}

-- An execution that returns, and whose successes are the organization's.
pub record Serves {W : Type 0} (org : Option ℕ) (res : Option (Executed × Heap × W × ModelRouter))
    : Type 0 where
  pub answer : Executed
  pub heap : Heap
  pub world : W
  pub router : ModelRouter
  pub returns : res ≡ some (answer, heap, world, router)
  pub serves :
      (status : ℕ) (x : DeploymentInfo)
      → answer ≡ success status x
      → (is_visible org x ≡ true) × (status < 500) × IsRested (heap x.addr)

failure_not :
    (e : ExecError) (o : Option DeploymentInfo) (s : ℕ) (x : DeploymentInfo)
    → failure e o ≡ success s x
    → ⊥
failure_not e o s x eq = cc

module _ {W : Type 0} (out : Outside W) (rand : Rand) where
  on_resolved-Serves :
      (org : Option ℕ) (name : String) (a : Resolved) (r : ModelRouter) (h : Heap) (w : W)
      → ((deps : List DeploymentInfo) (d : DeploymentInfo)
          → a ≡ ok deps
          → Mem d deps
          → is_visible org d ≡ true)
      → Serves org (on_resolved out rand name (some (a, r)) h w)
  unfolding on_resolved
  on_resolved-Serves org name (err e) r h w v = record {
    answer = failure (resolve_error e) none;
    heap = h;
    world = w;
    router = r;
    returns = refl;
    serves = λ status x eq. absurd (failure_not _ _ status x eq);
  }
  on_resolved-Serves org name (ok deps) r h w v = record {
    answer = (try_all out r.cfg name deps none h w).0;
    heap = (try_all out r.cfg name deps none h w).1;
    world = (try_all out r.cfg name deps none h w).2;
    router = r;
    returns = refl;
    serves = λ status x eq.
        let (m, low, rested, answered) = try_all-success out r.cfg name deps none h w status x eq in
        (v deps x refl m, low, rested);
  }

-- In a router whose tables are consistent and whose counters are not near 2 ^ 63, and with drawn
-- numbers in range, ExecuteWithFallbackForOrg returns and does not panic, whatever the request
-- function, the clock and the wait do. Where it returns a success, it names a deployment that is
-- visible to the organization and whose status is below 500, and this deployment's breaker is
-- closed and nothing is counted against it afterwards.
pub execute_for_org-Serves :
    {W : Type 0} (out : Outside W) (rand : Rand) (org : Option ℕ) (name : String) (r : ModelRouter)
    (h : Heap) (w : W)
    → InRange rand
    → IsConsistent r
    → HasRoom r
    → Serves org (execute_for_org out rand org name r h w)
unfolding execute_for_org
execute_for_org-Serves out rand org name r h w in_range tables room =
    let a = resolve_for_org-Answers rand h org name r in_range tables room in
    rw a.returns (on_resolved-Serves out rand org name a.answer a.router h w a.visible)
