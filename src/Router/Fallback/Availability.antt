-- ===== src/Router/Fallback/Availability.antt =====
-- Execution with a healthy deployment (backend/internal/router/fallback.go).
use mathlib.Core.Bool.{false≢true}
use gateway_llm.Prelude.{
  ℕ, ◌<◌, ◌≡◌, ◌≢◌, refl, ap, ◌∙◌, String, Bool, true, false, Option, some, List, [], ◌∷◌, ◌++◌,
  arith,
}
use gateway_llm.Router.Breaker.{circuit_closed}
use gateway_llm.Router.Deployment.{DeploymentInfo, Heap, allow_deployment, breaker_of}
use gateway_llm.Router.Deployment.Laws.{allow_closed}
use gateway_llm.Router.State.{RoutingConfig}
use gateway_llm.Router.Sort.Laws.{AllOf}
use gateway_llm.Router.Fallback.{
  Outside, Reply, failed, responded, Failure, Executed, success, Tried, served, refused, attempt,
  execute_with_retry, after_attempt, after_try, gate, judge, try_one, try_all,
}
use gateway_llm.Router.Fallback.Frame.{try_one-SameElsewhere}

-- Every call of the deployment is answered with a status below 500.
abbrev pub IsHealthy : {W : Type 0} → Outside W → DeploymentInfo → Type 0
IsHealthy {W} out d = (w : W) → (s : ℕ) × ((out.call d w).0 ≡ responded s) × (s < 500)

abbrev pub IsSuccess : Executed → Type 0
IsSuccess e = (s : ℕ) × (x : DeploymentInfo) × (e ≡ success s x)

refused_not : (f : Failure) (s : ℕ) → refused f ≡ served s → ⊥
refused_not f s e = cc

module _ {W : Type 0} (out : Outside W) (cfg : RoutingConfig) where
  retry_answered :
      (s : ℕ) (r : Reply × Heap × W) (next : String → Heap → W → Reply × Heap × W)
      → r.0 ≡ responded s
      → (after_attempt r next).0 ≡ responded s
  unfolding after_attempt
  retry_answered s (responded t, h, w) next e = e
  retry_answered s (failed m, h, w) next e = cc

  execute_answered :
      (d : DeploymentInfo) (h : Heap) (w : W)
      → IsHealthy out d
      → (s : ℕ) × ((execute_with_retry out cfg d h w).0 ≡ responded s) × (s < 500)
  unfolding execute_with_retry attempt
  execute_answered d h w healthy =
      let (s, e, low) = healthy (out.now w).1 in (s, retry_answered s _ _ e, low)

  judge-served :
      (d : DeploymentInfo) (s : ℕ) (r : Reply × Heap × W)
      → r.0 ≡ responded s
      → s < 500
      → (judge out cfg d r).0 ≡ served s
  unfolding judge
  judge-served d s (responded t, h, w) e low = ground arith
  judge-served d s (failed m, h, w) e low = cc

  gate-served :
      (d : DeploymentInfo) (r : Bool × Heap) (w : W)
      → r.0 ≡ true
      → IsHealthy out d
      → (s : ℕ) × ((gate out cfg d r w).0 ≡ served s)
  gate-served d (true, h) w e healthy =
      let (s, answered, low) = execute_answered d h w healthy in
      (s, unfold gate in judge-served d s (execute_with_retry out cfg d h w) answered low)
  gate-served d (false, h) w e healthy = absurd (false≢true e)

  try_one-served :
      (d : DeploymentInfo) (h : Heap) (w : W)
      → (breaker_of (h d.addr)).state ≡ circuit_closed
      → IsHealthy out d
      → (s : ℕ) × ((try_one out cfg d h w).0 ≡ served s)
  unfolding try_one
  try_one-served d h w closed healthy =
      gate-served d (allow_deployment (out.now w).0 d h) (out.now w).1
        (allow_closed (out.now w).0 d h closed) healthy

  after_served :
      (s : ℕ) (fallback : Bool) (d : DeploymentInfo) (r : Tried × Heap × W)
      (next : Failure → Heap → W → Executed × Heap × W)
      → r.0 ≡ served s
      → IsSuccess (after_try fallback d r next).0
  unfolding after_try
  after_served s fallback d (served t, h, w) next e = (t, d, refl)
  after_served s fallback d (refused f, h, w) next e = absurd (refused_not f s e)

  after_any :
      (fallback : Bool) (d : DeploymentInfo) (r : Tried × Heap × W)
      (next : Failure → Heap → W → Executed × Heap × W)
      → fallback ≡ true
      → ((f : Failure) (h : Heap) (w : W) → h ≡ r.1 → IsSuccess (next f h w).0)
      → IsSuccess (after_try fallback d r next).0
  unfolding after_try
  after_any fallback d (served t, h, w) next on f = (t, d, refl)
  after_any true d (refused g, h, w) next on f = f g h w refl
  after_any false d (refused g, h, w) next on f = absurd (false≢true on)

  -- With fallback enabled, a list with a healthy deployment whose breaker is closed is served, by
  -- this deployment or an earlier one, whatever the others do; the earlier ones stand at other
  -- addresses.
  pub try_all_available :
      (name : String) (before after : List DeploymentInfo) (d : DeploymentInfo)
      (last : Option Failure) (h : Heap) (w : W)
      → cfg.fallback_enabled ≡ true
      → AllOf (λ e. d.addr ≢ e.addr) before
      → (breaker_of (h d.addr)).state ≡ circuit_closed
      → IsHealthy out d
      → IsSuccess (try_all out cfg name (before ++ d ∷ after) last h w).0
  unfolding try_all
  try_all_available name [] after d last h w on apart closed healthy =
      let (s, e) = try_one-served d h w closed healthy in
      after_served s cfg.fallback_enabled d (try_one out cfg d h w) _ e
  try_all_available name (e ∷ before) after d last h w on apart closed healthy =
      after_any cfg.fallback_enabled e (try_one out cfg e h w) _ on (λ f h' w' same.
        try_all_available name before after d (some f) h' w' on apart.1
          (ap (λ (g : Heap). (breaker_of (g d.addr)).state) same
            ∙ ap (λ x. (breaker_of x).state) (try_one-SameElsewhere out cfg e h w d.addr apart.0)
            ∙ closed)
          healthy)
