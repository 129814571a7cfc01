-- ===== src/Router/Fallback.antt =====
-- Execution with retries and fallback (backend/internal/router/fallback.go). The request function,
-- the wait between attempts and the clock are parameters: they read and change a world that the
-- model says nothing of. Logging is left out.
pub mod Attempts
pub mod Frame
pub mod Success
pub mod Availability
pub mod Isolation
use gateway_llm.Prelude.{
  ℕ, zero, suc, ◌-◌, ◌/◌, String, Bool, true, false, Option, none, some, List, [], ◌∷◌, leb,
  if◌then◌else◌,
}
use gateway_llm.Prelude.Int.{pos_part, nonpos}
use gateway_llm.Router.Deployment.{
  DeploymentInfo, Heap, allow_deployment, deployment_failed, deployment_succeeded, report_latency,
}
use gateway_llm.Router.State.{ModelRouter, Rand, RoutingConfig}
use gateway_llm.Router.Resolve.{Resolved, ok, err, ResolveError, resolve_for_org}

-- What the request function answers: an error, or a response with its status.
pub data Reply : Type 0 where
  failed : String → Reply
  responded : ℕ → Reply

-- The calls that reach outside. `call` is the RequestFunc, `wait` waits for the delay and says
-- whether the context ended first, with its error, `now` reads the clock, and `blend` is the
-- floating-point average of ReportLatency.
pub record Outside (W : Type 0) : Type 0 where
  pub call : DeploymentInfo → W → Reply × W
  pub wait : ℕ → W → Option String × W
  pub now : W → ℕ × W
  pub blend : ℕ → ℕ → ℕ

-- Why one deployment did not serve: its breaker, its own error, or a status of 500 or more.
pub data Failure : Type 0 where
  circuit_open_error : String → String → Failure
  call_error : String → Failure
  upstream_error : ℕ → Failure

pub data ExecError : Type 0 where
  resolve_error : ResolveError → ExecError
  not_tried_further : Failure → ExecError
  all_failed : String → Option Failure → ExecError

-- A status and the deployment that answered, or an error with the deployment that it names.
pub data Executed : Type 0 where
  success : ℕ → DeploymentInfo → Executed
  failure : ExecError → Option DeploymentInfo → Executed

-- What one deployment gives: the answer to return, or the failure that the loop goes on with.
pub data Tried : Type 0 where
  served : ℕ → Tried
  refused : Failure → Tried

-- maxRetries
unfoldable pub max_retries : RoutingConfig → ℕ
max_retries cfg = if nonpos cfg.retries then 1 else pos_part cfg.retries

module _ {W : Type 0} where
  -- `continue` after an error, `return resp, nil` after a response.
  unfoldable pub after_attempt :
      Reply × Heap × W → (String → Heap → W → Reply × Heap × W) → Reply × Heap × W
  after_attempt (responded status, h, w) next = (responded status, h, w)
  after_attempt (failed e, h, w) next = next e h w

  -- The select: the context's error is returned, or the delay is over.
  unfoldable pub after_wait : Option String × W → Heap → (W → Reply × Heap × W) → Reply × Heap × W
  after_wait (some e, w) h next = (failed e, h, w)
  after_wait (none, w) h next = next w

  -- The ends of the loop's body: the Boolean is FallbackEnabled.
  unfoldable pub after_try :
      Bool
      → DeploymentInfo
      → Tried × Heap × W
      → (Failure → Heap → W → Executed × Heap × W)
      → Executed × Heap × W
  after_try fallback d (served status, h, w) next = (success status d, h, w)
  after_try true d (refused f, h, w) next = next f h w
  after_try false d (refused f, h, w) next = (failure (not_tried_further f) (some d), h, w)

module _ {W : Type 0} (out : Outside W) (cfg : RoutingConfig) where
  -- One attempt: the call and the report of its latency in milliseconds.
  unfoldable pub attempt : DeploymentInfo → Heap → W → Reply × Heap × W
  attempt d h w =
      let (start, w₁) = out.now w in
      let (reply, w₂) = out.call d w₁ in
      let (end, w₃) = out.now w₂ in
      (reply, report_latency out.blend ((end - start) / 1000000) d h, w₃)

  -- The attempts that are left after one that failed with the given error.
  unfoldable pub attempts_left : ℕ → String → DeploymentInfo → Heap → W → Reply × Heap × W
  attempts_left zero last d h w = (failed last, h, w)
  attempts_left (suc k) last d h w =
      after_wait (out.wait cfg.retry_delay w) h
        (λ w₁. after_attempt (attempt d h w₁) (λ e h' w'. attempts_left k e d h' w'))

  -- executeWithRetry
  unfoldable pub execute_with_retry : DeploymentInfo → Heap → W → Reply × Heap × W
  execute_with_retry d h w =
      after_attempt (attempt d h w) (λ e h' w'. attempts_left (max_retries cfg) e d h' w')

  -- r.ReportFailure(dep)
  unfoldable pub fail_now : DeploymentInfo → Heap → W → Heap × W
  fail_now d h w = let (t, w') = out.now w in (deployment_failed t d h, w')

  -- What follows executeWithRetry: the status is tested after the call.
  unfoldable pub judge : DeploymentInfo → Reply × Heap × W → Tried × Heap × W
  judge d (failed e, h, w) = let (h', w') = fail_now d h w in (refused (call_error e), h', w')
  judge d (responded status, h, w) =
      let (h', w') = fail_now d h w in
      if leb 500 status
      then (refused (upstream_error status), h', w')
      else (served status, deployment_succeeded d h, w)

  -- The test of the breaker.
  unfoldable pub gate : DeploymentInfo → Bool × Heap → W → Tried × Heap × W
  gate d (true, h) w = judge d (execute_with_retry d h w)
  gate d (false, h) w = (refused (circuit_open_error d.provider d.provider_model), h, w)

  -- The body of the loop for one deployment.
  unfoldable pub try_one : DeploymentInfo → Heap → W → Tried × Heap × W
  try_one d h w = let (t, w₁) = out.now w in gate d (allow_deployment t d h) w₁

  -- The loop of ExecuteWithFallbackForOrg.
  unfoldable pub try_all :
      String → List DeploymentInfo → Option Failure → Heap → W → Executed × Heap × W
  try_all name [] last h w = (failure (all_failed name last) none, h, w)
  try_all name (d ∷ ds) last h w =
      after_try cfg.fallback_enabled d (try_one d h w) (λ f h' w'. try_all name ds (some f) h' w')

module _ {W : Type 0} (out : Outside W) (rand : Rand) where
  on_resolved :
      String
      → Option (Resolved × ModelRouter)
      → Heap
      → W
      → Option (Executed × Heap × W × ModelRouter)
  on_resolved name none h w = none
  on_resolved name (some (err e, r)) h w = some (failure (resolve_error e) none, h, w, r)
  on_resolved name (some (ok deps, r)) h w =
      let (answer, h', w') = try_all out r.cfg name deps none h w in some (answer, h', w', r)

  -- ExecuteWithFallbackForOrg
  unfoldable pub execute_for_org :
      Option ℕ → String → ModelRouter → Heap → W → Option (Executed × Heap × W × ModelRouter)
  unfolding on_resolved
  execute_for_org org name r h w = on_resolved name (resolve_for_org rand h org name r) h w

  -- ExecuteWithFallback
  unfoldable pub execute :
      String → ModelRouter → Heap → W → Option (Executed × Heap × W × ModelRouter)
  execute name r h w = execute_for_org none name r h w
