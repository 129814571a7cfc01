-- ===== src/Router/Fallback/Attempts.antt =====
-- How often execution calls a provider (backend/internal/router/fallback.go).
use gateway_llm.Prelude.{
  ℕ, zero, suc, ◌+◌, ◌*◌, ◌≤◌, ◌≡◌, refl, ap, ◌∙◌, String, Bool, true, false, Option, none, some,
  List, [], ◌∷◌, leb, arith, length, Bool-cases, inl, inr,
}
use gateway_llm.Router.Deployment.{DeploymentInfo, Heap, allow_deployment}
use gateway_llm.Router.State.{RoutingConfig}
use gateway_llm.Router.Fallback.{
  Outside, Reply, failed, responded, Failure, Executed, Tried, served, refused, attempt,
  attempts_left, execute_with_retry, fail_now, judge, gate, try_one, try_all, max_retries,
  after_attempt, after_wait, after_try,
}

-- A count of the calls in the world: a call adds one, waiting and reading the clock add none.
pub record Counts {W : Type 0} (out : Outside W) (calls : W → ℕ) : Type 0 where
  pub call_adds : (d : DeploymentInfo) (w : W) → calls (out.call d w).1 ≡ suc (calls w)
  pub wait_keeps : (n : ℕ) (w : W) → calls (out.wait n w).1 ≡ calls w
  pub now_keeps : (w : W) → calls (out.now w).1 ≡ calls w

module _ {W : Type 0} (out : Outside W) (cfg : RoutingConfig) (calls : W → ℕ)
    (counts : Counts out calls) where
  calls-attempt :
      (d : DeploymentInfo) (h : Heap) (w : W) → calls (attempt out cfg d h w).2 ≡ suc (calls w)
  unfolding attempt
  calls-attempt d h w = counts.now_keeps _ ∙ counts.call_adds d _ ∙ ap suc (counts.now_keeps w)

  calls-after_attempt :
      (n : ℕ) (r : Reply × Heap × W) (next : String → Heap → W → Reply × Heap × W)
      → calls r.2 ≤ n
      → ((e : String) (h : Heap) (w : W) → calls w ≡ calls r.2 → calls (next e h w).2 ≤ n)
      → calls (after_attempt r next).2 ≤ n
  unfolding after_attempt
  calls-after_attempt n (responded status, h, w) next l f = l
  calls-after_attempt n (failed e, h, w) next l f = f e h w refl

  calls-after_wait :
      (n : ℕ) (h : Heap) (r : Option String × W) (next : W → Reply × Heap × W)
      → calls r.1 ≤ n
      → ((w : W) → calls w ≡ calls r.1 → calls (next w).2 ≤ n)
      → calls (after_wait r h next).2 ≤ n
  unfolding after_wait
  calls-after_wait n h (some e, w) next l f = l
  calls-after_wait n h (none, w) next l f = f w refl

  calls-attempts_left :
      (k : ℕ) (last : String) (d : DeploymentInfo) (h : Heap) (w : W)
      → calls (attempts_left out cfg k last d h w).2 ≤ calls w + k
  unfolding attempts_left
  calls-attempts_left zero last d h w = omega arith
  calls-attempts_left (suc k) last d h w =
      calls-after_wait (calls w + suc k) h _ _ (omega (arith, counts.wait_keeps cfg.retry_delay w))
        (λ w₁ e₁.
          calls-after_attempt (calls w + suc k) _ _
            (omega (arith, calls-attempt d h w₁, counts.wait_keeps cfg.retry_delay w))
            (λ e h' w' e₂. omega (
              arith,
              calls-attempts_left k e d h' w',
              calls-attempt d h w₁,
              counts.wait_keeps cfg.retry_delay w,
            )))

  execute_calls :
      (d : DeploymentInfo) (h : Heap) (w : W)
      → calls (execute_with_retry out cfg d h w).2 ≤ calls w + suc (max_retries cfg)
  unfolding execute_with_retry
  execute_calls d h w =
      calls-after_attempt (calls w + suc (max_retries cfg)) _ _ (omega (arith, calls-attempt d h w))
        (λ e h' w' e₂.
          omega (arith, calls-attempts_left (max_retries cfg) e d h' w', calls-attempt d h w))

  calls-judge :
      (d : DeploymentInfo) (r : Reply × Heap × W) → calls (judge out cfg d r).2 ≡ calls r.2
  unfolding judge fail_now
  calls-judge d (failed e, h, w) = counts.now_keeps w
  calls-judge d (responded status, h, w) = elim (Bool-cases (leb 500 status)) [
    | inl e ↦ rw e (counts.now_keeps w)
    | inr e ↦ rw e refl
  ]

  calls-gate :
      (d : DeploymentInfo) (r : Bool × Heap) (w : W)
      → calls (gate out cfg d r w).2 ≤ calls w + suc (max_retries cfg)
  unfolding gate
  calls-gate d (true, h) w =
      omega (arith, calls-judge d (execute_with_retry out cfg d h w), execute_calls d h w)
  calls-gate d (false, h) w = omega arith

  calls-try_one :
      (d : DeploymentInfo) (h : Heap) (w : W)
      → calls (try_one out cfg d h w).2 ≤ calls w + suc (max_retries cfg)
  unfolding try_one
  calls-try_one d h w =
      omega
        (arith, calls-gate d (allow_deployment (out.now w).0 d h) (out.now w).1, counts.now_keeps w)

  calls-after_try :
      (n : ℕ) (fallback : Bool) (d : DeploymentInfo) (r : Tried × Heap × W)
      (next : Failure → Heap → W → Executed × Heap × W)
      → calls r.2 ≤ n
      → ((f : Failure) (h : Heap) (w : W) → calls w ≡ calls r.2 → calls (next f h w).2 ≤ n)
      → calls (after_try fallback d r next).2 ≤ n
  unfolding after_try
  calls-after_try n fallback d (served status, h, w) next l f = l
  calls-after_try n true d (refused g, h, w) next l f = f g h w refl
  calls-after_try n false d (refused g, h, w) next l f = l

  -- For k deployments the loop calls a provider at most k * (1 + maxRetries) times.
  pub calls-try_all :
      (name : String) (ds : List DeploymentInfo) (last : Option Failure) (h : Heap) (w : W)
      → calls (try_all out cfg name ds last h w).2 ≤ calls w + length ds * suc (max_retries cfg)
  unfolding try_all
  calls-try_all name [] last h w = omega arith
  calls-try_all name (d ∷ ds) last h w =
      let n : ℕ = calls w + length (d ∷ ds) * suc (max_retries cfg) in
      calls-after_try n cfg.fallback_enabled d (try_one out cfg d h w) _
        (omega (arith, calls-try_one d h w))
        (λ f h' w' e. omega (arith, calls-try_all name ds (some f) h' w', calls-try_one d h w))
