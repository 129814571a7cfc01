-- ===== src/Router/Fallback/Frame.antt =====
-- What execution changes of the heap (backend/internal/router/fallback.go).
use mathlib.Core.Bool.{false≢true}
use gateway_llm.Prelude.{
  sym, ℕ, zero, suc, ◌≡◌, ◌≢◌, refl, ◌∙◌, String, Bool, true, false, Option, none, some, List, [],
  ◌∷◌, leb, Bool-cases, inl, inr,
}
use gateway_llm.Router.Deployment.{DeploymentInfo, Health, Heap, allow_deployment}
use gateway_llm.Router.Deployment.Laws.{
  SameElsewhere, SameElsewhere-refl, SameElsewhere-trans, allow-SameElsewhere, failed-SameElsewhere,
  succeeded-SameElsewhere, latency-SameElsewhere,
}
use gateway_llm.Router.State.{RoutingConfig}
use gateway_llm.Router.Sort.Laws.{AllOf}
use gateway_llm.Router.Fallback.{
  Outside, Reply, failed, responded, Failure, Executed, Tried, served, refused, after_attempt,
  after_wait, after_try, gate, attempt, attempts_left, execute_with_retry, fail_now, judge, try_one,
  try_all, max_retries,
}

module _ {W : Type 0} (out : Outside W) (cfg : RoutingConfig) where
  pub attempt-SameElsewhere :
      (d : DeploymentInfo) (h : Heap) (w : W) → SameElsewhere d.addr h (attempt out cfg d h w).1
  unfolding attempt
  attempt-SameElsewhere d h w = latency-SameElsewhere out.blend _ d h

  after_attempt-SameElsewhere :
      (a : ℕ) (h : Heap) (r : Reply × Heap × W) (next : String → Heap → W → Reply × Heap × W)
      → SameElsewhere a h r.1
      → ((e : String) (h' : Heap) (w' : W)
          → SameElsewhere a h h'
          → SameElsewhere a h (next e h' w').1)
      → SameElsewhere a h (after_attempt r next).1
  unfolding after_attempt
  after_attempt-SameElsewhere a h (responded status, h', w) next s f = s
  after_attempt-SameElsewhere a h (failed e, h', w) next s f = f e h' w s

  after_wait-SameElsewhere :
      (a : ℕ) (h : Heap) (r : Option String × W) (next : W → Reply × Heap × W)
      → ((w' : W) → SameElsewhere a h (next w').1)
      → SameElsewhere a h (after_wait r h next).1
  unfolding after_wait
  after_wait-SameElsewhere a h (some e, w) next f = SameElsewhere-refl a h
  after_wait-SameElsewhere a h (none, w) next f = f w

  attempts_left-SameElsewhere :
      (k : ℕ) (last : String) (d : DeploymentInfo) (h : Heap) (w : W)
      → SameElsewhere d.addr h (attempts_left out cfg k last d h w).1
  unfolding attempts_left
  attempts_left-SameElsewhere zero last d h w = SameElsewhere-refl d.addr h
  attempts_left-SameElsewhere (suc k) last d h w = after_wait-SameElsewhere d.addr h _ _ (λ w₁.
      after_attempt-SameElsewhere d.addr h _ _ (attempt-SameElsewhere d h w₁) (λ e h' w' s.
        SameElsewhere-trans d.addr h h' _ s (attempts_left-SameElsewhere k e d h' w')))

  execute_with_retry-SameElsewhere :
      (d : DeploymentInfo) (h : Heap) (w : W)
      → SameElsewhere d.addr h (execute_with_retry out cfg d h w).1
  unfolding execute_with_retry
  execute_with_retry-SameElsewhere d h w =
      after_attempt-SameElsewhere d.addr h _ _ (attempt-SameElsewhere d h w) (λ e h' w' s.
        SameElsewhere-trans d.addr h h' _ s
          (attempts_left-SameElsewhere (max_retries cfg) e d h' w'))

  judge-SameElsewhere :
      (d : DeploymentInfo) (r : Reply × Heap × W) → SameElsewhere d.addr r.1 (judge out cfg d r).1
  unfolding judge fail_now
  judge-SameElsewhere d (failed e, h, w) = failed-SameElsewhere _ d h
  judge-SameElsewhere d (responded status, h, w) = elim (Bool-cases (leb 500 status)) [
    | inl e ↦ rw e (failed-SameElsewhere _ d h)
    | inr e ↦ rw e (succeeded-SameElsewhere d h)
  ]

  gate-SameElsewhere :
      (d : DeploymentInfo) (r : Bool × Heap) (w : W)
      → SameElsewhere d.addr r.1 (gate out cfg d r w).1
  unfolding gate
  gate-SameElsewhere d (true, h) w =
      SameElsewhere-trans d.addr h _ _ (execute_with_retry-SameElsewhere d h w)
        (judge-SameElsewhere d (execute_with_retry out cfg d h w))
  gate-SameElsewhere d (false, h) w = SameElsewhere-refl d.addr h

  -- One round of the loop changes the heap at its deployment's address alone.
  pub try_one-SameElsewhere :
      (d : DeploymentInfo) (h : Heap) (w : W) → SameElsewhere d.addr h (try_one out cfg d h w).1
  unfolding try_one
  try_one-SameElsewhere d h w =
      SameElsewhere-trans d.addr h _ _ (allow-SameElsewhere (out.now w).0 d h)
        (gate-SameElsewhere d (allow_deployment (out.now w).0 d h) (out.now w).1)

  after_try_frame :
      (p : ℕ) (x : Health) (fallback : Bool) (d : DeploymentInfo) (r : Tried × Heap × W)
      (next : Failure → Heap → W → Executed × Heap × W)
      → r.1 p ≡ x
      → ((f : Failure) (h' : Heap) (w' : W) → h' p ≡ x → (next f h' w').1 p ≡ x)
      → (after_try fallback d r next).1 p ≡ x
  unfolding after_try
  after_try_frame p x fallback d (served status, h, w) next e f = e
  after_try_frame p x true d (refused g, h, w) next e f = f g h w e
  after_try_frame p x false d (refused g, h, w) next e f = e

  -- The loop leaves what the heap has of every deployment that is not in the list.
  pub try_all_frame :
      (name : String) (ds : List DeploymentInfo) (last : Option Failure) (h : Heap) (w : W) (p : ℕ)
      → AllOf (λ d. p ≢ d.addr) ds
      → (try_all out cfg name ds last h w).1 p ≡ h p
  unfolding try_all
  try_all_frame name [] last h w p a = refl
  try_all_frame name (d ∷ ds) last h w p a =
      after_try_frame p (h p) cfg.fallback_enabled d (try_one out cfg d h w) _
        (try_one-SameElsewhere d h w p a.0)
        (λ f h' w' e. try_all_frame name ds (some f) h' w' p a.1 ∙ e)

  first_only :
      (p : ℕ) (x : Health) (fallback : Bool) (d : DeploymentInfo) (r : Tried × Heap × W)
      (next : Failure → Heap → W → Executed × Heap × W)
      → fallback ≡ false
      → r.1 p ≡ x
      → (after_try fallback d r next).1 p ≡ x
  unfolding after_try
  first_only p x fallback d (served status, h, w) next off e = e
  first_only p x false d (refused g, h, w) next off e = e
  first_only p x true d (refused g, h, w) next off e = absurd (false≢true (sym off))

  -- With fallback disabled the loop changes the heap at the first deployment's address alone,
  -- however many deployments there are and whatever the outcome.
  pub no_fallback_frame :
      (name : String) (d : DeploymentInfo) (ds : List DeploymentInfo) (last : Option Failure)
      (h : Heap) (w : W) (p : ℕ)
      → cfg.fallback_enabled ≡ false
      → p ≢ d.addr
      → (try_all out cfg name (d ∷ ds) last h w).1 p ≡ h p
  unfolding try_all
  no_fallback_frame name d ds last h w p off ne =
      first_only p (h p) cfg.fallback_enabled d (try_one out cfg d h w) _ off
        (try_one-SameElsewhere d h w p ne)
