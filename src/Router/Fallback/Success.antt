-- ===== src/Router/Fallback/Success.antt =====
-- A successful execution (backend/internal/router/fallback.go).
use mathlib.Core.List.{Mem, mem-cons}
use mathlib.Core.Logic.Or
use gateway_llm.Prelude.{
  ℕ, zero, suc, ◌<◌, ◌≡◌, refl, sym, subst, String, Bool, true, false, Option, none, some, List, [],
  ◌∷◌, leb, arith, Bool-cases, inl, inr,
}
use gateway_llm.Router.Deployment.{DeploymentInfo, Heap, allow_deployment}
use gateway_llm.Router.Deployment.Laws.{IsRested, succeeded-IsRested}
use gateway_llm.Router.State.{RoutingConfig}
use gateway_llm.Router.Fallback.{
  Outside, Reply, failed, responded, Failure, Executed, success, failure, ExecError, Tried, served,
  refused, attempt, after_attempt, after_wait, attempts_left, max_retries, execute_with_retry,
  after_try, gate, judge, try_one, try_all,
}

-- A call of the request function for this deployment answered with the status, and the world is the
-- one that this call and the reading of the clock behind it left.
abbrev pub Answered : {W : Type 0} → Outside W → DeploymentInfo → ℕ → W → Type 0
Answered {W} out d status w =
    (before : W) × ((out.call d before).0 ≡ responded status)
    × ((out.now (out.call d before).1).1 ≡ w)

-- What a reply says of the calls that were made.
abbrev Replies : {W : Type 0} → Outside W → DeploymentInfo → Reply × Heap × W → Type 0
Replies out d r = (s : ℕ) → r.0 ≡ responded s → Answered out d s r.2

-- What a served deployment means for the status, the heap and the calls.
abbrev Served : {W : Type 0} → Outside W → DeploymentInfo → ℕ → Tried × Heap × W → Type 0
Served out d status r =
    r.0 ≡ served status → (status < 500) × IsRested (r.1 d.addr) × Answered out d status r.2

served_same : (s t : ℕ) → served s ≡ served t → s ≡ t
served_same s t e = cc

not_served : (f : Failure) (s : ℕ) → refused f ≡ served s → ⊥
not_served f s e = cc

failure_not :
    (e : ExecError) (o : Option DeploymentInfo) (s : ℕ) (x : DeploymentInfo)
    → failure e o ≡ success s x
    → ⊥
failure_not e o s x eq = cc

not_responded : (e : String) (s : ℕ) → failed e ≡ responded s → ⊥
not_responded e s eq = cc

module _ {W : Type 0} (out : Outside W) (cfg : RoutingConfig) where
  attempt-Replies : (d : DeploymentInfo) (h : Heap) (w : W) → Replies out d (attempt out cfg d h w)
  unfolding attempt
  attempt-Replies d h w s eq = ((out.now w).1, eq, refl)

  after_attempt-Replies :
      (d : DeploymentInfo) (r : Reply × Heap × W) (next : String → Heap → W → Reply × Heap × W)
      → Replies out d r
      → ((e : String) (h : Heap) (w : W) → Replies out d (next e h w))
      → Replies out d (after_attempt r next)
  unfolding after_attempt
  after_attempt-Replies d (responded status, h, w) next a n = a
  after_attempt-Replies d (failed e, h, w) next a n = n e h w

  after_wait-Replies :
      (d : DeploymentInfo) (r : Option String × W) (h : Heap) (next : W → Reply × Heap × W)
      → ((w : W) → Replies out d (next w))
      → Replies out d (after_wait r h next)
  unfolding after_wait
  after_wait-Replies d (some e, w) h next n = λ s eq. absurd (not_responded e s eq)
  after_wait-Replies d (none, w) h next n = n w

  attempts_left-Replies :
      (k : ℕ) (last : String) (d : DeploymentInfo) (h : Heap) (w : W)
      → Replies out d (attempts_left out cfg k last d h w)
  unfolding attempts_left
  attempts_left-Replies zero last d h w = λ s eq. absurd (not_responded last s eq)
  attempts_left-Replies (suc k) last d h w =
      after_wait-Replies d (out.wait cfg.retry_delay w) h _ (λ w₁.
        after_attempt-Replies d (attempt out cfg d h w₁) _ (attempt-Replies d h w₁)
          (λ e h' w'. attempts_left-Replies k e d h' w'))

  execute_with_retry-Replies :
      (d : DeploymentInfo) (h : Heap) (w : W) → Replies out d (execute_with_retry out cfg d h w)
  unfolding execute_with_retry
  execute_with_retry-Replies d h w =
      after_attempt-Replies d (attempt out cfg d h w) _ (attempt-Replies d h w)
        (λ e h' w'. attempts_left-Replies (max_retries cfg) e d h' w')

  judge-Served :
      (d : DeploymentInfo) (r : Reply × Heap × W) (status : ℕ)
      → Replies out d r
      → Served out d status (judge out cfg d r)
  unfolding judge
  judge-Served d (failed e, h, w) status a = λ eq. absurd (not_served _ status eq)
  judge-Served d (responded s, h, w) status a = elim (Bool-cases (leb 500 s)) [
    | inl bad ↦ rw bad (λ eq. absurd (not_served _ status eq))
    | inr good ↦ rw good (λ eq.
        let low : s < 500 = ground arith in
        let same = served_same s status eq in
        (
          subst (λ t. t < 500) same low,
          succeeded-IsRested d h,
          subst (λ t. Answered out d t w) same (a s refl),
        ))
  ]

  gate-Served :
      (d : DeploymentInfo) (r : Bool × Heap) (w : W) (status : ℕ)
      → Served out d status (gate out cfg d r w)
  unfolding gate
  gate-Served d (true, h) w status =
      judge-Served d (execute_with_retry out cfg d h w) status (execute_with_retry-Replies d h w)
  gate-Served d (false, h) w status = λ eq. absurd (not_served _ status eq)

  try_one-Served :
      (d : DeploymentInfo) (h : Heap) (w : W) (status : ℕ)
      → Served out d status (try_one out cfg d h w)
  unfolding try_one
  try_one-Served d h w status =
      gate-Served d (allow_deployment (out.now w).0 d h) (out.now w).1 status

  -- What a success at x means after a list of deployments.
  Succeeds : List DeploymentInfo → ℕ → DeploymentInfo → Executed × Heap × W → Type 0
  Succeeds ds status x r =
      r.0 ≡ success status x
      → Mem x ds × (status < 500) × IsRested (r.1 x.addr) × Answered out x status r.2

  after_try-Succeeds :
      (fallback : Bool) (d : DeploymentInfo) (ds : List DeploymentInfo) (r : Tried × Heap × W)
      (next : Failure → Heap → W → Executed × Heap × W) (status : ℕ) (x : DeploymentInfo)
      → ((s : ℕ) → Served out d s r)
      → ((f : Failure) (h : Heap) (w : W) → Succeeds ds status x (next f h w))
      → Succeeds (d ∷ ds) status x (after_try fallback d r next)
  unfolding after_try Succeeds
  after_try-Succeeds fallback d ds (served s, h, w) next status x sv f eq =
      let (low, rested, answered) = sv s refl in
      let same : d ≡ x = cc eq in
      let same_status : s ≡ status = cc eq in
      (
        mem-cons.1 (Or.inl (sym same)),
        subst (λ t. t < 500) same_status low,
        subst (λ y. IsRested (h y.addr)) same rested,
        subst (λ y. Answered out y status w) same
            (subst (λ t. Answered out d t w) same_status answered),
      )
  after_try-Succeeds true d ds (refused g, h, w) next status x sv f eq =
      let (m, low, rested, answered) = f g h w eq in (mem-cons.1 (Or.inr m), low, rested, answered)
  after_try-Succeeds false d ds (refused g, h, w) next status x sv f eq =
      absurd (failure_not _ _ status x eq)

  try_all_step :
      (name : String) (d : DeploymentInfo) (ds : List DeploymentInfo) (last : Option Failure)
      (h : Heap) (w : W)
      → try_all out cfg name (d ∷ ds) last h w
        ≡ after_try cfg.fallback_enabled d
            (try_one out cfg d h w)
            (λ f h' w'. try_all out cfg name ds (some f) h' w')
  unfolding try_all
  try_all_step name d ds last h w = refl

  try_all-Succeeds :
      (name : String) (ds : List DeploymentInfo) (last : Option Failure) (h : Heap) (w : W)
      (status : ℕ) (x : DeploymentInfo)
      → Succeeds ds status x (try_all out cfg name ds last h w)
  try_all-Succeeds name [] last h w status x =
      unfold try_all Succeeds in λ eq. absurd (failure_not _ _ status x eq)
  try_all-Succeeds name (d ∷ ds) last h w status x =
      subst (Succeeds (d ∷ ds) status x) (sym (try_all_step name d ds last h w)) (
        after_try-Succeeds cfg.fallback_enabled d ds (try_one out cfg d h w) _ status x
          (try_one-Served d h w) (λ f h' w'. try_all-Succeeds name ds (some f) h' w' status x))

  -- If the loop succeeds, it names a deployment of the list and a status below 500 with which a call
  -- of the request function for this deployment answered; the loop ends behind this call, with the
  -- world that it and the reading of the clock left; and this deployment's breaker is closed and
  -- nothing is counted against it afterwards.
  pub try_all-success :
      (name : String) (ds : List DeploymentInfo) (last : Option Failure) (h : Heap) (w : W)
      (status : ℕ) (x : DeploymentInfo)
      → (try_all out cfg name ds last h w).0 ≡ success status x
      → Mem x ds
        × (status < 500)
        × IsRested ((try_all out cfg name ds last h w).1 x.addr)
        × Answered out x status (try_all out cfg name ds last h w).2
  unfolding Succeeds
  try_all-success name ds last h w status x = try_all-Succeeds name ds last h w status x
