-- ===== src/Router/Deployment/Laws.antt =====
-- What the reports of a request change of the heap of deployments
-- (backend/internal/router/router.go).
use gateway_llm.Prelude.{ℕ, ◌≡◌, ◌≢◌, refl, ◌∙◌, true, arith}
use gateway_llm.Router.Breaker.{circuit_closed, allow, report_success}
use gateway_llm.Router.Deployment.{
  DeploymentInfo, Health, Heap, write, breaker_of, allow_deployment, deployment_failed,
  deployment_succeeded, report_latency,
}

-- Two heaps agree but for one address.
abbrev pub SameElsewhere : ℕ → Heap → Heap → Type 0
SameElsewhere a h h' = (p : ℕ) → p ≢ a → h' p ≡ h p

pub SameElsewhere-refl : (a : ℕ) (h : Heap) → SameElsewhere a h h
SameElsewhere-refl a h p ne = refl

pub SameElsewhere-trans :
    (a : ℕ) (h h' h'' : Heap)
    → SameElsewhere a h h'
    → SameElsewhere a h' h''
    → SameElsewhere a h h''
SameElsewhere-trans a h h' h'' e f p ne = f p ne ∙ e p ne

write-SameElsewhere : (a : ℕ) (h : Heap) (x : Health) → SameElsewhere a h (write h a x)
unfolding write
write-SameElsewhere a h x p ne = ground arith

pub write_self : (h : Heap) (a : ℕ) (x : Health) → write h a x a ≡ x
unfolding write
write_self h a x = ground arith

pub allow-SameElsewhere :
    (now : ℕ) (d : DeploymentInfo) (h : Heap) → SameElsewhere d.addr h (allow_deployment now d h).1
unfolding allow_deployment
allow-SameElsewhere now d h = write-SameElsewhere d.addr h _

pub failed-SameElsewhere :
    (now : ℕ) (d : DeploymentInfo) (h : Heap) → SameElsewhere d.addr h (deployment_failed now d h)
unfolding deployment_failed
failed-SameElsewhere now d h = write-SameElsewhere d.addr h _

pub succeeded-SameElsewhere :
    (d : DeploymentInfo) (h : Heap) → SameElsewhere d.addr h (deployment_succeeded d h)
unfolding deployment_succeeded
succeeded-SameElsewhere d h = write-SameElsewhere d.addr h _

pub latency-SameElsewhere :
    (blend : ℕ → ℕ → ℕ) (ms : ℕ) (d : DeploymentInfo) (h : Heap)
    → SameElsewhere d.addr h (report_latency blend ms d h)
unfolding report_latency
latency-SameElsewhere blend ms d h = write-SameElsewhere d.addr h _

-- After a success the deployment's breaker is closed and nothing is counted against it.
pub record IsRested (x : Health) : Type 0 where
  pub no_failures : x.failures ≡ 0
  pub closed : (breaker_of x).state ≡ circuit_closed
  pub none_counted : (breaker_of x).failures ≡ 0

pub succeeded-IsRested :
    (d : DeploymentInfo) (h : Heap) → IsRested (deployment_succeeded d h d.addr)
unfolding deployment_succeeded
succeeded-IsRested d h = rw write_self (
    unfold breaker_of report_success in
    record { no_failures = refl; closed = refl; none_counted = refl })

-- A closed breaker admits.
pub allow_closed :
    (now : ℕ) (d : DeploymentInfo) (h : Heap)
    → (breaker_of (h d.addr)).state ≡ circuit_closed
    → (allow_deployment now d h).0 ≡ true
unfolding allow_deployment allow
allow_closed now d h e = ground arith
