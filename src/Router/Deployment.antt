-- ===== src/Router/Deployment.antt =====
-- Deployments and what the router keeps of each (backend/internal/router/router.go). A deployment
-- is passed by pointer: `addr` is the pointer, the record has the fields that nobody changes, and
-- the fields that requests change are in a heap.
pub mod Laws
use gateway_llm.Prelude.{ℕ, ◌+◌, String, Bool, Option, none, some, ◌==◌, if◌then◌else◌}
use gateway_llm.Prelude.Int.{ℤ, pos, add_int32}
use gateway_llm.Router.Breaker.{
  CircuitBreaker, new_circuit_breaker, default_open_duration, allow, report_success, report_failure,
}

-- DeploymentInfo, less its last three fields. An organization's UUID is a number, uuid.Nil is 0.
pub record DeploymentInfo : Type 0 where
  pub addr : ℕ
  pub provider : String
  pub provider_model : String
  pub api_key : String
  pub api_base : String
  pub priority : ℤ
  pub org_id : Option ℕ
  pub weight : ℤ
  pub variant_id : String
  pub routing_strategy : String

-- The last three fields of DeploymentInfo. A latency is in milliseconds, `failures` is an int32.
pub record Health : Type 0 where
  pub latency_ewma : ℕ
  pub failures : ℕ
  pub breaker : Option CircuitBreaker

abbrev pub Heap : Type 0
Heap = ℕ → Health

-- *p = v
unfoldable pub write : Heap → ℕ → Health → Heap
write h p v q = if p == q then v else h q

abbrev pub fresh_breaker : CircuitBreaker
fresh_breaker = new_circuit_breaker (pos 5) (pos default_open_duration)

-- The breaker that `Breaker` returns. It is stored where a method changes it.
unfoldable pub breaker_of : Health → CircuitBreaker
breaker_of x = elim x.breaker [ none ↦ fresh_breaker | some cb ↦ cb ]

-- dep.Breaker().Allow()
unfoldable pub allow_deployment : ℕ → DeploymentInfo → Heap → Bool × Heap
allow_deployment now d h =
    let x = h d.addr in
    let (ok, cb) = allow now (breaker_of x) in (ok, write h d.addr (record x { breaker = some cb }))

-- ReportFailure of the router
unfoldable pub deployment_failed : ℕ → DeploymentInfo → Heap → Heap
deployment_failed now d h =
    let x = h d.addr in
    write h d.addr (record x {
      failures = add_int32 x.failures 1;
      breaker = some (report_failure now (breaker_of x));
    })

-- ReportSuccess of the router
unfoldable pub deployment_succeeded : DeploymentInfo → Heap → Heap
deployment_succeeded d h =
    let x = h d.addr in
    write h d.addr (record x { failures = 0; breaker = some (report_success (breaker_of x)) })

-- ReportLatency. `blend old ms` is int64(float64(old)*0.7 + float64(ms)*0.3).
unfoldable pub report_latency : (ℕ → ℕ → ℕ) → ℕ → DeploymentInfo → Heap → Heap
report_latency blend ms d h =
    let x = h d.addr in
    let old = x.latency_ewma in
    write h d.addr (record x { latency_ewma = if old == 0 then ms else blend old ms })
