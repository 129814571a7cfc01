-- ===== src/Router/Breaker/Safety.antt =====
-- What holds of a breaker between two calls (backend/internal/router/circuit_breaker.go).
use gateway_llm.Prelude.{ℕ, ◌<◌, ◌≡◌, Bool, true, false, arith}
use gateway_llm.Prelude.Int.{ℤ}
use gateway_llm.Router.Breaker.{
  CircuitBreaker, circuit_closed, circuit_open, circuit_half_open, new_circuit_breaker, allow,
  report_success, report_failure,
}

-- A closed breaker has no opening time and no probe, an open one has a time and no probe, and a
-- half-open one has its probe in flight.
pub record IsCoherent (cb : CircuitBreaker) : Type 0 where
  pub closed_clear : cb.state ≡ circuit_closed → (cb.opened_at ≡ 0) × (cb.probe_in_flight ≡ false)
  pub open_timed : cb.state ≡ circuit_open → (0 < cb.opened_at) × (cb.probe_in_flight ≡ false)
  pub half_open_probed : cb.state ≡ circuit_half_open → cb.probe_in_flight ≡ true

pub data Call : Type 0 where
  allow_call : ℕ → Call
  success_call : Call
  failure_call : ℕ → Call

-- A call leaves a breaker, and says whether it admitted a request.
unfoldable pub step : CircuitBreaker → Call → Bool × CircuitBreaker
step cb (allow_call now) = allow now cb
step cb success_call = (false, report_success cb)
step cb (failure_call now) = (false, report_failure now cb)

abbrev pub time_of : Call → ℕ
time_of (allow_call now) = now
time_of success_call = 1
time_of (failure_call now) = now

pub new-IsCoherent : (threshold duration : ℤ) → IsCoherent (new_circuit_breaker threshold duration)
unfolding new_circuit_breaker
new-IsCoherent threshold duration = ground arith

-- Every method, at any positive time, keeps a breaker coherent.
pub step-IsCoherent :
    (cb : CircuitBreaker) (c : Call) → 0 < time_of c → IsCoherent cb → IsCoherent (step cb c).1
unfolding step allow report_success report_failure
step-IsCoherent cb (allow_call now) h v = ground arith
step-IsCoherent cb success_call h v = ground arith
step-IsCoherent cb (failure_call now) h v = ground arith
