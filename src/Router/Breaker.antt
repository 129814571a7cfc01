-- ===== src/Router/Breaker.antt =====
-- The circuit breaker of backend/internal/router/circuit_breaker.go.
-- A method that mutates the receiver returns the new record. Each method is one step here: the
-- interleavings of its atomic accesses are in Breaker/Interleaving. A nil receiver is `none` in the
-- functions named `..._nil`. Times are nanoseconds, and `now` is what `time.Now` returns.
pub mod Safety
pub mod Traces
pub mod Interleaving
use gateway_llm.Prelude.{ℕ, ◌+◌, Bool, true, false, Option, none, some, ltb, ◌==◌, if◌then◌else◌}
use gateway_llm.Prelude.Int.{ℤ, pos, pos_part, nonpos, to_int32, add_int32, ge_int32}

-- CircuitState
pub data CircuitState : Type 0 where
  circuit_closed circuit_open circuit_half_open : CircuitState

-- CircuitBreaker. `failure_threshold` and `failures` are int32 patterns.
pub record CircuitBreaker : Type 0 where
  pub failure_threshold : ℕ
  pub open_duration : ℕ
  pub state : CircuitState
  pub failures : ℕ
  pub opened_at : ℕ
  pub probe_in_flight : Bool

-- 30 * time.Second
abbrev pub default_open_duration : ℕ
default_open_duration = 30000000000

-- NewCircuitBreaker
unfoldable pub new_circuit_breaker : ℤ → ℤ → CircuitBreaker
new_circuit_breaker threshold duration = record {
  failure_threshold = to_int32 (if nonpos threshold then pos 5 else threshold);
  open_duration = pos_part (if nonpos duration then pos default_open_duration else duration);
  state = circuit_closed;
  failures = 0;
  opened_at = 0;
  probe_in_flight = false;
}

-- probeInFlight.CompareAndSwap(false, true)
take_probe : CircuitBreaker → Bool × CircuitBreaker
take_probe cb =
    if cb.probe_in_flight then (false, cb) else (true, record cb { probe_in_flight = true })

-- The switch of Allow. The second case reads `openedAt`: zero means that no time was stored, and
-- `now - openedAt < openDuration` is written as a sum.
allow_in : CircuitState → ℕ → CircuitBreaker → Bool × CircuitBreaker
unfolding take_probe
allow_in circuit_closed now cb = (true, cb)
allow_in circuit_open now cb =
    if cb.opened_at == 0
    then (true, cb)
    else (if ltb now (cb.opened_at + cb.open_duration)
        then (false, cb)
        else (true, record cb { state = circuit_half_open; probe_in_flight = true }))
allow_in circuit_half_open now cb = take_probe cb

-- Allow
unfoldable pub allow : ℕ → CircuitBreaker → Bool × CircuitBreaker
unfolding allow_in
allow now cb = allow_in cb.state now cb

-- ReportSuccess
unfoldable pub report_success : CircuitBreaker → CircuitBreaker
report_success cb = record cb {
  failures = 0;
  state = circuit_closed;
  opened_at = 0;
  probe_in_flight = false;
}

-- failures.Add(1), and the test against the threshold
count_failure : ℕ → CircuitBreaker → CircuitBreaker
count_failure now cb =
    let n = add_int32 cb.failures 1 in
    if ge_int32 n cb.failure_threshold
    then record cb { failures = n; state = circuit_open; opened_at = now }
    else record cb { failures = n }

report_failure_in : CircuitState → ℕ → CircuitBreaker → CircuitBreaker
unfolding count_failure
report_failure_in circuit_half_open now cb = record cb {
  state = circuit_open;
  opened_at = now;
  probe_in_flight = false;
}
report_failure_in _ now cb = count_failure now cb

-- ReportFailure
unfoldable pub report_failure : ℕ → CircuitBreaker → CircuitBreaker
unfolding report_failure_in
report_failure now cb = report_failure_in cb.state now cb

-- The methods on a pointer that may be nil.
unfoldable pub allow_nil : ℕ → Option CircuitBreaker → Bool × Option CircuitBreaker
allow_nil now none = (true, none)
allow_nil now (some cb) = let (ok, cb') = allow now cb in (ok, some cb')

-- State
unfoldable pub state_of : Option CircuitBreaker → CircuitState
state_of none = circuit_closed
state_of (some cb) = cb.state
