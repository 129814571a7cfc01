-- ===== src/Router/Breaker/Traces.antt =====
-- Runs of whole calls of a breaker (backend/internal/router/circuit_breaker.go).
use gateway_llm.Prelude.{
  ℕ, suc, ◌+◌, ◌≤◌, ◌<◌, ◌≡◌, refl, Bool, true, false, List, [], ◌∷◌, arith, leb, if◌then◌else◌,
  length, ◌≢◌,
}
use gateway_llm.Prelude.Int.{ℤ, pos, add_int32, ge_int32}
use gateway_llm.Router.Breaker.{
  CircuitBreaker, circuit_closed, circuit_open, circuit_half_open, new_circuit_breaker, allow,
  report_success, report_failure,
}
use gateway_llm.Router.Breaker.Safety.{
  IsCoherent, Call, time_of, step, step-IsCoherent, new-IsCoherent,
}

abbrev tally : Bool → ℕ → ℕ
tally true n = suc n
tally false n = n

-- Allow at each of the times, with no report between. The result has how many were admitted.
unfoldable pub allow_all : List ℕ → CircuitBreaker → ℕ × CircuitBreaker
allow_all [] cb = (0, cb)
allow_all (now ∷ rest) cb =
    let (admitted, cb') = allow now cb in
    let (n, cb'') = allow_all rest cb' in (tally admitted n, cb'')

-- ReportFailure at each of the times.
unfoldable pub fail_all : List ℕ → CircuitBreaker → CircuitBreaker
fail_all [] cb = cb
fail_all (now ∷ rest) cb = fail_all rest (report_failure now cb)

-- Any calls at all.
unfoldable pub run : List Call → CircuitBreaker → CircuitBreaker
run [] cb = cb
run (c ∷ cs) cb = run cs (step cb c).1

abbrev pub AllPos : List Call → Type 0
AllPos [] = Unit
AllPos (c ∷ cs) = (0 < time_of c) × AllPos cs

run_from-IsCoherent :
    (cs : List Call) (cb : CircuitBreaker) → AllPos cs → IsCoherent cb → IsCoherent (run cs cb)
unfolding run
run_from-IsCoherent [] cb h v = v
run_from-IsCoherent (c ∷ cs) cb h v =
    run_from-IsCoherent cs (step cb c).1 h.1 (step-IsCoherent cb c h.0 v)

-- A new breaker is coherent after any calls of its methods at positive times, one after another and
-- none overlapping: closed it keeps
-- neither an opening time nor a probe, open it keeps a positive opening time and no probe, and
-- half-open it has its probe in flight.
pub run-IsCoherent :
    (threshold duration : ℤ) (cs : List Call)
    → AllPos cs
    → IsCoherent (run cs (new_circuit_breaker threshold duration))
run-IsCoherent threshold duration cs h =
    run_from-IsCoherent cs (new_circuit_breaker threshold duration) h
      (new-IsCoherent threshold duration)

half_open_denies :
    (times : List ℕ) (cb : CircuitBreaker)
    → cb.state ≡ circuit_half_open
    → cb.probe_in_flight ≡ true
    → (allow_all times cb).0 ≡ 0
unfolding allow_all allow
half_open_denies [] cb s p = refl
half_open_denies (now ∷ rest) cb s p = ground (arith, half_open_denies rest cb s p)

-- While a coherent breaker that is not closed gets no report, calls of Allow of which each begins
-- after the one before it has returned admit one request at most in all, however many they are, and
-- at whatever times. Of calls that overlap it says nothing.
pub one_probe :
    (times : List ℕ) (cb : CircuitBreaker)
    → IsCoherent cb
    → cb.state ≢ circuit_closed
    → (allow_all times cb).0 ≤ 1
unfolding allow_all allow
one_probe [] cb v s = omega arith
one_probe (now ∷ rest) cb v s = ground (
  arith,
  one_probe rest cb v s,
  half_open_denies rest (record cb { state = circuit_half_open; probe_in_flight = true }),
  half_open_denies rest cb,
)

abbrev pub AllBefore : ℕ → List ℕ → Type 0
AllBefore t [] = Unit
AllBefore t (now ∷ rest) = (now < t) × AllBefore t rest

-- Before its cooldown is over, an open breaker admits nothing and stays as it is.
pub cooldown_denies :
    (times : List ℕ) (cb : CircuitBreaker)
    → cb.state ≡ circuit_open
    → 0 < cb.opened_at
    → AllBefore (cb.opened_at + cb.open_duration) times
    → allow_all times cb ≡ (0, cb)
unfolding allow_all allow
cooldown_denies [] cb s o h = refl
cooldown_denies (now ∷ rest) cb s o h = ground (arith, cooldown_denies rest cb s o h.1)

-- After the cooldown the probe's report decides: a success closes the breaker with no failure
-- counted, a failure opens it again at the time of the report.
pub probe_decides :
    (cb : CircuitBreaker) (now later : ℕ)
    → cb.state ≡ circuit_open
    → 0 < cb.opened_at
    → cb.opened_at + cb.open_duration ≤ now
    → ((allow now cb).0 ≡ true)
      × ((report_success (allow now cb).1).state ≡ circuit_closed)
      × ((report_success (allow now cb).1).failures ≡ 0)
      × ((report_failure later (allow now cb).1).state ≡ circuit_open)
      × ((report_failure later (allow now cb).1).opened_at ≡ later)
unfolding allow report_success report_failure
probe_decides cb now later s o h = ground arith

-- Where no count passes 2 ^ 31 - 1, the test on int32 is the test on numbers.
trips : (n t : ℕ) → suc n < 2147483648 → t < 2147483648 → ge_int32 (add_int32 n 1) t ≡ leb t (suc n)
trips n t h k = ground arith

count_step :
    (now : ℕ) (cb : CircuitBreaker)
    → suc cb.failures < 2147483648
    → cb.failure_threshold < 2147483648
    → cb.state ≢ circuit_half_open
    → ((report_failure now cb).failures ≡ suc cb.failures)
      × ((report_failure now cb).failure_threshold ≡ cb.failure_threshold)
      × ((report_failure now cb).state
          ≡ (if leb cb.failure_threshold (suc cb.failures) then circuit_open else cb.state))
unfolding report_failure
count_step now cb h k s = ground arith

fail_from :
    (times : List ℕ) (cb : CircuitBreaker)
    → cb.failures + length times < 2147483648
    → cb.failure_threshold < 2147483648
    → cb.state ≡ (if leb cb.failure_threshold cb.failures then circuit_open else circuit_closed)
    → ((fail_all times cb).failures ≡ cb.failures + length times)
      × ((fail_all times cb).state ≡ (
          if leb cb.failure_threshold (cb.failures + length times)
          then circuit_open
          else circuit_closed))
unfolding fail_all
fail_from [] cb h k s = ground arith
fail_from (now ∷ rest) cb h k s =
    ground (arith, count_step now cb, fail_from rest (report_failure now cb))

-- A new breaker with a threshold t, 0 < t < 2 ^ 31, is open after n failures in a row (n < 2 ^ 31)
-- exactly when t ≤ n, and closed otherwise; it has counted all n.
pub trips_at_threshold :
    (t : ℕ) (duration : ℤ) (times : List ℕ)
    → 0 < t
    → t < 2147483648
    → length times < 2147483648
    → ((fail_all times (new_circuit_breaker (pos t) duration)).failures ≡ length times)
      × ((fail_all times (new_circuit_breaker (pos t) duration)).state
          ≡ (if leb t (length times) then circuit_open else circuit_closed))
unfolding new_circuit_breaker
trips_at_threshold t duration times h k n =
    ground (arith, fail_from times (new_circuit_breaker (pos t) duration))
