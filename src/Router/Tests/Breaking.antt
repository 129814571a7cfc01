-- ===== src/Router/Tests/Breaking.antt =====
-- The breaker's theorems at concrete inputs.
use gateway_llm.Prelude.{◌≤◌, ◌≢◌, refl, List, [], ◌∷◌, arith}
use gateway_llm.Prelude.Int.{pos}
use gateway_llm.Router.Breaker.{CircuitBreaker, circuit_closed, new_circuit_breaker}
use gateway_llm.Router.Breaker.Safety.{IsCoherent, Call, allow_call, success_call, failure_call}
use gateway_llm.Router.Breaker.Traces.{allow_all, run, run-IsCoherent, one_probe}
use gateway_llm.Router.Breaker.Interleaving.{
  Reach, all_start, won_true, probe_true, two_probes_reached, two_probes_at_most, is_admitted,
  sum_of,
}
use gateway_llm.Router.Tests.Fixtures.{tripped}

abbrev calls : List Call
calls = failure_call 3 ∷ failure_call 4 ∷ allow_call 50 ∷ success_call ∷ []

run-IsCoherent_example : IsCoherent (run calls (new_circuit_breaker (pos 2) (pos 30)))
run-IsCoherent_example =
    run-IsCoherent (pos 2) (pos 30) calls
      (omega arith, (omega arith, (omega arith, (omega arith, tt))))

tripped-IsCoherent : IsCoherent tripped
tripped-IsCoherent = ground arith

not_closed : tripped.state ≢ circuit_closed
not_closed e = cc e

one_probe_example : (allow_all (45 ∷ 46 ∷ []) tripped).0 ≤ 1
one_probe_example = one_probe (45 ∷ 46 ∷ []) tripped tripped-IsCoherent not_closed

two_probes_reached_example :
    (cb' : CircuitBreaker) × Reach 45 (all_start 2, tripped) (won_true ∷ probe_true ∷ [], cb')
two_probes_reached_example = two_probes_reached 45 tripped refl (omega arith) refl (omega arith)

two_probes_at_most_example : sum_of is_admitted (won_true ∷ probe_true ∷ []) ≤ 2
two_probes_at_most_example =
    let reached = two_probes_reached 45 tripped refl (omega arith) refl (omega arith) in
    two_probes_at_most 45 2 tripped reached.0 (won_true ∷ probe_true ∷ []) refl (omega arith) refl
      reached.1
