-- ===== src/Router/Tests/Executing.antt =====
-- The theorems on execution at concrete inputs.
use mathlib.Core.List.{Mem}
use gateway_llm.Prelude.{◌≤◌, ◌<◌, ◌≡◌, ◌≢◌, refl, true, none, [], ◌∷◌, arith}
use gateway_llm.Router.Breaker.{new_circuit_breaker, allow}
use gateway_llm.Router.Deployment.{breaker_of, allow_deployment}
use gateway_llm.Router.Deployment.Laws.{IsRested}
use gateway_llm.Router.Fallback.{
  success, try_all, max_retries, after_try, try_one, gate, judge, execute_with_retry, after_attempt,
  attempt,
}
use gateway_llm.Router.Fallback.Attempts.{Counts, calls-try_all}
use gateway_llm.Router.Fallback.Availability.{IsSuccess, try_all_available}
use gateway_llm.Router.Fallback.Success.{Answered, try_all-success}
use gateway_llm.Router.Tests.Fixtures.{first, second, config, rested, healthy}

apart : first.addr ≢ second.addr
apart e = absurd (omega arith)

try_all_available_example :
    IsSuccess (try_all healthy (config true) "gpt" (second ∷ first ∷ []) none rested 0).0
unfolding new_circuit_breaker
try_all_available_example =
    try_all_available healthy (config true) "gpt" (second ∷ []) [] first none rested 0 refl
      (apart, tt) (unfold breaker_of in refl) (λ w. (200, refl, omega arith))

healthy-Counts : Counts healthy (λ w. w)
healthy-Counts = record { call_adds = λ d w. refl; wait_keeps = λ n w. refl; now_keeps = λ w. refl }

calls-try_all_example :
    (try_all healthy (config true) "gpt" (first ∷ second ∷ []) none rested 0).2 ≤ 6
unfolding max_retries
calls-try_all_example =
    calls-try_all healthy (config true) (λ w. w) healthy-Counts "gpt" (first ∷ second ∷ []) none
      rested 0

first_serves :
    (try_all healthy (config true) "gpt" (first ∷ []) none rested 0).0 ≡ success 200 first
unfolding try_all after_try try_one gate allow_deployment allow breaker_of new_circuit_breaker judge
    execute_with_retry after_attempt attempt
first_serves = refl

try_all-success_example :
    Mem first (first ∷ [])
    × (200 < 500)
    × IsRested ((try_all healthy (config true) "gpt" (first ∷ []) none rested 0).1 0)
    × Answered healthy first 200 (try_all healthy (config true) "gpt" (first ∷ []) none rested 0).2
try_all-success_example =
    try_all-success healthy (config true) "gpt" (first ∷ []) none rested 0 200 first first_serves
