-- ===== src/Breaker/Tests.antt =====
-- Witnesses for the circuit breaker: one with a threshold of two failures and of two successes.
use llm_service.Prelude.{ℕ, ◌<◌, ◌≡◌, refl, List, [], ◌∷◌, arith}
use llm_service.Errors.{Exc, ExceptionClass, make_error}
use llm_service.Retry.{Outcome, returns, raises}
use llm_service.Breaker.{
  closed, open_, half_open, CircuitBreakerConfig, CircuitBreaker, new, BreakerMap, on_failure,
}
use llm_service.Breaker.Invariant.{IsConfig, here, next, fails, Reach-closed}
use llm_service.Breaker.Recovery.{Call, run_calls, run_calls-recovers}

abbrev config : CircuitBreakerConfig
config = record {
  failure_threshold = 2;
  success_threshold = 2;
  window_seconds = 60;
  recovery_timeout_seconds = 30;
}

config-IsConfig : IsConfig config
config-IsConfig = record { failures = omega arith; successes = omega arith; timeout = omega arith }

abbrev timeout : Exc
timeout = make_error ExceptionClass.timeout_error "" "too slow"

abbrev seven : Outcome ℕ
seven = returns 7

abbrev eight : Outcome ℕ
eight = returns 8

abbrev slow : Outcome ℕ
slow = raises timeout

abbrev tripped : CircuitBreaker
tripped = record (new "groq" config) { state = open_; failure_count = 2; last_failure_time = 1000 }

abbrev one_failure : CircuitBreaker
one_failure = on_failure 500 (new "groq" config)

Reach-closed_example : (one_failure.failure_count < 2) × (one_failure.success_count ≡ 0)
unfolding on_failure new
Reach-closed_example =
    Reach-closed "groq" config one_failure config-IsConfig (next here (fails 500 refl)) refl

abbrev probing : CircuitBreaker
probing = record tripped { state = half_open; success_count = 0 }

abbrev just_tripped : CircuitBreaker
just_tripped = on_failure 1000 one_failure

abbrev two_failures : List (Call ℕ)
two_failures = (10, 20, slow) ∷ (30, 40, slow) ∷ []

run_calls-recovers_example :
    let c = run_calls ((31_000, 31_100, seven) ∷ (31_200, 31_300, eight) ∷ []) tripped in
    (c.state ≡ closed) × (c.failure_count ≡ 0) × (c.success_count ≡ 0)
unfolding new
run_calls-recovers_example =
    run_calls-recovers 31_000 31_100 seven ((31_200, 31_300, eight) ∷ []) tripped (tt, (tt, tt))
      refl (omega arith) refl

abbrev registry : BreakerMap
registry = ("groq", tripped) ∷ []
