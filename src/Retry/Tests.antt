-- ===== src/Retry/Tests.antt =====
-- Witnesses for the retry manager: a function that times out once and then returns.
use llm_service.Prelude.{ℕ, zero, suc, ◌≤◌, ◌<◌, ◌≡◌, ◌≢◌, ◌⊎◌, true, false, some, [], ◌∷◌, length}
use llm_service.Errors.{Exc, ExceptionClass, make_error}
use llm_service.Retry.{RetryPolicy, Outcome, returns, raises, Run, is_retriable, execute_with_retry}
use llm_service.Retry.Attempts.{execute_with_retry-fair}

abbrev policy : RetryPolicy
policy = record {
  max_attempts = 3;
  initial_delay_ms = 100;
  max_delay_ms = 2000;
  backoff_factor = 2;
  jitter = true;
  retriable_status_codes = 429 ∷ 503 ∷ [];
  custom = λ e. false;
}

abbrev flaky : ℕ → Outcome ℕ
flaky zero = raises (make_error ExceptionClass.timeout_error "" "too slow")
flaky (suc _) = returns 7

execute_with_retry-fair_example :
    (r : Run ℕ) × (execute_with_retry policy flaky (λ k. 0) ≡ some r)
    × (0 < r.attempts)
    × ((r.attempts ≤ 3) ⊎ (r.attempts ≡ 1))
    × (suc (length r.slept) ≡ r.attempts)
    × ((r.attempts ≤ 1) ⊎ (e : Exc) × (flaky 0 ≡ raises e) × (is_retriable e (some policy) ≡ true))
    × ((1 ≢ r.attempts) ⊎ (flaky 0 ≡ r.outcome))
    × (((a : ℕ) × (r.outcome ≡ returns a))
        ⊎ (e : Exc) × (r.outcome ≡ raises e)
          × ((3 ≤ r.attempts) ⊎ (is_retriable e (some policy) ≡ false)))
execute_with_retry-fair_example = execute_with_retry-fair policy flaky (λ k. 0) 0
