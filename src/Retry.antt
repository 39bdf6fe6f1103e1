-- ===== src/Retry.antt =====
-- The retry manager (app/utils/retry.py). Delays are whole microseconds; the backoff factor is a
-- whole number (the default is 2). What `random.uniform` draws is an argument, counted from the
-- lower end of its interval.
pub mod Attempts
pub mod Delays
mod Tests
use llm_service.Prelude.{
  ℕ, zero, suc, ◌+◌, ◌-◌, ◌*◌, ◌/◌, ◌^◌, min, max, String, Bool, true, false, not, ◌||◌, Option,
  none, some, List, [], ◌∷◌, any, contains, ◌==◌, leb, if◌then◌else◌,
}
use llm_service.Errors.{
  Exc, ExceptionClass, GrpcClass, ProviderClass, is_retriable_error, is_os_error, type_name,
}

-- `custom` is `isinstance(exc, tuple(policy.retriable_exceptions))`, false for an empty list.
pub record RetryPolicy : Type 0 where
  pub max_attempts : ℕ
  pub initial_delay_ms : ℕ
  pub max_delay_ms : ℕ
  pub backoff_factor : ℕ
  pub jitter : Bool
  pub retriable_status_codes : List ℕ
  pub custom : Exc → Bool

-- the second test: known domain classes and built-ins
unfoldable pub is_known_transient : ExceptionClass → Bool
is_known_transient (ExceptionClass.provider ProviderClass.provider_rate_limit_error) = true
is_known_transient (ExceptionClass.provider ProviderClass.provider_timeout_error) = true
is_known_transient (ExceptionClass.grpc GrpcClass.grpc_unavailable_error) = true
is_known_transient ExceptionClass.timeout_error = true
is_known_transient ExceptionClass.connection_error = true
is_known_transient _ = false

abbrev pub sdk_names : List String
sdk_names =
    "RateLimitError" ∷ "InternalServerError" ∷ "APIConnectionError" ∷ "ServiceUnavailable"
    ∷ "DeadlineExceeded" ∷ "TooManyRequests" ∷ "AioRpcError" ∷ []

abbrev pub grpc_codes : List String
grpc_codes = "UNAVAILABLE" ∷ "DEADLINE_EXCEEDED" ∷ "RESOURCE_EXHAUSTED" ∷ []

-- the body of the test on SDK class names
unfoldable pub sdk_verdict : Option String → Bool
sdk_verdict none = true
sdk_verdict (some code) = if contains code grpc_codes then true else true

-- the tests that need a policy: a status code in its list, or one of its classes
unfoldable pub policy_allows : Option RetryPolicy → Exc → Bool
policy_allows none e = false
policy_allows (some p) e =
    elim e.status_code [ none ↦ false | some s ↦ any (◌==◌ s) p.retriable_status_codes ]
    || p.custom e

unfoldable pub is_retriable : Exc → Option RetryPolicy → Bool
is_retriable e policy =
    if is_retriable_error e.cls
    then true
    else if is_known_transient e.cls
    then true
    else if policy_allows policy e
    then true
    else if contains (type_name e.cls) sdk_names
    then sdk_verdict e.grpc_code
    else is_os_error e.cls

-- What a call of `func` does.
pub data Outcome {ℓ} (A : Type ℓ) : Type ℓ where
  returns : A → Outcome A
  raises : Exc → Outcome A

-- min(initial_delay * factor ** (attempt - 1), max_delay), in microseconds; `k` is attempt - 1
unfoldable pub base_delay : RetryPolicy → ℕ → ℕ
base_delay p k = min (p.initial_delay_ms * 1000 * p.backoff_factor ^ k) (p.max_delay_ms * 1000)

-- max(0.01, base + jitter): `draw` is the distance of the jitter from its lower end, -base / 10
unfoldable pub delay : RetryPolicy → ℕ → ℕ → ℕ
delay p k draw =
    max 10_000 (if p.jitter then base_delay p k - base_delay p k / 10 + draw else base_delay p k)

-- How a run ended, how often it called `func`, and the delays that it slept, in order.
pub record Run {ℓ} (A : Type ℓ) : Type ℓ where
  pub outcome : Outcome A
  pub attempts : ℕ
  pub slept : List ℕ

module _ {ℓ} {A : Type ℓ} (p : RetryPolicy) (func : ℕ → Outcome A) (draw : ℕ → ℕ) where
  -- The `while True` loop from attempt `k + 1` on, with `fuel` rounds; `none` if they run out.
  -- `func k` is what call number `k` (from 0) does, `draw k` the jitter drawn after it.
  unfoldable pub retry_loop : ℕ → ℕ → Option (Run A)
  retry_loop zero k = none
  retry_loop (suc fuel) k = elim (func k) [
    | returns a ↦ some (record { outcome = returns a; attempts = suc k; slept = [] })
    | raises e ↦
        if leb p.max_attempts (suc k) || not (is_retriable e (some p))
        then some (record { outcome = raises e; attempts = suc k; slept = [] })
        else elim (retry_loop fuel (suc k)) [
          | none ↦ none
          | some r ↦ some (record r { slept = delay p k (draw k) ∷ r.slept })
        ]
  ]

  -- The loop makes at most `max_attempts` rounds, and one where that is 0.
  unfoldable pub execute_with_retry : Option (Run A)
  execute_with_retry = retry_loop (suc p.max_attempts) 0
