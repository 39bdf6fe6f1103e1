-- ===== src/Breaker.antt =====
-- The circuit breaker and its registry (app/utils/circuit_breaker.py, CircuitState of
-- app/models/provider.py). Time is in whole milliseconds, and what `time.time()` returns is an
-- argument. The metrics and the log are left out: no branch reads them.
pub mod Invariant
pub mod Recovery
pub mod Registry
mod Tests
use llm_service.Prelude.{
  ℕ, suc, ◌+◌, ◌-◌, ◌*◌, String, Bool, true, false, ◌||◌, Option, none, some, List, [], ◌∷◌, map,
  Dict, lookup, insert, ltb, leb, if◌then◌else◌,
}
use llm_service.Errors.{Exc, ExceptionClass, ProviderClass, is_os_error}
use llm_service.Retry.{Outcome, returns, raises, is_retriable}

pub data CircuitState : Type 0 where
  closed open_ half_open : CircuitState

pub record CircuitBreakerConfig : Type 0 where
  pub failure_threshold : ℕ
  pub success_threshold : ℕ
  pub window_seconds : ℕ
  pub recovery_timeout_seconds : ℕ

pub record CircuitBreaker : Type 0 where
  pub name : String
  pub config : CircuitBreakerConfig
  pub state : CircuitState
  pub failure_count : ℕ
  pub success_count : ℕ
  pub last_failure_time : ℕ

-- CircuitBreaker.__init__
unfoldable pub new : String → CircuitBreakerConfig → CircuitBreaker
new name config = record {
  name = name;
  config = config;
  state = closed;
  failure_count = 0;
  success_count = 0;
  last_failure_time = 0;
}

-- (now - last_failure_time) < recovery_timeout_seconds
unfoldable pub cooling : ℕ → CircuitBreaker → Bool
cooling now b = ltb now (b.last_failure_time + 1000 * b.config.recovery_timeout_seconds)

unfoldable pub is_open : ℕ → CircuitBreaker → Bool
is_open now b = elim b.state [ open_ ↦ cooling now b | _ ↦ false ]

unfoldable pub trip : ℕ → CircuitBreaker → CircuitBreaker
trip now b = record b { state = open_; last_failure_time = now }

unfoldable pub reset : CircuitBreaker → CircuitBreaker
reset b = record b { state = closed; failure_count = 0; success_count = 0; last_failure_time = 0 }

unfoldable pub on_success : CircuitBreaker → CircuitBreaker
on_success b = elim b.state [
  | half_open ↦
      if leb b.config.success_threshold (b.success_count + 1)
      then record b { state = closed; failure_count = 0; success_count = 0 }
      else record b { success_count = b.success_count + 1 }
  | closed ↦ record b { failure_count = b.failure_count - 1 }
  | open_ ↦ b
]

unfoldable pub on_failure : ℕ → CircuitBreaker → CircuitBreaker
on_failure now b = elim b.state [
  | half_open ↦ record b {
    state = open_;
    failure_count = b.failure_count + 1;
    last_failure_time = now;
  }
  | other ↦ record b {
    state = if leb b.config.failure_threshold (b.failure_count + 1) then open_ else other;
    failure_count = b.failure_count + 1;
    last_failure_time = now;
  }
]

-- The part of `call` before its `yield`: `none` is the CircuitOpenError.
unfoldable pub enter : ℕ → CircuitBreaker → Option CircuitBreaker
enter now b = elim b.state [
  | open_ ↦
      if leb (b.last_failure_time + 1000 * b.config.recovery_timeout_seconds) now
      then some (record b { state = half_open; success_count = 0 })
      else none
  | _ ↦ some b
]

-- isinstance(exc, (TimeoutError, ConnectionError))
unfoldable pub is_timeout_or_connection : ExceptionClass → Bool
is_timeout_or_connection ExceptionClass.timeout_error = true
is_timeout_or_connection ExceptionClass.connection_error = true
is_timeout_or_connection _ = false

-- The part of `call` after its `yield`, for what the guarded body did; the outcome itself is passed
-- on by the caller.
unfoldable pub leave {ℓ} : {A : Type ℓ} → ℕ → Outcome A → CircuitBreaker → CircuitBreaker
leave now (returns _) b = on_success b
leave now (raises e) b =
    if is_retriable e none || is_timeout_or_connection e.cls then on_failure now b else b

abbrev pub circuit_open : String → Exc
circuit_open name = record {
  cls = ExceptionClass.provider ProviderClass.circuit_open_error;
  error_code = "CIRCUIT_OPEN";
  message = name;
  user_message = "";
  status_code = none;
  grpc_code = none;
}

-- A whole `async with breaker.call()` round a body, when no other task touches the breaker meanwhile:
-- it is entered at `start` and left at `finish`.
unfoldable pub call {ℓ} :
    {A : Type ℓ} → ℕ → ℕ → Outcome A → CircuitBreaker → Outcome A × CircuitBreaker
call start finish body b = elim (enter start b) [
  | none ↦ (raises (circuit_open b.name), b)
  | some b' ↦ (body, leave finish body b')
]

abbrev pub BreakerMap : Type 0
BreakerMap = Dict CircuitBreaker

-- CircuitBreakerRegistry.get_or_create: the breaker, and the registry after the call.
unfoldable pub get_or_create :
    CircuitBreakerConfig
    → String
    → Option CircuitBreakerConfig
    → BreakerMap
    → CircuitBreaker × BreakerMap
get_or_create default_config name config m = elim (lookup name m) [
  | some b ↦ (b, m)
  | none ↦
      let b = new name (elim config [ some c ↦ c | none ↦ default_config ]) in (b, insert name b m)
]

unfoldable pub reset_all : BreakerMap → BreakerMap
reset_all = map (λ (e : String × CircuitBreaker). (e.0, reset e.1))
