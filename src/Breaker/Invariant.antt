-- ===== src/Breaker/Invariant.antt =====
-- What holds of a breaker under every interleaving of the tasks that share it.
use llm_service.Prelude.{
  ℕ, String, inl, inr, ◌⊎◌, if◌then◌else◌, ◌<◌, ◌≡◌, refl, none, some, arith, Bool-cases, ◌||◌,
}
use llm_service.Retry.{Outcome, returns, raises, is_retriable}
use llm_service.Breaker.{
  closed, half_open, CircuitBreaker, CircuitBreakerConfig, is_open, cooling, trip, reset,
  on_success, on_failure, enter, leave, call, circuit_open, new, is_timeout_or_connection,
}

-- What pydantic enforces of a configuration.
pub record IsConfig (c : CircuitBreakerConfig) : Type 0 where
  pub failures : 0 < c.failure_threshold
  pub successes : 0 < c.success_threshold
  pub timeout : 0 < c.recovery_timeout_seconds

-- A closed breaker is below its failure threshold and counts no successes; a half-open one is below
-- its success threshold.
pub record IsValid (b : CircuitBreaker) : Type 0 where
  pub config : IsConfig b.config
  pub below : b.state ≡ closed → b.failure_count < b.config.failure_threshold
  pub fresh : b.state ≡ closed → b.success_count ≡ 0
  pub probing : b.state ≡ half_open → b.success_count < b.config.success_threshold

-- One step of one of the tasks that share the breaker, each under its lock.
pub data Step (b c : CircuitBreaker) : Type 0 where
  enters : (now : ℕ) → enter now b ≡ some c → Step b c
  succeeds : c ≡ on_success b → Step b c
  fails : (now : ℕ) → c ≡ on_failure now b → Step b c
  trips : (now : ℕ) → c ≡ trip now b → Step b c
  resets : c ≡ reset b → Step b c

pub data Reach (b : CircuitBreaker) : CircuitBreaker → Type 0 where
  here : Reach b b
  next : {c d : CircuitBreaker} → Reach b c → Step c d → Reach b d

new-IsValid : (name : String) (c : CircuitBreakerConfig) → IsConfig c → IsValid (new name c)
unfolding new
new-IsValid name c h = ground arith

enter-IsValid : (now : ℕ) (b c : CircuitBreaker) → IsValid b → enter now b ≡ some c → IsValid c
unfolding enter
enter-IsValid now b c h e = ground arith

on_success-IsValid : (b : CircuitBreaker) → IsValid b → IsValid (on_success b)
unfolding on_success
on_success-IsValid b h = ground arith

on_failure-IsValid : (now : ℕ) (b : CircuitBreaker) → IsValid b → IsValid (on_failure now b)
unfolding on_failure
on_failure-IsValid now b h = ground arith

trip-IsValid : (now : ℕ) (b : CircuitBreaker) → IsValid b → IsValid (trip now b)
unfolding trip
trip-IsValid now b h = ground arith

reset-IsValid : (b : CircuitBreaker) → IsValid b → IsValid (reset b)
unfolding reset
reset-IsValid b h = ground arith

Step-IsValid : {b c : CircuitBreaker} → Step b c → IsValid b → IsValid c
Step-IsValid {b} {c} (enters now e) h = enter-IsValid now b c h e
Step-IsValid {b} (succeeds e) h = rw e (on_success-IsValid b h)
Step-IsValid {b} (fails now e) h = rw e (on_failure-IsValid now b h)
Step-IsValid {b} (trips now e) h = rw e (trip-IsValid now b h)
Step-IsValid {b} (resets e) h = rw e (reset-IsValid b h)

-- Every breaker that is reached from a new one is valid.
Reach-IsValid :
    (name : String) (c : CircuitBreakerConfig) {b : CircuitBreaker}
    → IsConfig c
    → Reach (new name c) b
    → IsValid b
Reach-IsValid name c h here = new-IsValid name c h
Reach-IsValid name c h (next r s) = Step-IsValid s (Reach-IsValid name c h r)

-- From a new breaker with a valid configuration, however its tasks interleave: while the breaker is
-- closed, it is below its failure threshold and counts no successes.
pub Reach-closed :
    (name : String) (c : CircuitBreakerConfig) (b : CircuitBreaker)
    → IsConfig c
    → Reach (new name c) b
    → b.state ≡ closed
    → (b.failure_count < b.config.failure_threshold) × (b.success_count ≡ 0)
Reach-closed name c b h r is =
    let valid = Reach-IsValid name c h r in (valid.below is, valid.fresh is)

-- From a new breaker with a valid configuration, however its tasks interleave: while the breaker is
-- half-open, it is below its success threshold.
Reach-half_open :
    (name : String) (c : CircuitBreakerConfig) (b : CircuitBreaker)
    → IsConfig c
    → Reach (new name c) b
    → b.state ≡ half_open
    → b.success_count < b.config.success_threshold
Reach-half_open name c b h r is = (Reach-IsValid name c h r).probing is

-- What a guarded body does to the breaker when it ends: nothing, or a step.
pub leave-Step :
    {A : Type 0} (now : ℕ) (o : Outcome A) (b : CircuitBreaker)
    → (leave now o b ≡ b) ⊎ Step b (leave now o b)
unfolding leave
leave-Step now (returns a) b = inr (succeeds refl)
leave-Step now (raises e) b =
    elim (Bool-cases (is_retriable e none || is_timeout_or_connection e.cls)) [
      | inl counted ↦ inr (fails now (rw counted))
      | inr other ↦ inl (rw other)
    ]

-- While the breaker is open and its recovery timeout has not passed, `is_open` says so, and a guarded call is rejected with
-- CircuitOpenError whatever its body would do, and the breaker stays as it is; once the timeout has passed, or
-- in any other state, `is_open` is false and the body's own outcome comes back.
call-is_open :
    {A : Type 0} (start finish : ℕ) (body : Outcome A) (b : CircuitBreaker)
    → call start finish body b ≡ (
        if is_open start b
        then (raises (circuit_open b.name), b)
        else (body, (call start finish body b).1))
unfolding call enter is_open cooling
call-is_open start finish body b = ground arith
