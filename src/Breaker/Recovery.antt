-- ===== src/Breaker/Recovery.antt =====
-- How a breaker opens and how it recovers.
use llm_service.Prelude.{
  ℕ, suc, ◌+◌, ◌*◌, ◌≤◌, ◌<◌, ◌≡◌, refl, ap, true, ◌||◌, none, arith, List, [], ◌∷◌, length, All,
  ◌↔◌,
}
use llm_service.Retry.{Outcome, returns, raises, is_retriable}
use llm_service.Breaker.{
  closed, open_, half_open, CircuitBreaker, on_success, on_failure, enter, leave, call,
  is_timeout_or_connection,
}

-- Guarded calls one after the other: when each is entered and left, and what its body does.
abbrev pub Call : Type 0 → Type 0
Call A = ℕ × ℕ × Outcome A

pub run_calls : {A : Type 0} → List (Call A) → CircuitBreaker → CircuitBreaker
run_calls [] b = b
run_calls ((start, finish, body) ∷ calls) b = run_calls calls (call start finish body b).1

-- An error that `call` counts.
abbrev pub IsFailure : {A : Type 0} → Call A → Type 0
IsFailure (_, _, returns _) = ⊥
IsFailure (_, _, raises e) = (is_retriable e none || is_timeout_or_connection e.cls) ≡ true

abbrev pub IsSuccess : {A : Type 0} → Call A → Type 0
IsSuccess (_, _, returns _) = Unit
IsSuccess (_, _, raises _) = ⊥

call-failure :
    {A : Type 0} (s f : ℕ) (o : Outcome A) (b : CircuitBreaker)
    → IsFailure (s, f, o)
    → b.state ≡ closed
    → (call s f o b).1 ≡ on_failure f b
unfolding call enter leave
call-failure s f (returns a) b h c = absurd h
call-failure s f (raises e) b h c = ground arith

run_calls-failure :
    {A : Type 0} (s f : ℕ) (o : Outcome A) (calls : List (Call A)) (b : CircuitBreaker)
    → IsFailure (s, f, o)
    → b.state ≡ closed
    → run_calls ((s, f, o) ∷ calls) b ≡ run_calls calls (on_failure f b)
unfolding run_calls
run_calls-failure s f o calls b h c = ap (run_calls calls) (call-failure s f o b h c)

-- A closed breaker stays closed under fewer failures than its threshold leaves room for, and counts
-- them; the failure that fills the room opens it.
run_calls-failures :
    {A : Type 0} (calls : List (Call A)) (b : CircuitBreaker)
    → All IsFailure calls
    → b.state ≡ closed
    → b.failure_count < b.config.failure_threshold
    → b.failure_count + length calls ≤ b.config.failure_threshold
    → let c = run_calls calls b in
      (c.failure_count ≡ b.failure_count + length calls)
      × ((c.state ≡ closed) ↔ (b.failure_count + length calls < b.config.failure_threshold))
      × ((c.state ≡ open_) ↔ (b.failure_count + length calls ≡ b.config.failure_threshold))
unfolding run_calls on_failure
run_calls-failures [] b all h room le = ground arith
run_calls-failures ((s, f, o) ∷ []) b all h room le = ground (arith, call-failure s f o b all.0 h)
run_calls-failures ((s, f, o) ∷ d ∷ calls) b all h room le =
    rw (run_calls-failure s f o (d ∷ calls) b all.0 h)
      (ground (arith, run_calls-failures (d ∷ calls) (on_failure f b) all.1))

call-success_probing :
    {A : Type 0} (s f : ℕ) (o : Outcome A) (b : CircuitBreaker)
    → IsSuccess (s, f, o)
    → b.state ≡ half_open
    → (call s f o b).1 ≡ on_success b
unfolding call enter leave
call-success_probing s f (returns a) b h c = ground arith
call-success_probing s f (raises e) b h c = absurd h

run_calls-success :
    {A : Type 0} (s f : ℕ) (o : Outcome A) (calls : List (Call A)) (b : CircuitBreaker)
    → IsSuccess (s, f, o)
    → b.state ≡ half_open
    → run_calls ((s, f, o) ∷ calls) b ≡ run_calls calls (on_success b)
unfolding run_calls
run_calls-success s f o calls b h c = ap (run_calls calls) (call-success_probing s f o b h c)

-- An open breaker admits a call once its timeout has passed, as a half-open one would.
call-open_late :
    {A : Type 0} (s f : ℕ) (o : Outcome A) (b : CircuitBreaker)
    → b.state ≡ open_
    → b.last_failure_time + 1000 * b.config.recovery_timeout_seconds ≤ s
    → (call s f o b).1 ≡ (call s f o (record b { state = half_open; success_count = 0 })).1
unfolding call enter
call-open_late s f o b h late = ground arith

-- A half-open breaker that needs as many more successes as there are calls is closed by them.
probes_close :
    {A : Type 0} (calls : List (Call A)) (b : CircuitBreaker)
    → All IsSuccess calls
    → b.state ≡ half_open
    → b.success_count < b.config.success_threshold
    → b.success_count + length calls ≡ b.config.success_threshold
    → let c = run_calls calls b in
      (c.state ≡ closed) × (c.failure_count ≡ 0) × (c.success_count ≡ 0)
unfolding run_calls on_success
probes_close [] b all h room e = absurd (omega arith)
probes_close ((s, f, o) ∷ []) b all h room e = ground (arith, call-success_probing s f o b all.0 h)
probes_close ((s, f, o) ∷ d ∷ calls) b all h room e =
    rw (run_calls-success s f o (d ∷ calls) b all.0 h)
      (ground (arith, probes_close (d ∷ calls) (on_success b) all.1))

run_calls-open_late :
    {A : Type 0} (s f : ℕ) (o : Outcome A) (calls : List (Call A)) (b : CircuitBreaker)
    → b.state ≡ open_
    → b.last_failure_time + 1000 * b.config.recovery_timeout_seconds ≤ s
    → run_calls ((s, f, o) ∷ calls) b
      ≡ run_calls ((s, f, o) ∷ calls) (record b { state = half_open; success_count = 0 })
unfolding run_calls
run_calls-open_late s f o calls b h late = ap (run_calls calls) (call-open_late s f o b h late)

-- An open breaker whose recovery timeout has passed is closed, with its counts at 0, by as many
-- successful calls in a row as its success threshold says.
pub run_calls-recovers :
    {A : Type 0} (s f : ℕ) (o : Outcome A) (calls : List (Call A)) (b : CircuitBreaker)
    → All IsSuccess ((s, f, o) ∷ calls)
    → b.state ≡ open_
    → b.last_failure_time + 1000 * b.config.recovery_timeout_seconds ≤ s
    → suc (length calls) ≡ b.config.success_threshold
    → let c = run_calls ((s, f, o) ∷ calls) b in
      (c.state ≡ closed) × (c.failure_count ≡ 0) × (c.success_count ≡ 0)
run_calls-recovers s f o calls b all h late e =
    let probing = record b { state = half_open; success_count = 0 } in
    rw (run_calls-open_late s f o calls b h late)
      (probes_close ((s, f, o) ∷ calls) probing all refl (omega arith) (omega arith))

-- Once a breaker is open, reports of success and failure alone never close it and never make it
-- half-open.
pub data Report : Type 0 where
  success : Report
  failure : ℕ → Report

pub apply_reports : List Report → CircuitBreaker → CircuitBreaker
apply_reports [] b = b
apply_reports (success ∷ rs) b = apply_reports rs (on_success b)
apply_reports (failure now ∷ rs) b = apply_reports rs (on_failure now b)

pub apply_reports-open :
    (rs : List Report) (b : CircuitBreaker)
    → b.state ≡ open_
    → ((apply_reports rs b).state ≡ open_) × (b.failure_count ≤ (apply_reports rs b).failure_count)
unfolding apply_reports on_success on_failure
apply_reports-open [] b h = (h, omega arith)
apply_reports-open (success ∷ rs) b h = ground (arith, apply_reports-open rs b h)
apply_reports-open (failure now ∷ rs) b h = ground (arith, apply_reports-open rs (on_failure now b))
