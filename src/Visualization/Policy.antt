-- ===== src/Visualization/Policy.antt =====
-- The attempt and repair policy (app/visualization/policy.py).
use llm_service.Prelude.{
  ℕ, ◌+◌, String, Bool, true, false, Option, none, some, List, [], ◌∷◌, ◌++◌, leb, ◌||◌,
  if◌then◌else◌, ◌≡◌, ◌≤◌, ◌<◌, arith, ◌⊎◌,
}

pub data FailureCategory : Type 0 where
  invalid_spec : FailureCategory
  unsupported_template : FailureCategory
  syntax : FailureCategory
  render_error : FailureCategory
  invalid_output : FailureCategory
  timeout : FailureCategory
  resource_limit : FailureCategory
  storage_failure : FailureCategory
  worker_unavailable : FailureCategory
  cancelled : FailureCategory
  expired : FailureCategory
  disabled : FailureCategory
  unauthorized : FailureCategory
  budget_exhausted : FailureCategory

-- `category.value`
unfoldable pub value : FailureCategory → String
value invalid_spec = "invalid_spec"
value unsupported_template = "unsupported_template"
value syntax = "syntax"
value render_error = "render_error"
value invalid_output = "invalid_output"
value timeout = "timeout"
value resource_limit = "resource_limit"
value storage_failure = "storage_failure"
value worker_unavailable = "worker_unavailable"
value cancelled = "cancelled"
value expired = "expired"
value disabled = "disabled"
value unauthorized = "unauthorized"
value budget_exhausted = "budget_exhausted"

-- category in REPAIRABLE
unfoldable pub is_repairable : FailureCategory → Bool
is_repairable invalid_spec = true
is_repairable unsupported_template = true
is_repairable syntax = true
is_repairable render_error = true
is_repairable invalid_output = true
is_repairable _ = false

-- category in TRANSIENT
unfoldable pub is_transient : FailureCategory → Bool
is_transient storage_failure = true
is_transient worker_unavailable = true
is_transient timeout = true
is_transient _ = false

-- category in PERMANENT
unfoldable pub is_permanent : FailureCategory → Bool
is_permanent disabled = true
is_permanent unauthorized = true
is_permanent budget_exhausted = true
is_permanent cancelled = true
is_permanent expired = true
is_permanent resource_limit = true
is_permanent _ = false

pub record AttemptTracker : Type 0 where
  pub max_attempts : ℕ
  pub used : ℕ
  pub history : List String

-- `none` where the source raises AttemptsExhausted
unfoldable pub begin_attempt : AttemptTracker → Option (ℕ × AttemptTracker)
begin_attempt t =
    if leb t.max_attempts t.used then none else some (t.used + 1, record t { used = t.used + 1 })

unfoldable pub record_failure : FailureCategory → AttemptTracker → AttemptTracker
record_failure category t = record t { history = t.history ++ (value category ∷ []) }

pub data NextStep : Type 0 where
  repair : NextStep
  retry : NextStep
  give_up : NextStep

-- `remaining <= 0` is `max_attempts <= used`.
unfoldable pub next_step : FailureCategory → AttemptTracker → NextStep
next_step category t =
    if leb t.max_attempts t.used || is_permanent category
    then give_up
    else if is_repairable category
    then repair
    else if is_transient category
    then retry
    else give_up

-- Every category is in exactly one of the three sets, so that the final `give_up` of `next_step` is
-- never the answer: with attempts left, a repairable failure is repaired, a transient one is tried
-- again, and a permanent one stops the block; with none left every failure stops it.
next_step-cases :
    (category : FailureCategory) (t : AttemptTracker)
    → ((t.max_attempts ≤ t.used) × (next_step category t ≡ give_up))
      ⊎ (t.used < t.max_attempts)
        × ((is_repairable category ≡ true)
              × (is_transient category ≡ false)
              × (is_permanent category ≡ false)
              × (next_step category t ≡ repair)
            ⊎ (is_repairable category ≡ false)
              × (is_transient category ≡ true)
              × (is_permanent category ≡ false)
              × (next_step category t ≡ retry)
            ⊎ (is_repairable category ≡ false)
              × (is_transient category ≡ false)
              × (is_permanent category ≡ true)
              × (next_step category t ≡ give_up))
unfolding next_step is_repairable is_transient is_permanent
next_step-cases invalid_spec t = ground arith
next_step-cases unsupported_template t = ground arith
next_step-cases syntax t = ground arith
next_step-cases render_error t = ground arith
next_step-cases invalid_output t = ground arith
next_step-cases timeout t = ground arith
next_step-cases resource_limit t = ground arith
next_step-cases storage_failure t = ground arith
next_step-cases worker_unavailable t = ground arith
next_step-cases cancelled t = ground arith
next_step-cases expired t = ground arith
next_step-cases disabled t = ground arith
next_step-cases unauthorized t = ground arith
next_step-cases budget_exhausted t = ground arith
