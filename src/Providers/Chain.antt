-- ===== src/Providers/Chain.antt =====
-- ProviderChain.generate_stream (app/providers/chain.py). A prompt is of any type `P`, and a fitter
-- is a parameter that returns `none` for a ContextOverflowError. An entry carries, beside its fields,
-- what `time.time()` returns when its breaker is asked and when its failure is reported. Every entry
-- has a breaker of its own. Metrics and logs are left out.
pub mod OneProvider
pub mod Delivered
pub mod Breakers
use llm_service.Prelude.{
  ℕ, String, Bool, true, false, not, Option, none, some, List, [], ◌∷◌, ◌++◌, map, if◌then◌else◌,
}
use llm_service.Errors.{Exc, ExceptionClass, ProviderClass, make_error}
use llm_service.Breaker.{CircuitBreaker, is_open, on_success, on_failure}
use llm_service.Providers.Deadlines.{Source, End, finished, failed, Delivery, with_deadlines}

pub record ChainEntry (P : Type 0) : Type 0 where
  pub name : String
  pub stream : P → Source
  pub breaker : Option CircuitBreaker
  pub first_token_timeout : Option ℕ
  pub asked_at : ℕ
  pub failed_at : ℕ

abbrev pub breakers_of : {P : Type 0} → List (ChainEntry P) → List (Option CircuitBreaker)
breakers_of {P} = map (λ (e : ChainEntry P). e.breaker)

-- why a provider gave no answer
pub data Reason : Type 0 where
  breaker_open context_too_large : Reason
  error : Exc → Reason

-- params["_route"]
pub record Route : Type 0 where
  pub provider : String
  pub fallback_used : Bool
  pub fallback_reason : Option Reason

-- What became of one entry, with its breaker afterwards: it was skipped or failed before any token;
-- its stream ended; or its stream failed after some token.
pub data Attempt : Type 0 where
  skipped : Reason → Option CircuitBreaker → Attempt
  answered : List String → Option CircuitBreaker → Attempt
  broke : List String → Exc → Option CircuitBreaker → Attempt

abbrev pub is_empty : List String → Bool
is_empty [] = true
is_empty (_ ∷ _) = false

-- `entry.breaker and entry.breaker.is_open()`
unfoldable pub breaker_is_open : ℕ → Option CircuitBreaker → Bool
breaker_is_open now none = false
breaker_is_open now (some b) = is_open now b

-- `if entry.breaker: await entry.breaker.on_success()`
unfoldable pub report_success : Option CircuitBreaker → Option CircuitBreaker
report_success none = none
report_success (some b) = some (on_success b)

unfoldable pub report_failure : ℕ → Option CircuitBreaker → Option CircuitBreaker
report_failure now none = none
report_failure now (some b) = some (on_failure now b)

-- A stream of a provider, with its reports to the breaker: success at the first token, failure at an
-- exception.
unfoldable pub settle : ℕ → Option CircuitBreaker → Delivery → Attempt
settle failed_at breaker d =
    let told = if is_empty d.tokens then breaker else report_success breaker in
    elim d.end [
      | finished ↦ answered d.tokens told
      | failed e ↦
          if is_empty d.tokens
          then skipped (error e) (report_failure failed_at told)
          else broke d.tokens e (report_failure failed_at told)
    ]

module _ {P : Type 0} (fitter : Option (P → String → Option P)) (idle_timeout : Option ℕ)
    (prompt : P) where
  -- the prompt of an attempt; `none` is a ContextOverflowError
  unfoldable pub fit_for : String → Option P
  fit_for name = elim fitter [ none ↦ some prompt | some fit ↦ fit prompt name ]

  -- one round of the loop over the entries
  unfoldable pub try_entry : ChainEntry P → Attempt
  try_entry entry =
      if breaker_is_open entry.asked_at entry.breaker
      then skipped breaker_open entry.breaker
      else elim (fit_for entry.name) [
        | none ↦ skipped context_too_large entry.breaker
        | some p ↦
            settle entry.failed_at entry.breaker
              (with_deadlines (entry.stream p) entry.first_token_timeout idle_timeout entry.name)
      ]

-- A run: the tokens that were yielded, how it ended, the route, and every entry's breaker.
pub record ChainRun : Type 0 where
  pub tokens : List String
  pub end : End
  pub route : Option Route
  pub breakers : List (Option CircuitBreaker)

-- the message is shortened: the failures that the code joins to it are left out
abbrev pub all_failed : Exc
all_failed =
    make_error (ExceptionClass.provider ProviderClass.all_providers_failed_error)
      "PROVIDER_ALL_FAILED" "All generation providers failed. "

abbrev pub last_reason : List (String × Reason) → Option Reason
last_reason [] = none
last_reason ((_, r) ∷ []) = some r
last_reason (_ ∷ f ∷ fs) = last_reason (f ∷ fs)

abbrev pub has_failures : List (String × Reason) → Bool
has_failures [] = false
has_failures (_ ∷ _) = true

-- route.update(...), which is reached at the first token only
unfoldable pub route_of : String → List (String × Reason) → List String → Option Route
route_of name failures [] = none
route_of name failures (_ ∷ _) = some (record {
  provider = name;
  fallback_used = has_failures failures;
  fallback_reason = last_reason failures;
})

module _ {P : Type 0} (fitter : Option (P → String → Option P)) (idle_timeout : Option ℕ)
    (prompt : P) where
  -- the loop over the entries, with the failures so far
  unfoldable pub try_entries : List (String × Reason) → List (ChainEntry P) → ChainRun
  try_entries failures [] = record {
    tokens = [];
    end = failed all_failed;
    route = none;
    breakers = [];
  }
  try_entries failures (entry ∷ entries) = elim (try_entry fitter idle_timeout prompt entry) [
    | answered tokens b ↦ record {
      tokens = tokens;
      end = finished;
      route = route_of entry.name failures tokens;
      breakers = b ∷ breakers_of entries;
    }
    | broke tokens e b ↦ record {
      tokens = tokens;
      end = failed e;
      route = route_of entry.name failures tokens;
      breakers = b ∷ breakers_of entries;
    }
    | skipped reason b ↦
        let rest = try_entries (failures ++ ((entry.name, reason) ∷ [])) entries in
        record rest { breakers = b ∷ rest.breakers }
  ]

  unfoldable pub generate_stream : List (ChainEntry P) → ChainRun
  generate_stream = try_entries []
