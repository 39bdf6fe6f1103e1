-- ===== src/Providers/Router.antt =====
-- GenerationRouter (app/providers/router.py): a primary provider and one fallback, for streams
-- (`generate_stream`) and for whole answers (`generate`). What `time.time()` returns is in `Times`.
-- The dictionary of breakers is its two entries; metrics, spans and logs are left out.
pub mod Agrees
use llm_service.Prelude.{
  ℕ, String, Bool, true, false, not, Option, none, some, List, [], ◌∷◌, if◌then◌else◌,
}
use llm_service.Errors.{Exc, ExceptionClass, ProviderClass, make_error, type_name}
use llm_service.Retry.{Outcome, returns, raises}
use llm_service.Breaker.{CircuitBreaker}
use llm_service.Providers.Deadlines.{Source, End, finished, failed, Delivery, with_deadlines}
use llm_service.Providers.Chain.{is_empty, breaker_is_open, report_success, report_failure}

pub record Router (P : Type 0) : Type 0 where
  pub primary : P → Source
  pub fallback : P → Source
  pub primary_breaker : Option CircuitBreaker
  pub fallback_breaker : Option CircuitBreaker
  pub fallback_enabled : Bool
  pub fallback_name : String
  pub first_token_timeout : Option ℕ
  pub idle_timeout : Option ℕ
  pub fallback_first_token_timeout : Option ℕ

-- the clock when each breaker is asked and told of a failure
pub record Times : Type 0 where
  pub asked_at : ℕ
  pub failed_at : ℕ
  pub fallback_asked_at : ℕ
  pub fallback_failed_at : ℕ

pub record RouterRoute : Type 0 where
  pub provider : String
  pub fallback_used : Bool
  pub fallback_reason : Option String

pub record RouterRun : Type 0 where
  pub tokens : List String
  pub end : End
  pub route : RouterRoute
  pub primary_breaker : Option CircuitBreaker
  pub fallback_breaker : Option CircuitBreaker

abbrev pub providers_failed : String → Exc
providers_failed message =
    make_error (ExceptionClass.provider ProviderClass.all_providers_failed_error)
      "PROVIDER_ALL_FAILED" message

-- the failure of the fallback, whatever it was, is the failure of all providers
unfoldable pub fallback_end : End → End
fallback_end finished = finished
fallback_end (failed e) = failed (providers_failed "All generation providers failed.")

module _ {P : Type 0} (r : Router P) (t : Times) (prompt : P) where
  -- `_stream_fallback`: the tokens, the end, and the fallback's breaker
  unfoldable pub stream_fallback : List String × End × Option CircuitBreaker
  stream_fallback =
      if not r.fallback_enabled
      then (
        [],
        failed (providers_failed "Primary provider failed and the generation fallback is disabled"),
        r.fallback_breaker,
      )
      else if breaker_is_open t.fallback_asked_at r.fallback_breaker
      then ([], failed (providers_failed "Both providers are unavailable"), r.fallback_breaker)
      else let d =
          with_deadlines (r.fallback prompt) r.fallback_first_token_timeout r.idle_timeout
            r.fallback_name in
        let told =
          if is_empty d.tokens then r.fallback_breaker else report_success r.fallback_breaker in
        (
          d.tokens,
          fallback_end d.end,
          elim d.end [ finished ↦ told | failed _ ↦ report_failure t.fallback_failed_at told ],
        )

  -- a run that goes to the fallback, with the primary's breaker and the reason
  unfoldable pub fall_back : Option CircuitBreaker → String → RouterRun
  fall_back primary_breaker reason =
      let (tokens, end, b) = stream_fallback in
      record {
        tokens = tokens;
        end = end;
        route = record {
          provider = r.fallback_name;
          fallback_used = true;
          fallback_reason = some reason;
        };
        primary_breaker = primary_breaker;
        fallback_breaker = b;
      }

  abbrev primary_route : RouterRoute
  primary_route = record { provider = "primary"; fallback_used = false; fallback_reason = none }

  -- the `try` on the primary, for what its stream delivers
  unfoldable pub after_primary : List String → End → RouterRun
  after_primary tokens finished = record {
    tokens = tokens;
    end = finished;
    route = primary_route;
    primary_breaker =
        if is_empty tokens then r.primary_breaker else report_success r.primary_breaker;
    fallback_breaker = r.fallback_breaker;
  }
  after_primary [] (failed e) =
      fall_back (report_failure t.failed_at r.primary_breaker) (type_name e.cls)
  after_primary (token ∷ tokens) (failed e) = record {
    tokens = token ∷ tokens;
    end = failed e;
    route = primary_route;
    primary_breaker = report_failure t.failed_at (report_success r.primary_breaker);
    fallback_breaker = r.fallback_breaker;
  }

  unfoldable pub generate_stream : RouterRun
  generate_stream =
      if breaker_is_open t.asked_at r.primary_breaker
      then fall_back r.primary_breaker "circuit_open"
      else let d =
          with_deadlines (r.primary prompt) r.first_token_timeout r.idle_timeout "primary" in
        after_primary d.tokens d.end

-- The non-streaming path: the adapters' `execute` as what they return or raise.
module _ {A : Type 0} {P : Type 0} (r : Router P) (t : Times) (primary fallback : Outcome A) where
  -- `_execute_fallback`: the outcome, and the fallback's breaker
  unfoldable pub execute_fallback : Outcome A × Option CircuitBreaker
  execute_fallback =
      if not r.fallback_enabled
      then (
        raises (providers_failed "Primary provider failed and the generation fallback is disabled"),
        r.fallback_breaker,
      )
      else if breaker_is_open t.fallback_asked_at r.fallback_breaker
      then (raises (providers_failed "Both providers are unavailable"), r.fallback_breaker)
      else elim fallback [
        | returns a ↦ (returns a, report_success r.fallback_breaker)
        | raises e ↦ (
          raises (providers_failed "All generation providers failed."),
          report_failure t.fallback_failed_at r.fallback_breaker,
        )
      ]

  -- the outcome, and the breakers of the primary and of the fallback
  unfoldable pub generate : Outcome A × Option CircuitBreaker × Option CircuitBreaker
  generate =
      let (o, b) = execute_fallback in
      if breaker_is_open t.asked_at r.primary_breaker
      then (o, r.primary_breaker, b)
      else elim primary [
        | returns a ↦ (returns a, report_success r.primary_breaker, r.fallback_breaker)
        | raises e ↦ (o, report_failure t.failed_at r.primary_breaker, b)
      ]
