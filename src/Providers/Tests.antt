-- ===== src/Providers/Tests.antt =====
-- Witnesses for the provider chain and the router: a provider that fails at once, one that answers,
-- one that ends without a token, and a breaker that has tripped.
use llm_service.Providers.Chain.Delivered.{IsSilent, delivery, generate_stream-delivery}
use llm_service.Prelude.{◌⊎◌, ◌++◌, All, ◌≡◌, refl, String, true, Option, none, some, List, [], ◌∷◌}
use llm_service.Errors.{ExceptionClass, make_error}
use llm_service.Breaker.{CircuitBreaker, new, open_}
use llm_service.Providers.Deadlines.{Source, yields, ends, raises, failed, Delivery}
use llm_service.Providers.Chain.{ChainEntry, all_failed, generate_stream}
use llm_service.Providers.Chain.Breakers.{NoneLeaves, generate_stream-NoneLeaves}
use llm_service.Providers.Router.{Router, Times}
use llm_service.Providers.Router
use llm_service.Providers.Router.Agrees.{SameRun, chain_run, generate_stream-SameRun}

abbrev tripped : CircuitBreaker
tripped =
    record (new "groq" (record {
      failure_threshold = 5;
      success_threshold = 2;
      window_seconds = 60;
      recovery_timeout_seconds = 30;
    })) { state = open_; failure_count = 5; last_failure_time = 1000 }

abbrev failing : String → Source
failing prompt = raises 10 (make_error (ExceptionClass.other "InternalServerError") "" "down")

abbrev answering : String → Source
answering prompt = yields 100 "Hel" (yields 20 "lo" (ends 5))

abbrev silent : String → Source
silent prompt = ends 30

abbrev entry : String → (String → Source) → Option CircuitBreaker → ChainEntry String
entry name stream breaker = record {
  name = name;
  stream = stream;
  breaker = breaker;
  first_token_timeout = some 8000;
  asked_at = 2000;
  failed_at = 2100;
}

abbrev entries : List (ChainEntry String)
entries =
    entry "groq" answering (some tripped)
    ∷ entry "gemini" failing none
    ∷ entry "other" answering none
    ∷ []

generate_stream-NoneLeaves_example :
    NoneLeaves
      (some tripped ∷ none ∷ none ∷ [])
      (generate_stream none (some 30_000) "hi" entries).breakers
generate_stream-NoneLeaves_example = generate_stream-NoneLeaves none (some 30_000) "hi" entries

generate_stream-delivery_example :
    let run = generate_stream none (some 30_000) "hi" entries in
    (All (λ (e : ChainEntry String). IsSilent (delivery none (some 30_000) "hi" e)) entries
      × (run.tokens ≡ [])
      × (run.end ≡ failed all_failed))
    ⊎ (before : List (ChainEntry String)) × (entry : ChainEntry String) × (after : List
        (ChainEntry String))
      × (d : Delivery) × (entries ≡ before ++ (entry ∷ after))
      × All (λ (e : ChainEntry String). IsSilent (delivery none (some 30_000) "hi" e)) before
      × (delivery none (some 30_000) "hi" entry ≡ some d)
      × (run.tokens ≡ d.tokens)
      × (run.end ≡ d.end)
generate_stream-delivery_example = generate_stream-delivery none (some 30_000) "hi" entries

abbrev router : Router String
router = record {
  primary = failing;
  fallback = answering;
  primary_breaker = none;
  fallback_breaker = some tripped;
  fallback_enabled = true;
  fallback_name = "gemini";
  first_token_timeout = some 8000;
  idle_timeout = some 30_000;
  fallback_first_token_timeout = none;
}

abbrev times : Times
times = record {
  asked_at = 40_000;
  failed_at = 40_010;
  fallback_asked_at = 40_020;
  fallback_failed_at = 40_500;
}

generate_stream-SameRun_example :
    SameRun router times "hi"
      (Router.generate_stream router times "hi")
      (chain_run router times "hi")
generate_stream-SameRun_example = generate_stream-SameRun router times "hi" refl
