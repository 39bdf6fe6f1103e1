-- ===== src/Providers/Router/Agrees.antt =====
-- The router and the chain of the same two providers.
use llm_service.Prelude.{true, none, [], ◌∷◌, ◌≡◌, ◌↔◌, arith}
use llm_service.Providers.Deadlines.{finished}
use llm_service.Providers.Chain
use llm_service.Providers.Chain.{
  ChainEntry, ChainRun, settle, try_entry, try_entries, is_empty, breaker_is_open, report_success,
  report_failure, fit_for,
}
use llm_service.Providers.Router.{
  Router, Times, RouterRun, generate_stream, stream_fallback, fall_back, after_primary,
  fallback_end,
}

module _ {P : Type 0} (r : Router P) (t : Times) (prompt : P) where
  abbrev pub primary_entry : ChainEntry P
  primary_entry = record {
    name = "primary";
    stream = r.primary;
    breaker = r.primary_breaker;
    first_token_timeout = r.first_token_timeout;
    asked_at = t.asked_at;
    failed_at = t.failed_at;
  }

  abbrev pub fallback_entry : ChainEntry P
  fallback_entry = record {
    name = r.fallback_name;
    stream = r.fallback;
    breaker = r.fallback_breaker;
    first_token_timeout = r.fallback_first_token_timeout;
    asked_at = t.fallback_asked_at;
    failed_at = t.fallback_failed_at;
  }

  abbrev pub chain_run : ChainRun
  chain_run = Chain.generate_stream none r.idle_timeout prompt (primary_entry ∷ fallback_entry ∷ [])

  pub record SameRun (a : RouterRun) (b : ChainRun) : Type 0 where
    pub tokens : a.tokens ≡ b.tokens
    pub ends : (a.end ≡ finished) ↔ (b.end ≡ finished)
    pub breakers : a.primary_breaker ∷ a.fallback_breaker ∷ [] ≡ b.breakers

  -- With its fallback enabled the router yields the tokens that a chain of the same two providers
  -- yields, succeeds exactly if the chain does, and leaves both breakers as the chain leaves them.
  pub generate_stream-SameRun :
      r.fallback_enabled ≡ true → SameRun (generate_stream r t prompt) chain_run
  unfolding generate_stream stream_fallback fall_back after_primary fallback_end
      Chain.generate_stream try_entries try_entry settle fit_for
  generate_stream-SameRun on = ground arith
