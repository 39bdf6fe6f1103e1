-- ===== src/Providers/Chain/OneProvider.antt =====
-- An answer is never spliced from two providers.
use mathlib.Core.Logic.{◌⊎◌}
use llm_service.Prelude.{
  ℕ, String, Bool, true, false, Option, none, some, List, [], ◌∷◌, ◌++◌, map, ◌≡◌, refl, ◌⊎◌, inl,
  inr, All, ◌||◌, arith,
}
use llm_service.Breaker.{CircuitBreaker}
use llm_service.Providers.Deadlines.{End, finished, failed}
use llm_service.Providers.Chain.{
  ChainEntry, Reason, Route, Attempt, skipped, answered, broke, try_entry, ChainRun, all_failed,
  breakers_of, try_entries, generate_stream, route_of, has_failures,
}

abbrev pub IsSkip : Attempt → Type 0
IsSkip (skipped _ _) = Unit
IsSkip (answered _ _) = ⊥
IsSkip (broke _ _ _) = ⊥

-- the tokens of an attempt, how it ended, and its breaker
abbrev pub tokens_of : Attempt → List String
tokens_of (skipped _ _) = []
tokens_of (answered ts _) = ts
tokens_of (broke ts _ _) = ts

abbrev pub end_of : Attempt → End
end_of (skipped _ _) = failed all_failed
end_of (answered _ _) = finished
end_of (broke _ e _) = failed e

abbrev breaker_of : Attempt → Option CircuitBreaker
breaker_of (skipped _ b) = b
breaker_of (answered _ b) = b
breaker_of (broke _ _ b) = b

abbrev is_nonempty : {A : Type 0} → List A → Bool
is_nonempty [] = false
is_nonempty (_ ∷ _) = true

module _ {P : Type 0} (fitter : Option (P → String → Option P)) (idle : Option ℕ) (prompt : P) where
  abbrev attempt : ChainEntry P → Attempt
  attempt = try_entry fitter idle prompt

  abbrev after_all : List (ChainEntry P) → List (Option CircuitBreaker)
  after_all = map (λ (e : ChainEntry P). breaker_of (attempt e))

  -- The run is that of one entry: the entries before it gave no token, and those after it were not
  -- tried. A route, if one is set, names the entry, and a fallback exactly if some provider failed.
  pub record ServedBy (failures : List (String × Reason)) (entries : List (ChainEntry P))
      (run : ChainRun) (before : List (ChainEntry P)) (entry : ChainEntry P)
      (after : List (ChainEntry P)) : Type 0 where
    pub split : entries ≡ before ++ (entry ∷ after)
    pub passed : All (λ (e : ChainEntry P). IsSkip (attempt e)) before
    pub served : ¬ IsSkip (attempt entry)
    pub tokens : run.tokens ≡ tokens_of (attempt entry)
    pub end : run.end ≡ end_of (attempt entry)
    pub routed :
        (run.route ≡ none)
        ⊎ (r : Route) × (run.route ≡ some r)
          × (r.provider ≡ entry.name)
          × (r.fallback_used ≡ (has_failures failures || is_nonempty before))
    pub breakers :
        run.breakers ≡ after_all before ++ (breaker_of (attempt entry) ∷ breakers_of after)

  -- No entry gave a token.
  pub record IsFailed (entries : List (ChainEntry P)) (run : ChainRun) : Type 0 where
    pub passed : All (λ (e : ChainEntry P). IsSkip (attempt e)) entries
    pub tokens : run.tokens ≡ []
    pub end : run.end ≡ failed all_failed
    pub route : run.route ≡ none
    pub breakers : run.breakers ≡ after_all entries

  abbrev pub Result : List (String × Reason) → List (ChainEntry P) → ChainRun → Type 0
  Result failures entries run =
      IsFailed entries run
      ⊎ ((before : List (ChainEntry P)) × (entry : ChainEntry P) × (after : List (ChainEntry P))
          × ServedBy failures entries run before entry after)

  has_failures-append :
      (fs : List (String × Reason)) (f : String × Reason) → has_failures (fs ++ (f ∷ [])) ≡ true
  has_failures-append [] f = refl
  has_failures-append (x ∷ fs) f = refl

  -- An entry that gave no token is added to those before the one that serves.
  skip_first :
      (fs : List (String × Reason)) (e : ChainEntry P) (es : List (ChainEntry P)) (r : Reason)
      (b : Option CircuitBreaker) (run : ChainRun)
      → attempt e ≡ skipped r b
      → Result (fs ++ ((e.name, r) ∷ [])) es run
      → Result fs (e ∷ es) (record run { breakers = b ∷ run.breakers })
  skip_first fs e es r b run h (inl f) = inl (record {
    passed = (rw h tt, f.passed);
    tokens = f.tokens;
    end = f.end;
    route = f.route;
    breakers = rw (h, f.breakers);
  })
  skip_first fs e es r b run h (inr (before, entry, after, s)) = inr (
    e ∷ before,
    entry,
    after,
    record {
      split = rw s.split;
      passed = (rw h tt, s.passed);
      served = s.served;
      tokens = s.tokens;
      end = s.end;
      routed = elim s.routed [
        | inl unset ↦ inl unset
        | inr (route, set, named, used) ↦
            inr (route, set, named, ground (arith, used, has_failures-append fs (e.name, r)))
      ];
      breakers = rw (h, s.breakers);
    },
  )

  routed :
      (fs : List (String × Reason)) (name : String) (ts : List String)
      → (route_of name fs ts ≡ none)
        ⊎ (r : Route) × (route_of name fs ts ≡ some r)
          × (r.provider ≡ name)
          × (r.fallback_used ≡ (has_failures fs || false))
  unfolding route_of
  routed fs name [] = inl refl
  routed fs name (t ∷ ts) = inr (_, refl, refl, ground arith)

  serve_first :
      (fs : List (String × Reason)) (e : ChainEntry P) (es : List (ChainEntry P)) (a : Attempt)
      → attempt e ≡ a
      → (IsSkip a → ⊥)
      → ServedBy fs
          (e ∷ es)
          (record {
            tokens = tokens_of a;
            end = end_of a;
            route = route_of e.name fs (tokens_of a);
            breakers = breaker_of a ∷ breakers_of es;
          })
          []
          e
          es
  unfolding route_of
  serve_first fs e es a h n = record {
    split = refl;
    passed = tt;
    served = rw h n;
    tokens = rw h;
    end = rw h;
    routed = routed fs e.name (tokens_of a);
    breakers = rw h;
  }

  try_entries-one :
      (fs : List (String × Reason)) (entries : List (ChainEntry P))
      → Result fs entries (try_entries fitter idle prompt fs entries)
  unfolding try_entries
  try_entries-one fs [] =
      inl (record { passed = tt; tokens = refl; end = refl; route = refl; breakers = refl })
  try_entries-one fs (e ∷ es) =
      go (attempt e) refl (λ r. try_entries-one (fs ++ ((e.name, r) ∷ [])) es)
    where
      run_from : List (String × Reason) → List (ChainEntry P) → ChainRun
      run_from = try_entries fitter idle prompt

      go :
          (a : Attempt)
          → attempt e ≡ a
          → ((r : Reason)
              → Result (fs ++ ((e.name, r) ∷ [])) es (run_from (fs ++ ((e.name, r) ∷ [])) es))
          → Result fs (e ∷ es) (run_from fs (e ∷ es))
      go (skipped r b) h rest = rw (h, try_entries) (skip_first fs e es r b _ h (rest r))
      go (answered ts b) h rest =
          rw (h, try_entries) (inr ([], e, es, serve_first fs e es (answered ts b) h (λ n. n)))
      go (broke ts x b) h rest =
          rw (h, try_entries) (inr ([], e, es, serve_first fs e es (broke ts x b) h (λ n. n)))

  -- Either every attempt was passed over, and the run fails with AllProvidersFailedError, no tokens
  -- and no route; or the run is that of the first attempt that was not passed over: it has that
  -- attempt's tokens and end, the entries after it are not tried and their breakers stay as they are,
  -- and a route, if one was set, names its entry and reports a fallback exactly if an entry stood
  -- before it.
  pub generate_stream-one :
      (entries : List (ChainEntry P))
      → Result [] entries (generate_stream fitter idle prompt entries)
  unfolding generate_stream
  generate_stream-one = try_entries-one []
