-- ===== src/Providers/Chain/Delivered.antt =====
-- What a run delivers, told by the streams of its providers alone.
use llm_service.Prelude.{
  ℕ, String, Option, none, some, List, [], ◌∷◌, ◌++◌, ◌≡◌, ◌≢◌, refl, ◌⊎◌, inl, inr, ◌∙◌, All,
  Bool-cases, Option-cases, arith, if◌then◌else◌,
}
use llm_service.Breaker.{CircuitBreaker}
use llm_service.Providers.Deadlines.{End, finished, failed, Delivery, with_deadlines}
use llm_service.Providers.Chain.{
  ChainEntry, Attempt, all_failed, settle, breaker_is_open, fit_for, try_entry, generate_stream,
}
use llm_service.Providers.Chain.OneProvider.{IsSkip, tokens_of, end_of, generate_stream-one}

-- There was no stream, or it failed before its first token.
abbrev pub IsSilent : Option Delivery → Type 0
IsSilent none = Unit
IsSilent (some d) = (d.tokens ≡ []) × (d.end ≢ finished)

-- How an attempt and the stream of its entry, if it had one, go together.
abbrev Matches : Attempt → Option Delivery → Type 0
Matches a none = IsSkip a
Matches a (some d) =
    (IsSkip a × (d.tokens ≡ []) × (d.end ≢ finished))
    ⊎ (¬ IsSkip a) × (tokens_of a ≡ d.tokens) × (end_of a ≡ d.end)

settle-Matches :
    (now : ℕ) (b : Option CircuitBreaker) (ts : List String) (x : End)
    → Matches
        (settle now b (record { tokens = ts; end = x }))
        (some (record { tokens = ts; end = x }))
unfolding settle
settle-Matches now b ts finished = inr ((λ h. h), refl, refl)
settle-Matches now b [] (failed e) = inl (tt, refl, λ h. ground (arith, h))
settle-Matches now b (t ∷ ts) (failed e) = inr ((λ h. h), refl, refl)

module _ {P : Type 0} (fitter : Option (P → String → Option P)) (idle : Option ℕ) (prompt : P) where
  -- The stream of an entry that is asked, under its deadlines; `none` if its breaker is cooling down
  -- or the prompt does not fit.
  abbrev pub delivery : ChainEntry P → Option Delivery
  delivery e =
      if breaker_is_open e.asked_at e.breaker
      then none
      else elim (fit_for fitter idle prompt e.name) [
        | none ↦ none
        | some p ↦ some (with_deadlines (e.stream p) e.first_token_timeout idle e.name)
      ]

  try_entry-Matches : (e : ChainEntry P) → Matches (try_entry fitter idle prompt e) (delivery e)
  unfolding try_entry
  try_entry-Matches e = elim (Bool-cases (breaker_is_open e.asked_at e.breaker)) [
    | inl cooling ↦ rw (try_entry, cooling) tt
    | inr asked ↦ elim (Option-cases (fit_for fitter idle prompt e.name)) [
      | inl too_large ↦ rw (try_entry, asked, too_large) tt
      | inr (p, fits) ↦
          let d = with_deadlines (e.stream p) e.first_token_timeout idle e.name in
          rw (try_entry, asked, fits) (settle-Matches e.failed_at e.breaker d.tokens d.end)
    ]
  ]

  skip-IsSilent : (a : Attempt) (d : Option Delivery) → Matches a d → IsSkip a → IsSilent d
  skip-IsSilent a none m s = tt
  skip-IsSilent a (some d) (inl (_, empty, broken)) s = (empty, broken)
  skip-IsSilent a (some d) (inr (served, _, _)) s = elim (served s) [ ]

  skips-IsSilent :
      (es : List (ChainEntry P))
      → All (λ (e : ChainEntry P). IsSkip (try_entry fitter idle prompt e)) es
      → All (λ (e : ChainEntry P). IsSilent (delivery e)) es
  skips-IsSilent [] h = tt
  skips-IsSilent (e ∷ es) (s, h) = (
    skip-IsSilent (try_entry fitter idle prompt e) (delivery e) (try_entry-Matches e) s,
    skips-IsSilent es h,
  )

  served-delivery :
      (a : Attempt) (o : Option Delivery)
      → Matches a o
      → (¬ IsSkip a)
      → (d : Delivery) × (o ≡ some d) × (tokens_of a ≡ d.tokens) × (end_of a ≡ d.end)
  served-delivery a none m served = elim (served m) [ ]
  served-delivery a (some d) (inl (s, _, _)) served = elim (served s) [ ]
  served-delivery a (some d) (inr (_, same, ended)) served = (d, refl, same, ended)

  -- An answer is never spliced from two providers. Either no entry of the chain had a stream with a
  -- token or with a normal end, and the run yields nothing and fails with AllProvidersFailedError; or
  -- the run yields exactly the tokens of one entry's stream and ends as that stream did, and each
  -- entry before it had no stream or one that failed before its first token.
  pub generate_stream-delivery :
      (es : List (ChainEntry P))
      → let run = generate_stream fitter idle prompt es in
        (All (λ (e : ChainEntry P). IsSilent (delivery e)) es
          × (run.tokens ≡ [])
          × (run.end ≡ failed all_failed))
        ⊎ (before : List (ChainEntry P)) × (entry : ChainEntry P) × (after : List (ChainEntry P))
          × (d : Delivery) × (es ≡ before ++ (entry ∷ after))
          × All (λ (e : ChainEntry P). IsSilent (delivery e)) before
          × (delivery entry ≡ some d)
          × (run.tokens ≡ d.tokens)
          × (run.end ≡ d.end)
  generate_stream-delivery es = elim (generate_stream-one fitter idle prompt es) [
    | inl f ↦ inl (skips-IsSilent es f.passed, f.tokens, f.end)
    | inr (before, entry, after, s) ↦
        let (d, is, same, ended) =
          served-delivery (try_entry fitter idle prompt entry) (delivery entry)
            (try_entry-Matches entry) s.served in
        inr (
          before,
          entry,
          after,
          d,
          s.split,
          skips-IsSilent before s.passed,
          is,
          s.tokens ∙ same,
          s.end ∙ ended,
        )
  ]
