-- ===== src/Providers/Chain/Breakers.antt =====
-- The breakers of a chain across a run.
use llm_service.Prelude.{
  ℕ, String, Bool, true, false, ◌⊎◌, Option, none, some, List, [], ◌∷◌, ◌++◌, ◌≡◌, refl, inl, inr,
  Bool-cases, Option-cases, arith, if◌then◌else◌,
}
use llm_service.Breaker.{CircuitBreaker, open_, on_success, on_failure}
use llm_service.Providers.Deadlines.{
  Source, End, finished, failed, with_deadlines, pull, ends, in_time,
}
use llm_service.Providers.Chain.{
  ChainEntry, Reason, Attempt, skipped, answered, broke, is_empty, settle, fit_for, try_entry,
  breakers_of, try_entries, generate_stream, breaker_is_open, report_success, report_failure,
  route_of,
}

-- the entry has a breaker, in the OPEN state
abbrev pub InOpen : Option CircuitBreaker → Type 0
InOpen none = ⊥
InOpen (some b) = b.state ≡ open_

-- entry by entry, a breaker in the OPEN state is in it afterwards
abbrev StayOpen : List (Option CircuitBreaker) → List (Option CircuitBreaker) → Type 0
StayOpen [] [] = Unit
StayOpen [] (_ ∷ _) = ⊥
StayOpen (_ ∷ _) [] = ⊥
StayOpen (b ∷ bs) (c ∷ cs) = (InOpen b → InOpen c) × StayOpen bs cs

abbrev breaker_after : Attempt → Option CircuitBreaker
breaker_after (skipped _ b) = b
breaker_after (answered _ b) = b
breaker_after (broke _ _ b) = b

report_success-InOpen : (b : Option CircuitBreaker) → InOpen b → InOpen (report_success b)
unfolding report_success on_success
report_success-InOpen none h = elim h [ ]
report_success-InOpen (some b) h = ground arith

report_failure-InOpen :
    (now : ℕ) (b : Option CircuitBreaker) → InOpen b → InOpen (report_failure now b)
unfolding report_failure on_failure
report_failure-InOpen now none h = elim h [ ]
report_failure-InOpen now (some b) h = ground arith

told-InOpen :
    (ts : List String) (b : Option CircuitBreaker)
    → InOpen b
    → InOpen (if is_empty ts then b else report_success b)
told-InOpen [] b h = h
told-InOpen (t ∷ ts) b h = report_success-InOpen b h

settle-InOpen :
    (now : ℕ) (b : Option CircuitBreaker) (ts : List String) (x : End)
    → InOpen b
    → InOpen (breaker_after (settle now b (record { tokens = ts; end = x })))
unfolding settle
settle-InOpen now b ts finished h = told-InOpen ts b h
settle-InOpen now b [] (failed e) h = report_failure-InOpen now b h
settle-InOpen now b (t ∷ ts) (failed e) h =
    report_failure-InOpen now (report_success b) (report_success-InOpen b h)

StayOpen-refl : (bs : List (Option CircuitBreaker)) → StayOpen bs bs
StayOpen-refl [] = tt
StayOpen-refl (b ∷ bs) = ((λ h. h), StayOpen-refl bs)

unfoldable pub is_tripped : Option CircuitBreaker → Bool
is_tripped none = false
is_tripped (some b) = elim b.state [ open_ ↦ true | _ ↦ false ]

-- Entry by entry: a breaker was not in the OPEN state, or is in it afterwards.
abbrev pub NoneLeaves : List (Option CircuitBreaker) → List (Option CircuitBreaker) → Type 0
NoneLeaves [] [] = Unit
NoneLeaves [] (_ ∷ _) = ⊥
NoneLeaves (_ ∷ _) [] = ⊥
NoneLeaves (b ∷ bs) (c ∷ cs) = ((is_tripped b ≡ false) ⊎ (is_tripped c ≡ true)) × NoneLeaves bs cs

StayOpen-NoneLeaves : (bs cs : List (Option CircuitBreaker)) → StayOpen bs cs → NoneLeaves bs cs
unfolding is_tripped
StayOpen-NoneLeaves [] [] h = tt
StayOpen-NoneLeaves [] (_ ∷ _) h = h
StayOpen-NoneLeaves (_ ∷ _) [] h = h
StayOpen-NoneLeaves (none ∷ bs) (c ∷ cs) (stays, h) = (inl refl, StayOpen-NoneLeaves bs cs h)
StayOpen-NoneLeaves (some b ∷ bs) (none ∷ cs) (stays, h) =
    (ground (arith, stays), StayOpen-NoneLeaves bs cs h)
StayOpen-NoneLeaves (some b ∷ bs) (some c ∷ cs) (stays, h) =
    (ground (arith, stays), StayOpen-NoneLeaves bs cs h)

module _ {P : Type 0} (fitter : Option (P → String → Option P)) (idle : Option ℕ) (prompt : P) where
  try_entry-InOpen :
      (e : ChainEntry P)
      → InOpen e.breaker
      → InOpen (breaker_after (try_entry fitter idle prompt e))
  unfolding try_entry
  try_entry-InOpen e h = elim (Bool-cases (breaker_is_open e.asked_at e.breaker)) [
    | inl cooling ↦ rw (cooling, try_entry) h
    | inr asked ↦ elim (Option-cases (fit_for fitter idle prompt e.name)) [
      | inl too_large ↦ rw (asked, too_large, try_entry) h
      | inr (p, fits) ↦
          let d = with_deadlines (e.stream p) e.first_token_timeout idle e.name in
          rw (asked, fits, try_entry) (settle-InOpen e.failed_at e.breaker d.tokens d.end h)
    ]
  ]

  try_entries-StayOpen :
      (fs : List (String × Reason)) (es : List (ChainEntry P))
      → StayOpen (breakers_of es) (try_entries fitter idle prompt fs es).breakers
  unfolding try_entries
  try_entries-StayOpen fs [] = tt
  try_entries-StayOpen fs (e ∷ es) =
      go (try_entry fitter idle prompt e) refl
        (λ r. try_entries-StayOpen (fs ++ ((e.name, r) ∷ [])) es)
    where
      go :
          (a : Attempt)
          → try_entry fitter idle prompt e ≡ a
          → ((r : Reason)
              → StayOpen
                  (breakers_of es)
                  (try_entries fitter idle prompt (fs ++ ((e.name, r) ∷ [])) es).breakers)
          → StayOpen (breakers_of (e ∷ es)) (try_entries fitter idle prompt fs (e ∷ es)).breakers
      go (skipped r b) h rest = rw (h, try_entries) (rw h at (try_entry-InOpen e), rest r)
      go (answered ts b) h rest =
          rw (h, try_entries) (rw h at (try_entry-InOpen e), StayOpen-refl (breakers_of es))
      go (broke ts x b) h rest =
          rw (h, try_entries) (rw h at (try_entry-InOpen e), StayOpen-refl (breakers_of es))

  -- A breaker of the chain that is in the OPEN state is in it after every run, whenever the run takes
  -- place and whatever the providers do: no answer, however late, closes it or makes it half-open.
  pub generate_stream-NoneLeaves :
      (es : List (ChainEntry P))
      → NoneLeaves (breakers_of es) (generate_stream fitter idle prompt es).breakers
  unfolding generate_stream
  generate_stream-NoneLeaves es =
      StayOpen-NoneLeaves (breakers_of es) _ (try_entries-StayOpen [] es)

  -- An entry whose breaker is cooling down is passed over: the run is the same whatever its stream
  -- would be.
  generate_stream-cooling :
      (e : ChainEntry P) (other : P → Source) (es : List (ChainEntry P))
      → breaker_is_open e.asked_at e.breaker ≡ true
      → generate_stream fitter idle prompt (e ∷ es)
        ≡ generate_stream fitter idle prompt (record e { stream = other } ∷ es)
  unfolding generate_stream try_entries try_entry
  generate_stream-cooling e other es cooling = ground arith

  -- A provider whose stream ends in time without a token ends the run: no later provider is tried, and the
  -- answer is empty.
  generate_stream-empty :
      (e : ChainEntry P) (p : P) (wait : ℕ) (es : List (ChainEntry P))
      → breaker_is_open e.asked_at e.breaker ≡ false
      → fit_for fitter idle prompt e.name ≡ some p
      → e.stream p ≡ ends wait
      → in_time wait e.first_token_timeout ≡ true
      → generate_stream fitter idle prompt (e ∷ es)
        ≡ record { tokens = []; end = finished; route = none; breakers = breakers_of (e ∷ es) }
  unfolding generate_stream try_entries try_entry settle with_deadlines pull route_of
  generate_stream-empty e p wait es asked fits empty fast = ground arith
