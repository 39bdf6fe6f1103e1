-- ===== src/Retry/Attempts.antt =====
-- Which attempts a run makes, and how it ends.
use llm_service.Prelude.{
  ℕ, zero, suc, ◌+◌, ◌≤◌, ◌<◌, ◌≡◌, refl, ◌⊎◌, inl, inr, Bool, true, false, not, ◌||◌, some, [],
  ◌∷◌, length, arith, Bool-cases, leb, ◌==◌, ◌≢◌,
}
use native.Mathlib.Decide.{dec_le}
use llm_service.Errors.{Exc}
use llm_service.Retry.{
  RetryPolicy, Outcome, returns, raises, Run, delay, is_retriable, retry_loop, execute_with_retry,
}

Outcome-cases {ℓ} :
    {A : Type ℓ} (o : Outcome A) → ((a : A) × (o ≡ returns a)) ⊎ ((e : Exc) × (o ≡ raises e))
Outcome-cases (returns a) = inl (a, refl)
Outcome-cases (raises e) = inr (e, refl)

-- What a run from call number `k` on promises: it stops within the budget, every call before the
-- last one failed with a retriable error, it slept once between two calls, and its outcome is that of
-- its last call, which is a value, or an error that is not retriable or met the end of the budget.
record IsFair (A : Type 0) (p : RetryPolicy) (func : ℕ → Outcome A) (k : ℕ) (r : Run A)
    : Type 0 where
  pub later : k < r.attempts
  pub within : (r.attempts ≤ p.max_attempts) ⊎ (r.attempts ≡ suc k)
  pub retried :
      (i : ℕ)
      → k ≤ i
      → suc i < r.attempts
      → (e : Exc) × (func i ≡ raises e) × (is_retriable e (some p) ≡ true)
  pub sleeps : k + suc (length r.slept) ≡ r.attempts
  pub last : (i : ℕ) → suc i ≡ r.attempts → func i ≡ r.outcome
  pub stops :
      (e : Exc)
      → r.outcome ≡ raises e
      → (p.max_attempts ≤ r.attempts) ⊎ (is_retriable e (some p) ≡ false)

module _ {A : Type 0} (p : RetryPolicy) (func : ℕ → Outcome A) (draw : ℕ → ℕ) where
  abbrev gives_up : ℕ → Exc → Bool
  gives_up k e = leb p.max_attempts (suc k) || not (is_retriable e (some p))

  -- A run that ends with call number `k`.
  ends :
      (k : ℕ) (o : Outcome A)
      → func k ≡ o
      → ((e : Exc) → o ≡ raises e → gives_up k e ≡ true)
      → IsFair A p func k (record { outcome = o; attempts = suc k; slept = [] })
  ends k o h why = record {
    later = omega arith;
    within = inr refl;
    retried = λ i below above. absurd (omega arith);
    sleeps = omega arith;
    last = λ i e. let same : i ≡ k = omega arith in ground arith;
    stops = λ e raised. ground (arith, why e raised);
  }

  -- A run that goes on after call number `k`.
  goes_on :
      (k : ℕ) (e : Exc) (d : ℕ) (r : Run A)
      → func k ≡ raises e
      → gives_up k e ≡ false
      → IsFair A p func (suc k) r
      → IsFair A p func k (record r { slept = d ∷ r.slept })
  goes_on k e d r h more f = record {
    later = omega (arith, f.later);
    within = ground arith;
    retried = λ i below above. elim (dec_le (suc k) i) [
      | yes q ↦ f.retried i q above
      | no q ↦ let same : i ≡ k = omega arith in (e, rw same h, ground arith)
    ];
    sleeps = omega (arith, f.sleeps);
    last = f.last;
    stops = f.stops;
  }

  abbrev Fair : ℕ → ℕ → Type 0
  Fair fuel k = (r : Run A) × (retry_loop p func draw fuel k ≡ some r) × IsFair A p func k r

  stop_returns : (fuel k : ℕ) (a : A) → func k ≡ returns a → Fair (suc fuel) k
  unfolding retry_loop
  stop_returns fuel k a h = (
    record { outcome = returns a; attempts = suc k; slept = [] },
    rw (h, retry_loop),
    ends k (returns a) h (λ e bad. cc),
  )

  stop_raises : (fuel k : ℕ) (e : Exc) → func k ≡ raises e → gives_up k e ≡ true → Fair (suc fuel) k
  unfolding retry_loop
  stop_raises fuel k e h stop = (
    record { outcome = raises e; attempts = suc k; slept = [] },
    rw (h, stop, retry_loop),
    ends k (raises e) h (λ e' same. ground arith),
  )

  retry_again :
      (fuel k : ℕ) (e : Exc)
      → func k ≡ raises e
      → gives_up k e ≡ false
      → Fair fuel (suc k)
      → Fair (suc fuel) k
  unfolding retry_loop
  retry_again fuel k e h more (r, done, fair) = (
    record r { slept = delay p k (draw k) ∷ r.slept },
    ground arith,
    goes_on k e (delay p k (draw k)) r h more fair,
  )

  Fair-step : (fuel k : ℕ) → (suc k < p.max_attempts → Fair fuel (suc k)) → Fair (suc fuel) k
  Fair-step fuel k rest = elim (Outcome-cases (func k)) [
    | inl (a, h) ↦ stop_returns fuel k a h
    | inr (e, h) ↦ elim (Bool-cases (gives_up k e)) [
      | inl stop ↦ stop_raises fuel k e h stop
      | inr more ↦ retry_again fuel k e h more (rest (ground arith))
    ]
  ]

  Fair-from : (fuel k : ℕ) → p.max_attempts ≤ k + suc fuel → Fair (suc fuel) k
  Fair-from zero k enough = Fair-step zero k (λ h. absurd (omega arith))
  Fair-from (suc fuel) k enough = Fair-step (suc fuel) k (λ h. Fair-from fuel (suc k) (omega arith))

  run-IsFair : (r : Run A) × (execute_with_retry p func draw ≡ some r) × IsFair A p func 0 r
  unfolding execute_with_retry
  run-IsFair = Fair-from p.max_attempts 0 (omega arith)

  -- A run always comes to an end within its rounds. It calls the function once at least and at most
  -- `max_attempts` times (once, if that is 0), with one delay between two calls. Call number `i`, if
  -- it is not the last, failed with an error that the policy retries; if it is the last, its outcome
  -- is that of the run: a value, or an error that is not retried or came at the end of the budget.
  pub execute_with_retry-fair :
      (i : ℕ)
      → (r : Run A) × (execute_with_retry p func draw ≡ some r)
        × (0 < r.attempts)
        × ((r.attempts ≤ p.max_attempts) ⊎ (r.attempts ≡ 1))
        × (suc (length r.slept) ≡ r.attempts)
        × ((r.attempts ≤ suc i)
            ⊎ (e : Exc) × (func i ≡ raises e) × (is_retriable e (some p) ≡ true))
        × ((suc i ≢ r.attempts) ⊎ (func i ≡ r.outcome))
        × (((a : A) × (r.outcome ≡ returns a))
            ⊎ (e : Exc) × (r.outcome ≡ raises e)
              × ((p.max_attempts ≤ r.attempts) ⊎ (is_retriable e (some p) ≡ false)))
  execute_with_retry-fair i =
      let (r, done, fair) = run-IsFair in
      (
        r,
        done,
        fair.later,
        fair.within,
        omega (arith, fair.sleeps),
        elim (Bool-cases (leb r.attempts (suc i))) [
          | inl h ↦ inl (ground (arith, h))
          | inr h ↦ inr (fair.retried i (omega arith) (ground (arith, h)))
        ],
        elim (Bool-cases (suc i == r.attempts)) [
          | inl h ↦ inr (fair.last i (ground (arith, h)))
          | inr h ↦ inl (λ e. ground (arith, h, e))
        ],
        elim (Outcome-cases r.outcome) [ inl h ↦ inl h | inr (e, h) ↦ inr (e, h, fair.stops e h) ],
      )
