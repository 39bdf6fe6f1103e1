-- ===== src/Visualization/Runner/Outcomes.antt =====
-- A run of a job ends.
use llm_service.Prelude.{
  ℕ, zero, suc, ◌+◌, ◌≤◌, ◌<◌, String, Bool, true, false, ◌&&◌, Option, none, some, ◌≡◌, refl, ◌∙◌,
  leb, arith, Bool-cases, inl, inr,
}
use llm_service.Visualization.Policy.{
  FailureCategory, AttemptTracker, begin_attempt, record_failure, NextStep, next_step,
}
use llm_service.Visualization.Policy
use llm_service.Visualization.Jobs.{is_active, JobRecord, MemoryJobStore, get, claim}
use llm_service.Visualization.Runner.{
  Validation, validated, spec_error, value_error, Worker, Next, returns, continues, breaks, escapes,
  Rendered, rendered, render_raised, Repaired, repaired, repair_raised, Result, after_render,
  after_repair_call, go_on, after_failure, after_save, after_validation, try_repair_again,
  after_repair, after_begin, proceed, is_cancelled, render_failed, finish_render,
  validate_and_render, repair_spec, run_attempt, fail, loop, start, run_job, some_text,
}

module _ (w : Worker) (now : ℕ) (job_id : String) where
  -- An attempt that goes on leaves the count of attempts to `begin_attempt`.
  abbrev Keeps : AttemptTracker → Next w now job_id → Type 0
  Keeps tracker (returns _) = Unit
  Keeps tracker (breaks _ _) = Unit
  Keeps tracker (escapes _) = Unit
  Keeps tracker (continues t _ _ _) =
      (t.used ≡ tracker.used) × (t.max_attempts ≡ tracker.max_attempts)

  go_on-Keeps :
      (step : NextStep) (tracker : AttemptTracker) (spec : String) (last : FailureCategory)
      (store : MemoryJobStore)
      → Keeps tracker (go_on w now job_id step (record_failure last tracker) spec last store).0
  unfolding go_on record_failure
  go_on-Keeps Policy.give_up tracker spec last store = tt
  go_on-Keeps Policy.repair tracker spec last store = (refl, refl)
  go_on-Keeps Policy.retry tracker spec last store = (refl, refl)

  render_failed-Keeps :
      (last : FailureCategory) (tracker : AttemptTracker) (spec : String) (store : MemoryJobStore)
      → Keeps tracker (render_failed w now job_id last tracker spec store).0
  unfolding render_failed after_failure
  render_failed-Keeps last tracker spec store = elim (Bool-cases (is_cancelled w now job_id last)) [
    | inl e ↦ rw e tt
    | inr e ↦ rw e (go_on-Keeps _ tracker spec last store)
  ]

  after_save-Keeps :
      (key : Option String) (tracker : AttemptTracker) (spec : String) (store : MemoryJobStore)
      → Keeps tracker (after_save w now job_id key tracker spec store).0
  unfolding after_save
  after_save-Keeps none tracker spec store =
      render_failed-Keeps Policy.storage_failure tracker spec store
  after_save-Keeps (some key) tracker spec store = tt

  after_render-Keeps :
      (r : Rendered) (attempt : ℕ) (tracker : AttemptTracker) (spec : String)
      (store : MemoryJobStore)
      → Keeps tracker (after_render w now job_id r attempt tracker spec store).0
  unfolding after_render finish_render
  after_render-Keeps (render_raised e) attempt tracker spec store = tt
  after_render-Keeps (rendered r) attempt tracker spec store = elim (Bool-cases (r.ok && r.path)) [
    | inl e ↦ rw e (after_save-Keeps (w.save attempt) tracker spec _)
    | inr e ↦ rw e (render_failed-Keeps _ tracker spec _)
  ]

  after_validation-Keeps :
      (v : Validation) (attempt : ℕ) (tracker : AttemptTracker) (spec : String)
      (store : MemoryJobStore)
      → Keeps tracker (after_validation w now job_id v attempt tracker spec store).0
  unfolding after_validation after_failure
  after_validation-Keeps (spec_error u) attempt tracker spec store =
      go_on-Keeps _ tracker spec _ store
  after_validation-Keeps value_error attempt tracker spec store = go_on-Keeps _ tracker spec _ store
  after_validation-Keeps validated attempt tracker spec store =
      after_render-Keeps (w.render spec attempt) attempt tracker spec _

  try_repair_again-Keeps :
      (step : NextStep) (tracker : AttemptTracker) (spec : String) (last : FailureCategory)
      (store : MemoryJobStore)
      → Keeps tracker
          (try_repair_again w now job_id step (record_failure last tracker) spec last store).0
  unfolding try_repair_again record_failure
  try_repair_again-Keeps Policy.give_up tracker spec last store = tt
  try_repair_again-Keeps Policy.repair tracker spec last store = (refl, refl)
  try_repair_again-Keeps Policy.retry tracker spec last store = (refl, refl)

  after_repair-Keeps :
      (fixed : Option String) (attempt : ℕ) (tracker : AttemptTracker) (spec : String)
      (store : MemoryJobStore)
      → Keeps tracker (after_repair w now job_id fixed attempt tracker spec store).0
  unfolding after_repair validate_and_render
  after_repair-Keeps none attempt tracker spec store = try_repair_again-Keeps _ tracker spec _ store
  after_repair-Keeps (some fixed) attempt tracker spec store =
      after_validation-Keeps (w.validate_spec fixed) attempt tracker fixed _

  after_repair_call-Keeps :
      (r : Repaired) (attempt : ℕ) (tracker : AttemptTracker) (spec : String)
      (store : MemoryJobStore)
      → Keeps tracker (after_repair_call w now job_id r attempt tracker spec store).0
  unfolding after_repair_call
  after_repair_call-Keeps (repaired fixed) attempt tracker spec store =
      after_repair-Keeps (some_text fixed) attempt tracker spec store
  after_repair_call-Keeps (repair_raised e) attempt tracker spec store = tt

  after_begin-Keeps :
      (rec : Option JobRecord) (again : Bool) (attempt : ℕ) (tracker : AttemptTracker)
      (spec : String) (last : FailureCategory) (store : MemoryJobStore)
      → Keeps tracker (after_begin w now job_id rec again attempt tracker spec last store).0
  unfolding after_begin repair_spec validate_and_render
  after_begin-Keeps none again attempt tracker spec last store = tt
  after_begin-Keeps (some _) false attempt tracker spec last store =
      after_validation-Keeps (w.validate_spec spec) attempt tracker spec store
  after_begin-Keeps (some _) true attempt tracker spec last store =
      elim (Bool-cases (w.has_repair && w.repair_enabled)) [
        | inl e ↦ rw e (after_repair_call-Keeps (w.repair spec last attempt) attempt tracker spec _)
        | inr e ↦ rw e (after_repair-Keeps none attempt tracker spec _)
      ]

  module _ (fuel : ℕ) (tracker : AttemptTracker) (spec : String) (last : FailureCategory)
      (again : Bool) (store : MemoryJobStore) where
    abbrev begun : AttemptTracker
    begun = record tracker { used = tracker.used + 1 }

    pub loop-spent :
        leb tracker.max_attempts tracker.used ≡ true
        → loop w now job_id (suc fuel) tracker spec last again store
          ≡ some (fail w now job_id tracker last store)
    unfolding loop begin_attempt
    loop-spent spent = rw (loop, begin_attempt, spent) refl

    pub loop-left :
        leb tracker.max_attempts tracker.used ≡ false
        → loop w now job_id (suc fuel) tracker spec last again store
          ≡ proceed w now job_id
              (loop w now job_id fuel)
              (run_attempt w now job_id (tracker.used + 1) begun spec last again store)
    unfolding loop begin_attempt
    loop-left left = rw (loop, begin_attempt, left) refl

  proceed-returns :
      (tracker : AttemptTracker)
      {rest : AttemptTracker
        → String
        → FailureCategory
        → Bool
        → MemoryJobStore
        → Option (Result × MemoryJobStore)}
      → ((t : AttemptTracker) (spec : String) (last : FailureCategory) (again : Bool)
            (store : MemoryJobStore)
          → (t.used ≡ tracker.used) × (t.max_attempts ≡ tracker.max_attempts)
          → (out : Result × MemoryJobStore) × (rest t spec last again store ≡ some out))
      → (n : Next w now job_id × MemoryJobStore) → Keeps tracker n.0
      → (out : Result × MemoryJobStore) × (proceed w now job_id rest n ≡ some out)
  unfolding proceed
  proceed-returns tracker ends (returns rec, after) h = (_, refl)
  proceed-returns tracker ends (escapes e, after) h = (_, refl)
  proceed-returns tracker ends (breaks t cause, after) h = (_, refl)
  proceed-returns tracker ends (continues t spec cause need, after) h =
      ends t spec cause need after h

  loop-returns :
      (fuel : ℕ) (tracker : AttemptTracker) (spec : String) (last : FailureCategory) (again : Bool)
      (store : MemoryJobStore)
      → tracker.used ≤ tracker.max_attempts
      → tracker.max_attempts < tracker.used + fuel
      → (out : Result × MemoryJobStore) × (loop w now job_id fuel tracker spec last again store
          ≡ some out)
  unfolding run_attempt
  loop-returns zero tracker spec last again store le enough = elim (the_lie enough) [ ]
    where
      the_lie : tracker.max_attempts < tracker.used + 0 → ⊥
      the_lie h = omega (arith, le, h)
  loop-returns (suc fuel) tracker spec last again store le enough =
      elim (Bool-cases (leb tracker.max_attempts tracker.used)) [
        | inl spent ↦ (_, loop-spent fuel tracker spec last again store spent)
        | inr left ↦
            let (out, is) =
              proceed-returns (begun fuel tracker spec last again store)
                (λ t spec' cause need after (used, max).
                  loop-returns fuel t spec' cause need after (ground (arith, le, left, used, max))
                    (ground (arith, enough, used, max)))
                (run_attempt w now job_id (tracker.used + 1)
                  (begun fuel tracker spec last again store) spec last again store)
                (after_begin-Keeps _ again (tracker.used + 1) _ spec last _) in
            (out, loop-left fuel tracker spec last again store left ∙ is)
      ]

  start-returns :
      (rec : Option JobRecord) (store : MemoryJobStore)
      → (out : Result × MemoryJobStore) × (start w now job_id rec store ≡ some out)
  unfolding start
  start-returns none store = (_, refl)
  start-returns (some rec) store = elim (Bool-cases (is_active rec.state)) [
    | inr done ↦ rw done (_, refl)
    | inl active ↦ rw active (
        loop-returns (suc rec.max_attempts) _ rec.spec Policy.render_error false store (omega arith)
          (omega arith))
  ]

  -- A run of a job always ends: with fuel for one round more than the job has attempts, whatever the
  -- renderer, the repairs, the media store and the other parties do, it returns a job or none, or an
  -- exception leaves it.
  pub run_job-returns :
      (store : MemoryJobStore)
      → (out : Result × MemoryJobStore) × (run_job w now job_id store ≡ some out)
  unfolding run_job
  run_job-returns store = elim (Bool-cases (claim job_id store).0) [
    | inr taken ↦ rw taken (_, refl)
    | inl own ↦ rw own (start-returns (get job_id (claim job_id store).1) (claim job_id store).1)
  ]
