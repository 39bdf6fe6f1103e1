-- ===== src/Visualization/Runner/Stuck.antt =====
-- A run that leaves its job unfinished.
use llm_service.Prelude.{
  ℕ, zero, suc, ◌+◌, ◌≤◌, ◌<◌, String, Bool, true, false, none, some, [], ◌≡◌, refl, ap, ◌∙◌, leb,
  contains, arith,
}
use llm_service.Visualization.Policy.{
  FailureCategory, AttemptTracker, record_failure, next_step, is_permanent, is_repairable,
}
use llm_service.Visualization.Policy
use llm_service.Visualization.Jobs.{
  JobState, is_terminal, can_transition, JobRecord, MemoryJobStore, get, update, claim,
}
use llm_service.Visualization.Jobs
use llm_service.Visualization.Jobs.States.{update-does, update-refused}
use llm_service.Visualization.Runner.{
  spec_error, gave, before, Worker, returns, continues, go_on, after_failure, after_validation,
  after_begin, proceed, attempt_fields, validate_and_render, run_attempt, loop, run_job,
}
use llm_service.Visualization.Runner.Outcomes.{loop-left}
use llm_service.Visualization.Runner.Steps.{IsAlone, At, outside-alone, claim-get, run_job-starts}

module _ (w : Worker) (now : ℕ) (job_id : String) (alone : IsAlone w) where
  -- A job that is being validated cannot begin another attempt.
  run_attempt-stuck :
      (attempt : ℕ) (t : AttemptTracker) (spec : String) (last : FailureCategory) (again : Bool)
      (store : MemoryJobStore)
      → At w now job_id Jobs.validating store
      → run_attempt w now job_id attempt t spec last again store
        ≡ (returns (get job_id store), store)
  unfolding run_attempt after_begin get can_transition is_terminal
  run_attempt-stuck attempt t spec last again store (rec, found, is) =
      rw
        (
          outside-alone w now job_id (w.meanwhile attempt before) store (alone attempt before),
          refused,
        )
        refl
    where
      refused :
          update now job_id Jobs.validating (attempt_fields w now job_id attempt) store
          ≡ (none, store)
      refused =
          update-refused now job_id Jobs.validating _ store rec found
            (ap (λ s. can_transition s Jobs.validating) is) refl

  -- An attempt whose specification is invalid leaves the job where its validation began.
  run_attempt-invalid :
      (attempt : ℕ) (t : AttemptTracker) (spec : String) (last : FailureCategory)
      (store : MemoryJobStore)
      → At w now job_id Jobs.pending store
      → w.validate_spec spec ≡ spec_error false
      → t.used < t.max_attempts
      → (after : MemoryJobStore) × (run_attempt w now job_id attempt t spec last false store
          ≡ (continues (record_failure Policy.invalid_spec t) spec Policy.invalid_spec true, after))
        × At w now job_id Jobs.validating after
  unfolding run_attempt after_begin validate_and_render after_validation after_failure go_on
      next_step record_failure is_permanent is_repairable get can_transition
  run_attempt-invalid attempt t spec last store (rec, found, is) bad left =
      let (done, after) =
        update-does now job_id Jobs.validating (attempt_fields w now job_id attempt) store rec found
          (ap (λ s. can_transition s Jobs.validating) is) in
      (
        (update now job_id Jobs.validating (attempt_fields w now job_id attempt) store).1,
        rw
            (
              outside-alone w now job_id (w.meanwhile attempt before) store (alone attempt before),
              done,
              bad,
              open_,
            )
            refl,
        (_, after, refl),
      )
    where
      open_ : leb t.max_attempts t.used ≡ false
      open_ = ground (arith, left)

  two_rounds :
      (fuel : ℕ) (t : AttemptTracker) (spec : String) (last : FailureCategory)
      (store : MemoryJobStore)
      → At w now job_id Jobs.pending store
      → w.validate_spec spec ≡ spec_error false
      → t.used + 2 ≤ t.max_attempts
      → (after : MemoryJobStore) × (loop w now job_id (suc (suc fuel)) t spec last false store
          ≡ some (gave (get job_id after), after))
        × At w now job_id Jobs.validating after
  unfolding proceed record_failure
  two_rounds fuel t spec last store at bad two =
      let begun : AttemptTracker = record t { used = t.used + 1 } in
      let (after, first, at') =
        run_attempt-invalid (t.used + 1) begun spec last store at bad (omega (arith, two)) in
      let failed_once : AttemptTracker = record_failure Policy.invalid_spec begun in
      let second =
        run_attempt-stuck (failed_once.used + 1)
          (record failed_once { used = failed_once.used + 1 }) spec Policy.invalid_spec true after
          at' in
      (
        after,
        loop-left w now job_id (suc fuel) t spec last false store (ground (arith, two))
            ∙ ap (proceed w now job_id (loop w now job_id (suc fuel))) first
            ∙ loop-left w now job_id fuel failed_once spec Policy.invalid_spec true after
                (ground (arith, two))
            ∙ ap (proceed w now job_id (loop w now job_id fuel)) second,
        at',
      )

  pred-cases : (n : ℕ) → 1 ≤ n → (m : ℕ) × (n ≡ suc m)
  pred-cases zero h = (zero, omega (arith, h))
  pred-cases (suc m) h = (m, refl)

  -- If a job waits unclaimed in the store, with two attempts or more, its specification is
  -- refused as invalid, not as unsupported, and nobody else writes to the job, then the run ends with
  -- the job still in validation, and returns it so.
  pub run_job-stuck :
      (store : MemoryJobStore) (rec : JobRecord)
      → get job_id store ≡ some rec
      → rec.state ≡ Jobs.pending
      → contains job_id store.claimed ≡ false
      → 2 ≤ rec.max_attempts
      → w.validate_spec rec.spec ≡ spec_error false
      → (after : MemoryJobStore) × (run_job w now job_id store
          ≡ some (gave (get job_id after), after))
        × At w now job_id Jobs.validating after
  run_job-stuck store rec found is free two bad =
      let (m, is_suc) = pred-cases rec.max_attempts (omega (arith, two)) in
      let (after, ends, at) =
        two_rounds m (record { max_attempts = rec.max_attempts; used = 0; history = [] }) rec.spec
          Policy.render_error (claim job_id store).1
          (rec, claim-get w now job_id store job_id ∙ found, is) bad (omega (arith, two)) in
      (
        after,
        run_job-starts w now job_id store rec found is free
            ∙ ap
                (λ n.
                  loop w now job_id (suc n)
                    (record { max_attempts = rec.max_attempts; used = 0; history = [] }) rec.spec
                    Policy.render_error false (claim job_id store).1)
                is_suc
            ∙ ends,
        at,
      )
