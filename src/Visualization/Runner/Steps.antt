-- ===== src/Visualization/Runner/Steps.antt =====
-- The states between the steps of a run.
use llm_service.Prelude.{
  ℕ, suc, String, true, false, Option, none, some, List, [], ◌≡◌, refl, ap, ◌∙◌, ◌⊎◌, contains,
  Bool-cases, inl, inr,
}
use mathlib.Core.Option.{some-injective}
use mathlib.Core.Path.{subst}
use llm_service.Errors.{Exc}
use llm_service.Visualization.Policy.{
  FailureCategory, AttemptTracker, begin_attempt, record_failure, NextStep, next_step, is_permanent,
  is_repairable,
}
use llm_service.Visualization.Policy
use llm_service.Visualization.Jobs.{
  JobState, is_active, is_terminal, can_transition, JobRecord, MemoryJobStore, Fields, get,
  no_fields, default, update, claim,
}
use llm_service.Visualization.Jobs
use llm_service.Visualization.Jobs.States.{update-does}
use llm_service.Visualization.Runner.{
  Moment, Worker, outside, Next, returns, continues, breaks, escapes, render_raised, repair_raised,
  Result, gave, raised, go_on, after_failure, after_save, done_fields, is_cancelled, render_failed,
  loop, start, run_job,
}

-- Nobody else writes to the job during the run.
abbrev pub IsAlone : Worker → Type 0
IsAlone w = (attempt : ℕ) (moment : Moment) → w.meanwhile attempt moment ≡ []

module _ (w : Worker) (now : ℕ) (job_id : String) where
  -- The job is there, in the state `st`.
  abbrev pub At : JobState → MemoryJobStore → Type 0
  At st store = (rec : JobRecord) × (get job_id store ≡ some rec) × (rec.state ≡ st)

  -- The job is there, at a point where an attempt may begin, or all end.
  abbrev pub Open : MemoryJobStore → Type 0
  Open store =
      (rec : JobRecord) × (get job_id store ≡ some rec)
      × (can_transition rec.state Jobs.validating ≡ true)
      × (can_transition rec.state Jobs.failed ≡ true)

  -- the states in which a run leaves a job that it has returned
  abbrev pub IsDone : JobState → Type 0
  IsDone st = (st ≡ Jobs.ready) ⊎ (st ≡ Jobs.failed) ⊎ (st ≡ Jobs.cancelled)

  -- an exception that the renderer or the repair call raised
  abbrev pub IsRaised : Exc → Type 0
  IsRaised e =
      ((spec : String) × (attempt : ℕ) × (w.render spec attempt ≡ render_raised e))
      ⊎ (spec : String) × (last : FailureCategory) × (attempt : ℕ) × (w.repair spec last attempt
          ≡ repair_raised e)

  -- The run returned the job that the store then holds, ready, failed or cancelled; or an exception
  -- of the renderer or of the repair call left it, and the store holds the job as it was then.
  abbrev pub Ends : Result × MemoryJobStore → Type 0
  Ends (gave out, store) =
      (rec : JobRecord) × (out ≡ some rec) × (get job_id store ≡ some rec) × IsDone rec.state
  Ends (raised e, store) =
      IsRaised e
      × ((rec : JobRecord) × (get job_id store ≡ some rec)
          × ((rec.state ≡ Jobs.rendering) ⊎ (rec.state ≡ Jobs.repairing)))

  abbrev pub Good : Next w now job_id × MemoryJobStore → Type 0
  Good (returns out, store) = Ends (gave out, store)
  Good (escapes e, store) = Ends (raised e, store)
  Good (continues _ _ _ _, store) = Open store
  Good (breaks _ _, store) = Open store

  pub Ends-some : (out r : Result × MemoryJobStore) → some out ≡ some r → Ends out → Ends r
  Ends-some out r is = subst Ends (some-injective out r is)

  pub move :
      (st new : JobState) (fields : Fields) (store : MemoryJobStore)
      → can_transition st new ≡ true
      → At st store
      → ((rec : JobRecord) × ((update now job_id new fields store).0 ≡ some rec)
          × (get job_id (update now job_id new fields store).1 ≡ some rec)
          × (rec.state ≡ new))
  unfolding get
  move st new fields store can (rec, found, is) =
      let (done, after) =
        update-does now job_id new fields store rec found
          (ap (λ s. can_transition s new) is ∙ can) in
      (_, done, after, refl)

  pub At-move :
      (st new : JobState) (fields : Fields) (store : MemoryJobStore)
      → can_transition st new ≡ true
      → At st store
      → At new (update now job_id new fields store).1
  At-move st new fields store can at =
      let (rec, _, after, is) = move st new fields store can at in (rec, after, is)

  pub At-Open :
      (st : JobState) (store : MemoryJobStore)
      → can_transition st Jobs.validating ≡ true
      → can_transition st Jobs.failed ≡ true
      → At st store
      → Open store
  At-Open st store can fails (rec, found, is) = (
    rec,
    found,
    ap (λ s. can_transition s Jobs.validating) is ∙ can,
    ap (λ s. can_transition s Jobs.failed) is ∙ fails,
  )

  pub go_on-Good :
      (step : NextStep) (t : AttemptTracker) (spec : String) (last : FailureCategory)
      (store : MemoryJobStore)
      → Open store
      → Good (go_on w now job_id step t spec last store)
  unfolding go_on
  go_on-Good Policy.give_up t spec last store h = h
  go_on-Good Policy.repair t spec last store h = h
  go_on-Good Policy.retry t spec last store h = h

  pub render_failed-Good :
      (last : FailureCategory) (t : AttemptTracker) (spec : String) (store : MemoryJobStore)
      → At Jobs.rendering store
      → Good (render_failed w now job_id last t spec store)
  unfolding render_failed after_failure can_transition is_terminal
  render_failed-Good last t spec store at = elim (Bool-cases (is_cancelled w now job_id last)) [
    | inl e ↦
        let (rec, found, is) = At-move Jobs.rendering Jobs.cancelled no_fields store refl at in
        rw e (rec, found, found, inr (inr is))
    | inr e ↦ rw e (go_on-Good _ _ spec last store (At-Open Jobs.rendering store refl refl at))
  ]

  pub after_save-Good :
      (key : Option String) (t : AttemptTracker) (spec : String) (store : MemoryJobStore)
      → At Jobs.rendering store
      → Good (after_save w now job_id key t spec store)
  unfolding after_save can_transition is_terminal
  after_save-Good none t spec store at = render_failed-Good Policy.storage_failure t spec store at
  after_save-Good (some key) t spec store at =
      let (rec, done, after, is) =
        move Jobs.rendering Jobs.ready (done_fields w now job_id key t.history) store refl at in
      rw done (rec, refl, after, inl is)

  pub outside-alone :
      (sts : List JobState) (store : MemoryJobStore)
      → sts ≡ []
      → outside w now job_id sts store ≡ store
  unfolding outside
  outside-alone sts store none_else = rw none_else refl

  pub claim-get : (store : MemoryJobStore) (j : String) → get j (claim job_id store).1 ≡ get j store
  unfolding claim get
  claim-get store j = elim (Bool-cases (contains job_id store.claimed)) [
    | inl held ↦ rw held refl
    | inr free ↦ rw free refl
  ]

  pub run_job-starts :
      (store : MemoryJobStore) (rec : JobRecord)
      → get job_id store ≡ some rec
      → rec.state ≡ Jobs.pending
      → contains job_id store.claimed ≡ false
      → run_job w now job_id store
        ≡ loop w now job_id
            (suc rec.max_attempts)
            (record { max_attempts = rec.max_attempts; used = 0; history = [] })
            rec.spec
            Policy.render_error
            false
            (claim job_id store).1
  unfolding run_job start claim get is_active
  run_job-starts store rec found is free = rw (run_job, claim, free, found, start, is) refl
