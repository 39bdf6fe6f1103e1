-- ===== src/Visualization/Runner.antt =====
-- The runner of one job (app/visualization/runner.py) over the in-memory store. The validation of a
-- specification, the repair call, the renderer and the media store are the fields of `Worker`, and
-- what other parties write to the job while the runner waits is its `meanwhile`. One clock reading
-- stands for all writes of a run. The thumbnail, the removal of temporary files and the metrics are
-- left out.
pub mod Outcomes
pub mod Steps
pub mod States
pub mod Stuck
use llm_service.Prelude.{
  ℕ, zero, suc, ◌+◌, ◌-◌, String, Bool, true, false, not, ◌&&◌, ◌||◌, Option, none, some, List, [],
  ◌∷◌, str_eq, if◌then◌else◌,
}
use llm_service.Errors.{Exc}
use llm_service.Visualization.Policy.{
  FailureCategory, AttemptTracker, begin_attempt, record_failure, NextStep, next_step, value,
}
use llm_service.Visualization.Policy
use llm_service.Visualization.Jobs.{
  JobState, same_state, is_active, JobRecord, MemoryJobStore, get, Fields, no_fields, default,
  update, claim,
}
use llm_service.Visualization.Jobs

-- what `validate_spec(json.loads(spec_json), max_spec_chars)` does
pub data Validation : Type 0 where
  validated : Validation
  spec_error : Bool → Validation
  value_error : Validation

-- RenderResult: `path` says whether it is not None
pub record RenderResult : Type 0 where
  pub ok : Bool
  pub path : Bool
  pub category : Option FailureCategory

-- what the repair call and the renderer do: they answer, or raise an exception
pub data Repaired : Type 0 where
  repaired : Option String → Repaired
  repair_raised : Exc → Repaired

pub data Rendered : Type 0 where
  rendered : RenderResult → Rendered
  render_raised : Exc → Rendered

-- what `_run_job` returns, or the exception that leaves it
pub data Result : Type 0 where
  gave : Option JobRecord → Result
  raised : Exc → Result

-- Where the runner waits.
pub data Moment : Type 0 where
  before : Moment
  during_repair : Moment
  during_render : Moment

-- What the runner calls, by the number of the attempt where the answer may change.
pub record Worker : Type 0 where
  pub validate_spec : String → Validation
  -- `repair and repair_enabled`, and the repair of a specification after a failure
  pub has_repair : Bool
  pub repair_enabled : Bool
  pub repair : String → FailureCategory → ℕ → Repaired
  pub render : String → ℕ → Rendered
  -- `media.save`, `none` where it raises
  pub save : ℕ → Option String
  pub meanwhile : ℕ → Moment → List JobState

-- an empty text counts as no answer
unfoldable pub some_text : Option String → Option String
some_text none = none
some_text (some s) = if str_eq s "" then none else some s

module _ (w : Worker) (now : ℕ) (job_id : String) where
  -- the store once the others' writes to the job are made
  unfoldable pub outside : List JobState → MemoryJobStore → MemoryJobStore
  outside [] store = store
  outside (st ∷ sts) store = outside sts (update now job_id st no_fields store).1

  -- Where an attempt leads: the run returns the job, the loop goes on or is left, or an exception
  -- leaves the run.
  pub data Next : Type 0 where
    returns : Option JobRecord → Next
    continues : AttemptTracker → String → FailureCategory → Bool → Next
    breaks : AttemptTracker → FailureCategory → Next
    escapes : Exc → Next

  unfoldable pub go_on :
      NextStep → AttemptTracker → String → FailureCategory → MemoryJobStore → Next × MemoryJobStore
  go_on Policy.give_up t spec_json last store = (breaks t last, store)
  go_on Policy.repair t spec_json last store = (continues t spec_json last true, store)
  go_on Policy.retry t spec_json last store = (continues t spec_json last false, store)

  -- the end of the loop's body: record_failure, next_step and what follows
  unfoldable pub after_failure :
      AttemptTracker → String → FailureCategory → MemoryJobStore → Next × MemoryJobStore
  after_failure tracker spec_json last store =
      let t = record_failure last tracker in go_on (next_step last t) t spec_json last store

  unfoldable pub is_cancelled : FailureCategory → Bool
  is_cancelled Policy.cancelled = true
  is_cancelled _ = false

  -- a rendering that failed for `last`
  unfoldable pub render_failed :
      FailureCategory → AttemptTracker → String → MemoryJobStore → Next × MemoryJobStore
  render_failed last tracker spec_json store =
      let stopped : MemoryJobStore = (update now job_id Jobs.cancelled no_fields store).1 in
      if is_cancelled last
      then (returns (get job_id stopped), stopped)
      else after_failure tracker spec_json last store

  abbrev pub done_fields : String → List String → Fields
  done_fields key history = record {
    attempt = none;
    failure = some "";
    media_key = some key;
    history = some history;
  }

  abbrev pub failed_fields : FailureCategory → List String → Fields
  failed_fields last history = record {
    attempt = none;
    failure = some (value last);
    media_key = none;
    history = some history;
  }

  -- what follows `media.save`
  unfoldable pub after_save :
      Option String → AttemptTracker → String → MemoryJobStore → Next × MemoryJobStore
  after_save none tracker spec_json store =
      render_failed Policy.storage_failure tracker spec_json store
  after_save (some key) tracker spec_json store =
      let (done, after) = update now job_id Jobs.ready (done_fields key tracker.history) store in
      (returns (elim done [ some rec ↦ some rec | none ↦ get job_id after ]), after)

  unfoldable pub finish_render :
      ℕ → AttemptTracker → String → RenderResult → MemoryJobStore → Next × MemoryJobStore
  finish_render attempt tracker spec_json result store =
      if result.ok && result.path
      then after_save (w.save attempt) tracker spec_json store
      else render_failed (default Policy.render_error result.category) tracker spec_json store

  -- what follows the call of the renderer, whose exception nothing catches
  unfoldable pub after_render :
      Rendered → ℕ → AttemptTracker → String → MemoryJobStore → Next × MemoryJobStore
  after_render (rendered result) attempt tracker spec_json store =
      finish_render attempt tracker spec_json result store
  after_render (render_raised e) attempt tracker spec_json store = (escapes e, store)

  -- what follows `validate_spec`
  unfoldable pub after_validation :
      Validation → ℕ → AttemptTracker → String → MemoryJobStore → Next × MemoryJobStore
  after_validation (spec_error unsupported) attempt tracker spec_json store =
      after_failure tracker spec_json
        (if unsupported then Policy.unsupported_template else Policy.invalid_spec) store
  after_validation value_error attempt tracker spec_json store =
      after_failure tracker spec_json Policy.invalid_spec store
  after_validation validated attempt tracker spec_json store =
      let rendering : MemoryJobStore = (update now job_id Jobs.rendering no_fields store).1 in
      after_render (w.render spec_json attempt) attempt tracker spec_json
        (outside (w.meanwhile attempt during_render) rendering)

  -- from `validate_spec` to the end of the loop's body
  unfoldable pub validate_and_render :
      ℕ → AttemptTracker → String → MemoryJobStore → Next × MemoryJobStore
  validate_and_render attempt tracker spec_json store =
      after_validation (w.validate_spec spec_json) attempt tracker spec_json store

  -- the loop goes on, still in need of a repair, or is left
  unfoldable pub try_repair_again :
      NextStep → AttemptTracker → String → FailureCategory → MemoryJobStore → Next × MemoryJobStore
  try_repair_again Policy.give_up t spec_json last store = (breaks t last, store)
  try_repair_again _ t spec_json last store = (continues t spec_json last true, store)

  -- what follows the repair call
  unfoldable pub after_repair :
      Option String → ℕ → AttemptTracker → String → MemoryJobStore → Next × MemoryJobStore
  after_repair (some fixed) attempt tracker spec_json store =
      validate_and_render attempt tracker fixed
        (update now job_id Jobs.validating no_fields store).1
  after_repair none attempt tracker spec_json store =
      let cause : FailureCategory =
        if w.has_repair then Policy.invalid_spec else Policy.worker_unavailable in
      let t = record_failure cause tracker in
      try_repair_again (next_step cause t) t spec_json cause store

  -- what the repair call did; nothing catches its exception
  unfoldable pub after_repair_call :
      Repaired → ℕ → AttemptTracker → String → MemoryJobStore → Next × MemoryJobStore
  after_repair_call (repaired fixed) attempt tracker spec_json store =
      after_repair (some_text fixed) attempt tracker spec_json store
  after_repair_call (repair_raised e) attempt tracker spec_json store = (escapes e, store)

  -- the repair of the specification, which is asked for once the job is marked as repairing
  unfoldable pub repair_spec :
      ℕ → AttemptTracker → String → FailureCategory → MemoryJobStore → Next × MemoryJobStore
  repair_spec attempt tracker spec_json last store =
      let marked : MemoryJobStore = (update now job_id Jobs.repairing no_fields store).1 in
      if w.has_repair && w.repair_enabled
      then after_repair_call (w.repair spec_json last attempt) attempt tracker spec_json
          (outside (w.meanwhile attempt during_repair) marked)
      else after_repair none attempt tracker spec_json marked

  -- what follows the update that opens an attempt
  unfoldable pub after_begin :
      Option JobRecord
      → Bool
      → ℕ
      → AttemptTracker
      → String
      → FailureCategory
      → MemoryJobStore
      → Next × MemoryJobStore
  after_begin none need_repair attempt tracker spec_json last store =
      (returns (get job_id store), store)
  after_begin (some _) true attempt tracker spec_json last store =
      repair_spec attempt tracker spec_json last store
  after_begin (some _) false attempt tracker spec_json last store =
      validate_and_render attempt tracker spec_json store

  abbrev pub attempt_fields : ℕ → Fields
  attempt_fields attempt = record {
    attempt = some attempt;
    failure = none;
    media_key = none;
    history = none;
  }

  -- the loop's body, past `begin_attempt`
  unfoldable pub run_attempt :
      ℕ → AttemptTracker → String → FailureCategory → Bool → MemoryJobStore → Next × MemoryJobStore
  run_attempt attempt tracker spec_json last need_repair store =
      let (rec, validating) =
        update now job_id Jobs.validating (attempt_fields attempt)
          (outside (w.meanwhile attempt before) store) in
      after_begin rec need_repair attempt tracker spec_json last validating

  -- the end of a job that could not be rendered
  unfoldable pub fail : AttemptTracker → FailureCategory → MemoryJobStore → Result × MemoryJobStore
  fail tracker last store =
      let (rec, after) = update now job_id Jobs.failed (failed_fields last tracker.history) store in
      (gave (elim rec [ some r ↦ some r | none ↦ get job_id after ]), after)

  -- where an attempt led; `rest` is the rest of the loop
  unfoldable pub proceed :
      (AttemptTracker
        → String
        → FailureCategory
        → Bool
        → MemoryJobStore
        → Option (Result × MemoryJobStore))
      → Next × MemoryJobStore
      → Option (Result × MemoryJobStore)
  proceed rest (returns rec, after) = some (gave rec, after)
  proceed rest (escapes e, after) = some (raised e, after)
  proceed rest (continues t spec_json last need_repair, after) =
      rest t spec_json last need_repair after
  proceed rest (breaks t last, after) = some (fail t last after)

  -- The loop, `none` where the fuel does not last.
  unfoldable pub loop :
      ℕ
      → AttemptTracker
      → String
      → FailureCategory
      → Bool
      → MemoryJobStore
      → Option (Result × MemoryJobStore)
  loop zero tracker spec_json last need_repair store = none
  loop (suc fuel) tracker spec_json last need_repair store = elim (begin_attempt tracker) [
    | none ↦ some (fail tracker last store)
    | some (attempt, begun) ↦
        proceed (loop fuel) (run_attempt attempt begun spec_json last need_repair store)
  ]

  -- the run of a job that this runner has claimed
  unfoldable pub start : Option JobRecord → MemoryJobStore → Option (Result × MemoryJobStore)
  start none store = some (gave none, store)
  start (some rec) store =
      if is_active rec.state
      then loop (suc rec.max_attempts)
          (record { max_attempts = rec.max_attempts; used = 0; history = [] }) rec.spec
          Policy.render_error false store
      else some (gave (some rec), store)

  -- `_run_job`, with fuel for one more round than the job has attempts
  unfoldable pub run_job : MemoryJobStore → Option (Result × MemoryJobStore)
  run_job store =
      let (own, claimed) = claim job_id store in
      if own then start (get job_id claimed) claimed else some (gave (get job_id claimed), claimed)
