-- ===== src/Visualization/Tests.antt =====
-- Witnesses for the visualization jobs: one job, a store that holds it, and two workers.
use llm_service.Prelude.{◌≡◌, refl, true, false, none, some, List, [], ◌∷◌, arith}
use llm_service.Visualization.Policy.{
  FailureCategory, AttemptTracker, next_step, is_repairable, is_transient, is_permanent,
}
use llm_service.Visualization.Policy
use llm_service.Visualization.Jobs.{
  JobState, JobRecord, MemoryJobStore, get, no_fields, init, create_if_absent, claim, is_terminal,
  hits_of,
}
use llm_service.Visualization.Jobs
use llm_service.Visualization.Jobs.States.{
  Write, write_all, Moves, is_final, write_all-Moves, write_all-final,
}
use llm_service.Visualization.Jobs.Submission.{quota, count_all, hourly_count-quota}
use llm_service.Visualization.Runner.{
  Validation, validated, spec_error, rendered, repaired, Result, gave, Worker, run_job,
}
use llm_service.Visualization.Runner.Outcomes.{run_job-returns}
use llm_service.Visualization.Runner.Stuck.{run_job-stuck}

abbrev job : JobState → JobRecord
job state = record {
  id = "mj_1";
  owner = "ada";
  spec = "{}";
  state = state;
  attempt = 0;
  max_attempts = 3;
  failure = "";
  media_key = "";
  created_at = 10;
  updated_at = 10;
  history = [];
}

abbrev holding : JobState → MemoryJobStore
holding state = record { jobs = ("mj_1", job state) ∷ []; queue = []; claimed = []; hits = [] }

abbrev writes : List Write
writes =
    record { now = 11; job_id = "mj_1"; new_state = Jobs.validating; fields = no_fields }
    ∷ record { now = 12; job_id = "mj_2"; new_state = Jobs.failed; fields = no_fields }
    ∷ record { now = 13; job_id = "mj_1"; new_state = Jobs.ready; fields = no_fields }
    ∷ []

-- a worker whose renderings fail and whose validation gives `v`
abbrev worker : Validation → Worker
worker v = record {
  validate_spec = λ spec. v;
  has_repair = true;
  repair_enabled = true;
  repair = λ spec last attempt. repaired (some "{\"a\":1}");
  render = λ spec attempt.
      rendered (record { ok = false; path = false; category = some Policy.render_error });
  save = λ attempt. none;
  meanwhile = λ attempt moment. [];
}

write_all-Moves_example :
    (after : JobRecord) × (get "mj_1" (write_all writes (holding Jobs.pending)) ≡ some after)
    × Moves Jobs.pending after.state
unfolding get
write_all-Moves_example =
    write_all-Moves writes (holding Jobs.pending) "mj_1" (job Jobs.pending) refl

write_all-final_example :
    get "mj_1" (write_all writes (holding Jobs.cancelled)) ≡ some (job Jobs.cancelled)
unfolding get is_final Jobs.is_terminal Jobs.same_state
write_all-final_example =
    write_all-final writes (holding Jobs.cancelled) "mj_1" (job Jobs.cancelled) refl refl

hourly_count-quota_example :
    count_all "ada" 2 (100 ∷ 200 ∷ 300 ∷ 3800 ∷ []) init ≡ quota 2 [] (100 ∷ 200 ∷ 300 ∷ 3800 ∷ [])
unfolding init hits_of
hourly_count-quota_example =
    hourly_count-quota "ada" 2 0 (100 ∷ 200 ∷ 300 ∷ 3800 ∷ []) init
      (omega arith, (omega arith, (omega arith, (omega arith, tt)))) refl

run_job-returns_example :
    (out : Result × MemoryJobStore) × (run_job (worker validated) 20 "mj_1" (holding Jobs.pending)
      ≡ some out)
run_job-returns_example = run_job-returns (worker validated) 20 "mj_1" (holding Jobs.pending)

run_job-stuck_example :
    (after : MemoryJobStore) × (run_job (worker (spec_error false)) 20 "mj_1" (holding Jobs.pending)
      ≡ some (gave (get "mj_1" after), after))
    × ((rec : JobRecord) × (get "mj_1" after ≡ some rec) × (rec.state ≡ Jobs.validating))
unfolding get
run_job-stuck_example =
    run_job-stuck (worker (spec_error false)) 20 "mj_1" (λ attempt moment. refl)
      (holding Jobs.pending) (job Jobs.pending) refl refl refl (omega arith) refl

abbrev second_attempt : AttemptTracker
second_attempt = record { max_attempts = 3; used = 2; history = "timeout" ∷ [] }
