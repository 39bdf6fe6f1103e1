-- ===== src/Visualization/Runner/States.antt =====
-- The state in which a run leaves its job.
use llm_service.Prelude.{Option}
use llm_service.Visualization.Policy.{begin_attempt, record_failure, is_permanent, is_repairable}
use llm_service.Visualization.Policy
use llm_service.Visualization.Jobs.{JobState, is_active, Fields, default}
use llm_service.Visualization.Jobs
