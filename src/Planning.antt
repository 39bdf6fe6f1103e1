-- ===== src/Planning.antt =====
-- The plan of a request (app/models/execution_plan.py) and the default plan
-- (app/request_analyzer/safe_default.py). Temperatures and confidences are given in hundredths.
pub mod Analyzer
pub mod Modes
mod Tests
use llm_service.Prelude.{ℕ, String, Bool, true, false, List, [], ◌∷◌}
use llm_service.Tools.Dispatch.{ToolCall}

pub data IntentCategory : Type 0 where
  general_chat question_answering code_generation code_debugging code_explanation : IntentCategory
  research web_search_intent document_analysis tutoring creative_writing : IntentCategory
  reasoning_intent : IntentCategory

pub data UserMode : Type 0 where
  default tutor code ask_files web_search smart deep_research : UserMode

-- the value of a mode
unfoldable pub mode_value : UserMode → String
mode_value default = "default"
mode_value tutor = "tutor"
mode_value code = "code"
mode_value ask_files = "ask_files"
mode_value web_search = "web_search"
mode_value smart = "smart"
mode_value deep_research = "deep_research"

pub data Skill : Type 0 where
  general_chat_skill tutor_skill coding research_skill writing reasoning_skill : Skill

pub data ReasoningMode : Type 0 where
  direct chain_of_thought react : ReasoningMode

pub record ExecutionPlan : Type 0 where
  pub intent : IntentCategory
  pub mode : UserMode
  pub skill : Skill
  pub reasoning : ReasoningMode
  pub tools : List ToolCall
  pub max_iterations : ℕ
  pub suggested_temperature : ℕ
  pub analysis_confidence : ℕ
  pub groq_model_used : String
  pub analysis_latency_ms : ℕ

unfoldable pub safe_default : ℕ → ExecutionPlan
safe_default latency_ms = record {
  intent = general_chat;
  mode = default;
  skill = general_chat_skill;
  reasoning = direct;
  tools = [];
  max_iterations = 1;
  suggested_temperature = 70;
  analysis_confidence = 0;
  groq_model_used = "fallback_safe_default";
  analysis_latency_ms = latency_ms;
}

unfoldable pub is_ask_files : UserMode → Bool
is_ask_files ask_files = true
is_ask_files _ = false

unfoldable pub is_deep_research : UserMode → Bool
is_deep_research deep_research = true
is_deep_research _ = false

-- the settings that plans depend on
pub record PlanConfig : Type 0 where
  pub enable_web_search : Bool
  pub enable_smart_mode : Bool
  pub enable_deep_research_mode : Bool
  pub langgraph_max_loop_iterations_smart : ℕ
  pub langgraph_max_loop_iterations_deep_research : ℕ
  pub analysis_fallback_timeout_ms : ℕ
