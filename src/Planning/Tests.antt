-- ===== src/Planning/Tests.antt =====
-- Witnesses for plans: a provider that answers after a reasoning text, with a plan that breaks every
-- rule, and a user who picked a tool.
use llm_service.Prelude.{true, false, none, some, [], ◌∷◌}
use llm_service.Tools.Dispatch.{ToolCall}
use llm_service.Planning
use llm_service.Planning.{ExecutionPlan, PlanConfig, default, deep_research, safe_default}
use llm_service.Planning.Analyzer.{Analysis, Providers, analyze}
use llm_service.Planning.Analyzer.Safe.{IsSafe, analyze-IsSafe}

abbrev config : PlanConfig
config = record {
  enable_web_search = false;
  enable_smart_mode = true;
  enable_deep_research_mode = false;
  langgraph_max_loop_iterations_smart = 3;
  langgraph_max_loop_iterations_deep_research = 5;
  analysis_fallback_timeout_ms = 8000;
}

abbrev search : ToolCall
search = record { tool_name = "web_search"; params = []; parallel = true; required = false }

abbrev answered : ExecutionPlan
answered = record {
  intent = Planning.research;
  mode = deep_research;
  skill = Planning.research_skill;
  reasoning = Planning.react;
  tools = search ∷ [];
  max_iterations = 9;
  suggested_temperature = 30;
  analysis_confidence = 90;
  groq_model_used = "";
  analysis_latency_ms = 0;
}

abbrev analysis : Analysis
analysis = record { config = config; file_ids = []; parse = λ _. some answered; latency_ms = 120 }

abbrev providers : Providers
providers = record {
  groq = none;
  fallback_clients = [];
  fallback_adapters =
      record { duration = 9000; answer = some ("{}", "slow") }
      ∷ record { duration = 700; answer = some ("thinking {}", "gemini") }
      ∷ [];
  nvidia = none;
}

analyze-IsSafe_example : IsSafe config [] (analyze analysis providers)
analyze-IsSafe_example = analyze-IsSafe analysis providers
