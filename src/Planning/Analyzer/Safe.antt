-- ===== src/Planning/Analyzer/Safe.antt =====
-- The plan that an analysis gives, whatever the providers answer.
use llm_service.Prelude.{
  ℕ, ◌≤◌, ◌≡◌, ◌≢◌, ◌⊎◌, refl, String, true, false, not, Option, none, some, List, [], ◌∷◌, str_eq,
  filter, All, arith, Bool-cases, inl, inr, ltb,
}
use llm_service.Tools.Dispatch.{ToolCall}
use llm_service.Planning.{
  UserMode, default, tutor, code, ask_files, web_search, smart, deep_research, ExecutionPlan,
  safe_default, is_ask_files, is_deep_research, PlanConfig,
}
use llm_service.Planning.Analyzer.{
  allowed_mode, allowed_tools, at_most, allowed_iterations, apply_safety_overrides, Completion,
  Analysis, plan_of, finalize_plan, finalize_answer, ask, Client, or_plan, ask_clients,
  ask_adapters, ask_nvidia, or_default, Providers, analyze,
}

-- how often the engine of a mode may go round
unfoldable pub iteration_cap : PlanConfig → UserMode → ℕ
iteration_cap config smart = config.langgraph_max_loop_iterations_smart
iteration_cap config deep_research = config.langgraph_max_loop_iterations_deep_research
iteration_cap config _ = 1

-- what the rules ask of a plan
pub record IsSafe (config : PlanConfig) (file_ids : List String) (plan : ExecutionPlan)
    : Type 0 where
  pub with_files : (is_ask_files plan.mode ≡ false) ⊎ (file_ids ≢ [])
  pub research_on : (is_deep_research plan.mode ≡ false) ⊎ (config.enable_deep_research_mode ≡ true)
  pub searches :
      (config.enable_web_search ≡ true)
      ⊎ All (λ t. str_eq t.tool_name "web_search" ≡ false) plan.tools
  pub few_iterations : plan.max_iterations ≤ iteration_cap config plan.mode

kept_calls :
    (ts : List ToolCall)
    → All
        (λ t. str_eq t.tool_name "web_search" ≡ false)
        (filter (λ t. not (str_eq t.tool_name "web_search")) ts)
kept_calls [] = tt
kept_calls (t ∷ ts) = ground (arith, kept_calls ts)

allowed_tools-searches :
    (config : PlanConfig) (tools : List ToolCall)
    → (config.enable_web_search ≡ true)
      ⊎ All (λ t. str_eq t.tool_name "web_search" ≡ false) (allowed_tools config tools)
unfolding allowed_tools
allowed_tools-searches config tools = elim (Bool-cases config.enable_web_search) [
  | inl e ↦ inl e
  | inr e ↦ inr (rw e (kept_calls tools))
]

allowed_mode-files :
    (config : PlanConfig) (file_ids : List String) (chosen : UserMode)
    → (is_ask_files (allowed_mode config file_ids chosen) ≡ false) ⊎ (file_ids ≢ [])
unfolding allowed_mode is_ask_files is_deep_research
allowed_mode-files config [] chosen = inl (ground arith)
allowed_mode-files config (f ∷ fs) chosen = inr (λ e. ground (arith, e))

allowed_mode-research :
    (config : PlanConfig) (file_ids : List String) (chosen : UserMode)
    → (is_deep_research (allowed_mode config file_ids chosen) ≡ false)
      ⊎ (config.enable_deep_research_mode ≡ true)
unfolding allowed_mode is_ask_files is_deep_research
allowed_mode-research config file_ids chosen = elim (Bool-cases config.enable_deep_research_mode) [
  | inl e ↦ inr e
  | inr e ↦ inl (ground (arith, e))
]

allowed_iterations-cap :
    (config : PlanConfig) (chosen : UserMode) (n : ℕ)
    → allowed_iterations config chosen n ≤ iteration_cap config chosen
unfolding allowed_iterations iteration_cap at_most
allowed_iterations-cap config default n = omega arith
allowed_iterations-cap config tutor n = omega arith
allowed_iterations-cap config code n = omega arith
allowed_iterations-cap config ask_files n = omega arith
allowed_iterations-cap config web_search n = omega arith
allowed_iterations-cap config smart n = ground arith
allowed_iterations-cap config deep_research n = ground arith

apply_safety_overrides-IsSafe :
    (config : PlanConfig) (file_ids : List String) (plan : ExecutionPlan)
    → IsSafe config file_ids (apply_safety_overrides config file_ids plan)
unfolding apply_safety_overrides
apply_safety_overrides-IsSafe config file_ids plan = record {
  with_files = allowed_mode-files config file_ids plan.mode;
  research_on = allowed_mode-research config file_ids plan.mode;
  searches = allowed_tools-searches config plan.tools;
  few_iterations =
      allowed_iterations-cap config (allowed_mode config file_ids plan.mode) plan.max_iterations;
}

safe_default-IsSafe :
    (config : PlanConfig) (file_ids : List String) (latency : ℕ)
    → IsSafe config file_ids (safe_default latency)
unfolding safe_default is_ask_files is_deep_research iteration_cap
safe_default-IsSafe config file_ids latency = record {
  with_files = inl refl;
  research_on = inl refl;
  searches = inr tt;
  few_iterations = omega arith;
}

-- a plan that a provider answered, after the overrides
data IsOverridden (a : Analysis) : Option ExecutionPlan → Type 0 where
  no_plan : IsOverridden a none
  overridden :
      (plan : ExecutionPlan)
      → IsOverridden a (some (apply_safety_overrides a.config a.file_ids plan))

or_plan-IsOverridden :
    (a : Analysis) {first later : Option ExecutionPlan}
    → IsOverridden a first
    → IsOverridden a later
    → IsOverridden a (or_plan first later)
unfolding or_plan
or_plan-IsOverridden a no_plan k = k
or_plan-IsOverridden a (overridden plan) k = overridden plan

plan_of-IsOverridden :
    (a : Analysis) (model : String) (parsed : Option ExecutionPlan)
    → IsOverridden a (plan_of a model parsed)
unfolding plan_of
plan_of-IsOverridden a model none = no_plan
plan_of-IsOverridden a model (some plan) = overridden _

finalize_answer-IsOverridden :
    (a : Analysis) (answer : Option (String × String)) → IsOverridden a (finalize_answer a answer)
unfolding finalize_answer finalize_plan
finalize_answer-IsOverridden a none = no_plan
finalize_answer-IsOverridden a (some (raw, model)) = plan_of-IsOverridden a model _

ask-IsOverridden : (a : Analysis) (limit : ℕ) (c : Completion) → IsOverridden a (ask a limit c)
unfolding ask
ask-IsOverridden a limit c = elim (Bool-cases (ltb limit c.duration)) [
  | inl e ↦ rw e no_plan
  | inr e ↦ rw e (finalize_answer-IsOverridden a c.answer)
]

ask_clients-IsOverridden : (a : Analysis) (cs : List Client) → IsOverridden a (ask_clients a cs)
unfolding ask_clients
ask_clients-IsOverridden a [] = no_plan
ask_clients-IsOverridden a (c ∷ cs) =
    or_plan-IsOverridden a (ask-IsOverridden a _ c.completion) (ask_clients-IsOverridden a cs)

ask_adapters-IsOverridden :
    (a : Analysis) (cs : List Completion) → IsOverridden a (ask_adapters a cs)
unfolding ask_adapters
ask_adapters-IsOverridden a [] = no_plan
ask_adapters-IsOverridden a (c ∷ cs) =
    or_plan-IsOverridden a (ask-IsOverridden a _ c) (ask_adapters-IsOverridden a cs)

ask_nvidia-IsOverridden : (a : Analysis) (c : Option Completion) → IsOverridden a (ask_nvidia a c)
unfolding ask_nvidia
ask_nvidia-IsOverridden a none = no_plan
ask_nvidia-IsOverridden a (some c) = ask-IsOverridden a _ c

or_default-IsSafe :
    (a : Analysis) {plan : Option ExecutionPlan}
    → IsOverridden a plan
    → IsSafe a.config a.file_ids (or_default a.latency_ms plan)
unfolding or_default
or_default-IsSafe a no_plan = safe_default-IsSafe a.config a.file_ids a.latency_ms
or_default-IsSafe a (overridden plan) = apply_safety_overrides-IsSafe a.config a.file_ids plan

-- The analysis always gives a plan, whatever the providers answer and however they fail, and the plan
-- is safe: it asks for files only where files are attached, for deep research only where it is
-- enabled, and its list of tools has no web search where that is disabled (the mode that searches by
-- itself may still be planned); its iterations are within the cap of an
-- iterative mode, and at most one in any other mode.
pub analyze-IsSafe : (a : Analysis) (p : Providers) → IsSafe a.config a.file_ids (analyze a p)
unfolding analyze
analyze-IsSafe a p = or_default-IsSafe a (
    or_plan-IsOverridden a (finalize_answer-IsOverridden a p.groq) (
      or_plan-IsOverridden a (ask_clients-IsOverridden a p.fallback_clients) (
        or_plan-IsOverridden a (ask_adapters-IsOverridden a p.fallback_adapters)
          (ask_nvidia-IsOverridden a p.nvidia))))
