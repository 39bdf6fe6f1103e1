-- ===== src/Planning/Analyzer.antt =====
-- The request analyzer (app/request_analyzer/analyzer.py): the chain of providers that are asked for
-- a plan, and the overrides on what they answer. `json.loads` with the validation of the plan is
-- the parameter `parse`, `none` where either raises. The call of the first provider, behind its
-- breaker and its retries, is given by how it ends.
pub mod Safe
use Prim.Native.Char.{Char, code as char_code}
use llm_service.Prelude.{
  ℕ, suc, ◌+◌, ◌-◌, String, Bool, true, false, not, ◌&&◌, Option, none, some, List, [], ◌∷◌, str_eq,
  if◌then◌else◌, ltb, ◌==◌, filter, length, first_chars, drop_chars,
}
use llm_service.Tools.Dispatch.{ToolCall}
use llm_service.Planning.{
  UserMode, default, smart, deep_research, ExecutionPlan, safe_default, is_ask_files,
  is_deep_research, PlanConfig,
}

-- `raw.find(c)`, `none` for -1
unfoldable pub find_char : ℕ → String → Option ℕ
find_char c String.[] = none
find_char c (String.◌∷◌ d s) = elim (find_char c s) [
  | some n ↦ if char_code d == c then some 0 else some (suc n)
  | none ↦ if char_code d == c then some 0 else none
]

-- `raw.rfind(c)`, `none` for -1
unfoldable pub rfind_char : ℕ → String → Option ℕ
rfind_char c String.[] = none
rfind_char c (String.◌∷◌ d s) = elim (rfind_char c s) [
  | some n ↦ some (suc n)
  | none ↦ if char_code d == c then some 0 else none
]

unfoldable pub object_between : String → Option ℕ → Option ℕ → String
object_between raw none end = raw
object_between raw (some start) none = raw
object_between raw (some start) (some end) =
    if ltb end start then raw else first_chars (end + 1 - start) (drop_chars start raw)

-- from the first `{` to the last `}`
unfoldable pub extract_json_object : String → String
extract_json_object raw = object_between raw (find_char 123 raw) (rfind_char 125 raw)

-- rules 1 and 1b: a mode that the request does not allow
unfoldable pub allowed_mode : PlanConfig → List String → UserMode → UserMode
allowed_mode config file_ids mode =
    let first = if is_ask_files mode && length file_ids == 0 then default else mode in
    if is_deep_research first && not config.enable_deep_research_mode then default else first

-- rule 2; filtering no tools gives none
unfoldable pub allowed_tools : PlanConfig → List ToolCall → List ToolCall
allowed_tools config tools =
    if config.enable_web_search
    then tools
    else filter (λ t. not (str_eq t.tool_name "web_search")) tools

unfoldable pub at_most : ℕ → ℕ → ℕ
at_most cap n = if ltb cap n then cap else n

-- rules 3 to 5
unfoldable pub allowed_iterations : PlanConfig → UserMode → ℕ → ℕ
allowed_iterations config smart n = at_most config.langgraph_max_loop_iterations_smart n
allowed_iterations config deep_research n =
    at_most config.langgraph_max_loop_iterations_deep_research n
allowed_iterations config _ n = 1

unfoldable pub apply_safety_overrides : PlanConfig → List String → ExecutionPlan → ExecutionPlan
apply_safety_overrides config file_ids plan =
    let mode = allowed_mode config file_ids plan.mode in
    record plan {
      mode = mode;
      tools = allowed_tools config plan.tools;
      max_iterations = allowed_iterations config mode plan.max_iterations;
    }

-- a completion that was waited for: how long it takes, and its text with the model that wrote it
pub record Completion : Type 0 where
  pub duration : ℕ
  pub answer : Option (String × String)

-- a request: its files, the settings, the parser, and the clock reading that a plan is given
pub record Analysis : Type 0 where
  pub config : PlanConfig
  pub file_ids : List String
  pub parse : String → Option ExecutionPlan
  pub latency_ms : ℕ

unfoldable pub plan_of : Analysis → String → Option ExecutionPlan → Option ExecutionPlan
plan_of a model none = none
plan_of a model (some plan) = some (
    apply_safety_overrides a.config a.file_ids
      (record plan { groq_model_used = model; analysis_latency_ms = a.latency_ms }))

-- `_finalize_plan`; `none` where it raises
unfoldable pub finalize_plan : Analysis → String → String → Option ExecutionPlan
finalize_plan a raw model = plan_of a model (a.parse (extract_json_object raw))

unfoldable pub finalize_answer : Analysis → Option (String × String) → Option ExecutionPlan
finalize_answer a none = none
finalize_answer a (some answer) = finalize_plan a answer.0 answer.1

-- one provider under `wait_for`
unfoldable pub ask : Analysis → ℕ → Completion → Option ExecutionPlan
ask a limit c = if ltb limit c.duration then none else finalize_answer a c.answer

-- a client of the fallback list, with its `timeout_ms`
pub record Client : Type 0 where
  pub timeout_ms : ℕ
  pub completion : Completion

unfoldable pub or_plan : Option ExecutionPlan → Option ExecutionPlan → Option ExecutionPlan
or_plan none later = later
or_plan (some plan) later = some plan

unfoldable pub ask_clients : Analysis → List Client → Option ExecutionPlan
ask_clients a [] = none
ask_clients a (c ∷ cs) = or_plan (ask a (c.timeout_ms + 1000) c.completion) (ask_clients a cs)

unfoldable pub ask_adapters : Analysis → List Completion → Option ExecutionPlan
ask_adapters a [] = none
ask_adapters a (c ∷ cs) =
    or_plan (ask a a.config.analysis_fallback_timeout_ms c) (ask_adapters a cs)

unfoldable pub ask_nvidia : Analysis → Option Completion → Option ExecutionPlan
ask_nvidia a none = none
ask_nvidia a (some c) = ask a a.config.analysis_fallback_timeout_ms c

unfoldable pub or_default : ℕ → Option ExecutionPlan → ExecutionPlan
or_default latency_ms none = safe_default latency_ms
or_default latency_ms (some plan) = plan

pub record Providers : Type 0 where
  pub groq : Option (String × String)
  pub fallback_clients : List Client
  pub fallback_adapters : List Completion
  pub nvidia : Option Completion

unfoldable pub analyze : Analysis → Providers → ExecutionPlan
analyze a p = or_default a.latency_ms (
    or_plan (finalize_answer a p.groq) (
      or_plan (ask_clients a p.fallback_clients)
        (or_plan (ask_adapters a p.fallback_adapters) (ask_nvidia a p.nvidia))))
