-- ===== src/Planning/Modes.antt =====
-- The modes that a user asks for (app/workflow_engine/modes.py), the engines that run them
-- (app/workflow_engine/mode_dispatcher.py), and the plan that the pipeline makes of them
-- (app/pipeline/request_pipeline.py). `lower` is `str.lower`.
pub mod Routes
use llm_service.Prelude.{
  ℕ, String, Bool, true, false, not, ◌&&◌, ◌||◌, Option, none, some, List, [], ◌∷◌, str_eq,
  if◌then◌else◌, contains, any, filter, map, strip,
}
use llm_service.Tools.Dispatch.{ToolCall}
use llm_service.Tools.Selection.{drop_calls_covered_by_mode}
use llm_service.Planning.{
  UserMode, default, tutor, code, ask_files, web_search, smart, deep_research, mode_value,
  ExecutionPlan, PlanConfig,
}

unfoldable pub selectable : List UserMode
selectable = tutor ∷ code ∷ web_search ∷ smart ∷ deep_research ∷ []

unfoldable pub is_auto : String → Bool
is_auto value = contains value ("" ∷ "auto" ∷ "default" ∷ [])

-- `_enabled`
unfoldable pub mode_enabled : PlanConfig → UserMode → Bool
mode_enabled config smart = config.enable_smart_mode
mode_enabled config deep_research = config.enable_deep_research_mode
mode_enabled config web_search = config.enable_web_search
mode_enabled config _ = true

unfoldable pub available_modes : PlanConfig → List UserMode
available_modes config = filter (mode_enabled config) selectable

-- the mode (`none` for Auto), or the value and the reason of an InvalidModeError
pub data Requested : Type 0 where
  requested : Option UserMode → Requested
  invalid_mode : String → String → Requested

unfoldable pub find_mode : PlanConfig → String → List UserMode → Requested
find_mode config value [] = invalid_mode value "unknown mode"
find_mode config value (mode ∷ modes) =
    let later = find_mode config value modes in
    if str_eq (mode_value mode) value
    then if mode_enabled config mode
      then requested (some mode)
      else invalid_mode value "this mode is turned off"
    else later

-- `raw or ""`
unfoldable pub text_or_empty : Option String → String
text_or_empty none = ""
text_or_empty (some t) = t

unfoldable pub resolve_requested_mode : (String → String) → Option String → PlanConfig → Requested
resolve_requested_mode lower raw config =
    let value = lower (strip (text_or_empty raw)) in
    if is_auto value then requested none else find_mode config value selectable

unfoldable pub requested_iterations : PlanConfig → UserMode → ℕ
requested_iterations config smart = config.langgraph_max_loop_iterations_smart
requested_iterations config deep_research = config.langgraph_max_loop_iterations_deep_research
requested_iterations config _ = 1

unfoldable pub apply_requested_mode : ExecutionPlan → Option UserMode → PlanConfig → ExecutionPlan
apply_requested_mode plan none config = plan
apply_requested_mode plan (some mode) config = record plan {
  mode = mode;
  max_iterations = requested_iterations config mode;
}

unfoldable pub mode_handler_keys : List String
mode_handler_keys = "default" ∷ "tutor" ∷ "code" ∷ "ask_files" ∷ "web_search" ∷ []

unfoldable pub langgraph_keys : List String
langgraph_keys = "smart" ∷ "deep_research" ∷ []

-- the modes that have a handler, and those that have a graph
pub record ModeDispatcher : Type 0 where
  pub handlers : List String
  pub graphs : List String

-- `none` for the ValueError of a mode in both
unfoldable pub new_dispatcher : List String → List String → Option ModeDispatcher
new_dispatcher handlers graphs =
    if any (λ h. contains h graphs) handlers
    then none
    else some (record { handlers = handlers; graphs = graphs })

pub data Engine : Type 0 where
  mode_handler langgraph : Engine

-- `none` for an UnknownModeError
unfoldable pub engine_type_for : ModeDispatcher → String → Option Engine
engine_type_for d mode =
    if contains mode d.handlers || contains mode mode_handler_keys
    then some mode_handler
    else if contains mode d.graphs || contains mode langgraph_keys
    then some langgraph
    else none

-- what runs a plan: the engine that the context names, with the handler or the graph of a mode
pub data Dispatched : Type 0 where
  handled : Engine → String → Dispatched
  invoked : Engine → String → Dispatched
  unknown_mode : String → Dispatched

unfoldable pub dispatch_on : ModeDispatcher → String → Option Engine → Dispatched
dispatch_on d mode none = unknown_mode mode
dispatch_on d mode (some engine) =
    if contains mode d.handlers
    then handled engine mode
    else if contains mode d.graphs
    then invoked engine mode
    else unknown_mode mode

unfoldable pub dispatch_mode : ModeDispatcher → ExecutionPlan → Dispatched
dispatch_mode d plan =
    let mode = mode_value plan.mode in dispatch_on d mode (engine_type_for d mode)

-- the plan and the selected calls with which the workflow starts
pub record Planned : Type 0 where
  pub plan : ExecutionPlan
  pub selected_calls : List ToolCall

-- the planner's calls of the tools that the user chose are dropped
unfoldable pub without_chosen : List ToolCall → List ToolCall → List ToolCall
without_chosen chosen tools =
    filter (λ t. not (contains t.tool_name (map (λ c. c.tool_name) chosen))) tools

unfoldable pub plan_request : PlanConfig → ExecutionPlan → Option UserMode → List ToolCall → Planned
plan_request config plan mode selected =
    let with_mode = apply_requested_mode plan mode config in
    let calls = drop_calls_covered_by_mode selected (mode_value with_mode.mode) in
    record {
      plan = record with_mode { tools = without_chosen calls with_mode.tools };
      selected_calls = calls;
    }
