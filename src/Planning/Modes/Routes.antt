-- ===== src/Planning/Modes/Routes.antt =====
-- Which modes are accepted, which engine runs a mode, and which calls are left to the workflow.
use text.Mathlib.TextEquality.{eq_iff}
use llm_service.Prelude.{
  ℕ, suc, ◌≡◌, refl, ◌&&◌, Bool, if◌then◌else◌, String, true, false, Option, some, List, [], ◌∷◌,
  str_eq, strip, All, arith, Bool-cases, inl, inr,
}
use llm_service.Tools.Dispatch.{ToolCall}
use llm_service.Planning.{
  UserMode, default, tutor, code, ask_files, web_search, smart, deep_research, mode_value,
  is_ask_files, ExecutionPlan, PlanConfig,
}
use llm_service.Planning.Modes.{
  selectable, is_auto, mode_enabled, requested, find_mode, text_or_empty, resolve_requested_mode,
  mode_handler_keys, langgraph_keys, ModeDispatcher, mode_handler, langgraph, engine_type_for,
  Dispatched, handled, invoked, dispatch_on, dispatch_mode,
}

find_mode-enabled :
    (config : PlanConfig) (value : String) (modes : List UserMode) (m : UserMode)
    → All (λ s. is_ask_files s ≡ false) modes
    → find_mode config value modes ≡ requested (some m)
    → (mode_enabled config m ≡ true) × (is_ask_files m ≡ false) × (mode_value m ≡ value)
unfolding find_mode
find_mode-enabled config value [] m k h = ground (arith, h)
find_mode-enabled config value (s ∷ ss) m k h =
    ground (arith, h, k.0, eq_iff (mode_value s) value, find_mode-enabled config value ss m k.1)

-- A mode that a user asks for is accepted only where it is enabled, spelled as asked but for spaces
-- and case, and never the mode that is chosen for attached files.
pub resolve_requested_mode-enabled :
    (lower : String → String) (raw : Option String) (config : PlanConfig) (m : UserMode)
    → resolve_requested_mode lower raw config ≡ requested (some m)
    → (mode_enabled config m ≡ true)
      × (is_ask_files m ≡ false)
      × (mode_value m ≡ lower (strip (text_or_empty raw)))
unfolding resolve_requested_mode selectable is_ask_files
resolve_requested_mode-enabled lower raw config m h =
    let value = lower (strip (text_or_empty raw)) in
    elim (Bool-cases (is_auto value)) [
      | inl e ↦ ground (arith, rw e at h)
      | inr e ↦
          find_mode-enabled config value _ m (refl, (refl, (refl, (refl, (refl, tt))))) (rw e at h)
    ]

-- what is run is run by the engine that the context names
pub data IsRun : Dispatched → Type 0 where
  by_handler : {mode : String} → IsRun (handled mode_handler mode)
  by_graph : {mode : String} → IsRun (invoked langgraph mode)

-- a dispatcher with a handler or a graph for every mode
abbrev pub all_modes : ModeDispatcher
all_modes = record { handlers = mode_handler_keys; graphs = langgraph_keys }

-- With a handler or a graph for every mode, each of the modes is run, a handler under the name of the
-- handlers' engine and a graph under that of the graphs, whatever the plan.
pub dispatch_mode-IsRun : (plan : ExecutionPlan) → IsRun (dispatch_mode all_modes plan)
unfolding dispatch_mode dispatch_on engine_type_for mode_handler_keys langgraph_keys mode_value
dispatch_mode-IsRun plan =
    elim plan.mode
      as (λ m.
        IsRun (dispatch_on all_modes (mode_value m) (engine_type_for all_modes (mode_value m)))) [
          | default ↦ by_handler
          | tutor ↦ by_handler
          | code ↦ by_handler
          | ask_files ↦ by_handler
          | web_search ↦ by_handler
          | smart ↦ by_graph
          | deep_research ↦ by_graph
        ]

-- how many of the calls are of a tool
abbrev pub count_of : String → List ToolCall → ℕ
count_of name [] = 0
count_of name (c ∷ cs) =
    if str_eq c.tool_name name then suc (count_of name cs) else count_of name cs

-- the mode itself does what the tool does
abbrev pub covers : UserMode → String → Bool
covers m name = str_eq (mode_value m) "web_search" && str_eq name "web_search"
