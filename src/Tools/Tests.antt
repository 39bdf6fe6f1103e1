-- ===== src/Tools/Tests.antt =====
-- Witnesses for the tools: a search that works, a calculator whose parameters are refused, and a
-- tool that is too slow.
use llm_service.Prelude.{
  ℕ, ◌≤◌, ◌≡◌, refl, String, Bool, true, false, Option, none, some, is_some, List, [], ◌∷◌, ◌++◌,
  map,
}
use llm_service.Tools
use llm_service.Tools.{
  Tool, ToolSchema, ToolParams, ToolResult, ToolEnd, Validated, valid, invalid, returned, Registry,
  init, get, list_tools, matches,
}
use llm_service.Tools.Views.{
  Op, register_tool, enable_tool, disable_tool, run, replay, answer, run-refines, list_tools-total,
}
use llm_service.Tools.Execution
use llm_service.Tools.Execution.{execute, done, effective_timeout, execute-success}
use llm_service.Tools.Dispatch.{ToolCall, Dispatcher, dispatch, parallel_group, sequential_group}
use llm_service.Tools.Dispatch.Results.{
  Agrees, first_failing, outcome, in_order, up_to_failing, started_after, dispatch-Agrees,
  dispatch-ran,
}
use llm_service.Tools.Selection
use llm_service.Tools.Selection.{
  Selected, selected_calls, normalize_selection, filter_default_tools, build_selected_calls,
}
use llm_service.Tools.Selection.Accepted.{filter_default_tools-accepted}

abbrev answer_of : String → Bool → ToolResult
answer_of name success = record {
  tool_name = name;
  success = success;
  data_json = some "{}";
  error = none;
  latency_ms = 0;
  metadata = [];
}

abbrev tool_named : String → Validated → ℕ → Tool
tool_named name checked duration = record {
  name = name;
  timeout_ms = 5000;
  schema = record {
    name = name;
    description = "a tool";
    required = "query" ∷ [];
    user_selectable = true;
  };
  is_available = true;
  validate_params = λ _. checked;
  duration = λ _. duration;
  execute = λ _. returned (answer_of name true);
}

abbrev search : Tool
search = tool_named "web_search" valid 300

abbrev calculator : Tool
calculator = tool_named "calculator" (invalid (some "no expression")) 1

abbrev slow : Tool
slow = tool_named "slow" valid 9000

abbrev calls : List Op
calls =
    register_tool search true
    ∷ register_tool calculator true
    ∷ register_tool slow false
    ∷ disable_tool "calculator"
    ∷ enable_tool "slow"
    ∷ []

run-refines_example :
    get "calculator" (run calls init) ≡ answer "calculator" (replay calls (λ _. none) "calculator")
run-refines_example = run-refines calls "calculator"

list_tools-total_example : is_some (list_tools (λ t. t) (some "tool") (run calls init)) ≡ true
list_tools-total_example = list_tools-total (λ t. t) (some "tool") calls

abbrev params : ToolParams
params = record {
  tool_name = "web_search";
  params = ("query", "news") ∷ [];
  trace_id = "t";
  user_id = "u";
  conversation_id = "c";
}

searched :
    execute search params none 301
    ≡ done (record (answer_of "web_search" true) { latency_ms = 301 })
unfolding execute Execution.after_validation Execution.wait_for_tool Execution.after_end
    effective_timeout
searched = refl

execute-success_example :
    (search.validate_params params ≡ valid)
    × (search.duration params ≤ effective_timeout none search)
    × (inner : ToolResult) × (search.execute params ≡ returned inner)
execute-success_example = execute-success search params none 301 searched refl

abbrev call_of : String → Bool → Bool → ToolCall
call_of name parallel required = record {
  tool_name = name;
  params = ("query", "news") ∷ [];
  parallel = parallel;
  required = required;
}

abbrev registry : Registry
registry = record {
  tools = ("web_search", search) ∷ ("calculator", calculator) ∷ ("slow", slow) ∷ [];
  enabled = "web_search" ∷ "calculator" ∷ "slow" ∷ [];
}

abbrev dispatcher : Dispatcher
dispatcher = record {
  registry = registry;
  latency = λ _. 1;
  trace_id = "t";
  user_id = "u";
  conversation_id = "c";
}

-- the slow tool is required, and the last call comes after it
abbrev requested : List ToolCall
requested =
    call_of "calculator" false false
    ∷ call_of "web_search" true true
    ∷ call_of "slow" false true
    ∷ call_of "web_search" false false
    ∷ []

dispatch-Agrees_example :
    Agrees
      (first_failing dispatcher (in_order requested))
      (map (outcome dispatcher) (in_order requested))
      (dispatch dispatcher requested).ended
dispatch-Agrees_example = dispatch-Agrees dispatcher requested

dispatch-ran_example :
    (dispatch dispatcher requested).ran
    ≡ parallel_group requested
      ++ started_after
          (first_failing dispatcher (parallel_group requested))
          (up_to_failing dispatcher (sequential_group requested))
dispatch-ran_example = dispatch-ran dispatcher requested

abbrev saved : Option (List String)
saved = some (" web_search " ∷ "unknown" ∷ "" ∷ "web_search" ∷ "slow" ∷ [])

filter_default_tools-accepted_example :
    (chosen : List ToolCall) × (build_selected_calls
        (some (filter_default_tools saved (some registry)).kept)
        (some registry)
        "news"
      ≡ selected_calls chosen)
    × (map (λ c. c.tool_name) chosen ≡ (filter_default_tools saved (some registry)).kept)
filter_default_tools-accepted_example = filter_default_tools-accepted saved registry "news"

abbrev chosen_call : String → ToolCall
chosen_call name = record (call_of name true true) { params = ("query", "news") ∷ [] }

selected :
    build_selected_calls (some (" web_search" ∷ "slow" ∷ [])) (some registry) "news"
    ≡ selected_calls (chosen_call "web_search" ∷ chosen_call "slow" ∷ [])
unfolding build_selected_calls Selection.build_for Selection.calls_for Selection.call_for
    Selection.add_call Selection.bind_params Selection.is_text_param Selection.is_empty
    Selection.max_selected_tools normalize_selection Selection.normalize_from Tools.add get
    Tools.get_from Tools.is_enabled
selected = refl

matches-word :
    (matches (λ t. t) (some "tool") search.schema ≡ true)
    × (matches (λ t. t) (some "a tool that") search.schema ≡ false)
unfolding matches
matches-word = (refl, refl)
