-- ===== src/Tools/Dispatch.antt =====
-- The dispatcher of tool calls (app/tools/dispatcher.py): the parallel calls first, then the
-- sequential ones, with an error for a required call that fails. Each run also gives the calls that
-- were executed; the order among the parallel ones is the order in which their tasks are made.
pub mod Results
use Prim.Native.String.{◌++◌ as append}
use llm_service.Prelude.{
  ℕ, ◌≡◌, refl, String, Bool, true, false, not, ◌&&◌, Option, none, some, List, [], ◌∷◌, ◌++◌, map,
  filter, if◌then◌else◌, Dict, arith, Bool-cases, inl, inr,
}
use llm_service.Tools.{Registry, Tool, ToolParams, ToolResult, Found, found, unknown, get}
use llm_service.Tools.Execution.{normalize_error, Executed, done, escaped, text_of, execute}

pub record ToolCall : Type 0 where
  pub tool_name : String
  pub params : Dict String
  pub parallel : Bool
  pub required : Bool

-- the registry and the ids of a dispatch; `latency` is what the clock measures for a call
pub record Dispatcher : Type 0 where
  pub registry : Registry
  pub latency : ToolParams → ℕ
  pub trace_id : String
  pub user_id : String
  pub conversation_id : String

unfoldable pub params_of : Dispatcher → ToolCall → ToolParams
params_of d call = record {
  tool_name = call.tool_name;
  params = call.params;
  trace_id = d.trace_id;
  user_id = d.user_id;
  conversation_id = d.conversation_id;
}

unfoldable pub execute_found : Dispatcher → ToolCall → Found → Executed
execute_found d call (unknown text) =
    done (normalize_error call.tool_name (append "[UNKNOWN_TOOL] " text) 0 [])
execute_found d call (found tool) =
    let params = params_of d call in execute tool params none (d.latency params)

unfoldable pub execute_single_tool : Dispatcher → ToolCall → Executed
execute_single_tool d call = execute_found d call (get call.tool_name d.registry)

-- a result that is kept, or the text of a RequiredToolFailedError
pub data Settled : Type 0 where
  kept : ToolResult → Settled
  refused : String → Settled

unfoldable pub failure_text : String → String → String → String
failure_text name what text =
    append "Required tool '" (append name (append "' " (append what text)))

unfoldable pub settle_parallel : ToolCall → Executed → Settled
settle_parallel call (escaped text) =
    if call.required
    then refused (failure_text call.tool_name "failed: " text)
    else kept (normalize_error call.tool_name text 0 [])
settle_parallel call (done result) =
    if not result.success && call.required
    then refused (failure_text call.tool_name "execution failed: " (text_of result.error))
    else kept result

-- the handler of the sequential loop catches its own error and raises it again with a longer text,
-- in which the code of the first stands before its message
unfoldable pub settle_sequential : ToolCall → Executed → Settled
settle_sequential call (escaped text) =
    if call.required
    then refused (failure_text call.tool_name "raised: " text)
    else kept (normalize_error call.tool_name text 0 [])
settle_sequential call (done result) =
    if not result.success && call.required
    then refused (
        failure_text call.tool_name "raised: " (
          append "[REQUIRED_TOOL_FAILED] "
            (failure_text call.tool_name "execution failed: " (text_of result.error))))
    else kept result

-- what a dispatch returns, or the tool and the text of its RequiredToolFailedError
pub data Ended : Type 0 where
  results : List ToolResult → Ended
  required_failed : String → String → Ended

pub record Progress : Type 0 where
  pub ran : List ToolCall
  pub ended : Ended

unfoldable pub add_result : ToolResult → Ended → Ended
add_result r (results rs) = results (r ∷ rs)
add_result r (required_failed name text) = required_failed name text

-- the loop over the results of `asyncio.gather`
unfoldable pub collect_next : ToolCall → Settled → Ended → Ended
collect_next call (kept r) later = add_result r later
collect_next call (refused text) later = required_failed call.tool_name text

unfoldable pub collect : Dispatcher → List ToolCall → Ended
collect d [] = results []
collect d (call ∷ calls) =
    collect_next call (settle_parallel call (execute_single_tool d call)) (collect d calls)

unfoldable pub dispatch_parallel : Dispatcher → List ToolCall → Progress
dispatch_parallel d calls = record { ran = calls; ended = collect d calls }

-- one sequential call, before the rest of them
unfoldable pub sequential_next : ToolCall → Settled → Progress → Progress
sequential_next call (kept r) later = record {
  ran = call ∷ later.ran;
  ended = add_result r later.ended;
}
sequential_next call (refused text) later = record {
  ran = call ∷ [];
  ended = required_failed call.tool_name text;
}

unfoldable pub dispatch_sequential : Dispatcher → List ToolCall → Progress
dispatch_sequential d [] = record { ran = []; ended = results [] }
dispatch_sequential d (call ∷ calls) =
    sequential_next call (settle_sequential call (execute_single_tool d call))
      (dispatch_sequential d calls)

unfoldable pub extend_results : List ToolResult → Ended → Ended
extend_results rs (results more) = results (rs ++ more)
extend_results rs (required_failed name text) = required_failed name text

unfoldable pub after_parallel : Dispatcher → List ToolCall → List ToolCall → Ended → Progress
after_parallel d ran calls (required_failed name text) = record {
  ran = ran;
  ended = required_failed name text;
}
after_parallel d ran calls (results rs) =
    let later = dispatch_sequential d calls in
    record { ran = ran ++ later.ran; ended = extend_results rs later.ended }

unfoldable pub parallel_group : List ToolCall → List ToolCall
parallel_group = filter (λ c. c.parallel)

unfoldable pub sequential_group : List ToolCall → List ToolCall
sequential_group = filter (λ c. not c.parallel)

-- an empty group is not dispatched, which is as good as dispatching nothing
unfoldable pub dispatch : Dispatcher → List ToolCall → Progress
dispatch d tools =
    let first = dispatch_parallel d (parallel_group tools) in
    after_parallel d first.ran (sequential_group tools) first.ended
