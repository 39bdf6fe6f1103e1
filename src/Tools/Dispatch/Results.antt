-- ===== src/Tools/Dispatch/Results.antt =====
-- What a dispatch returns and which calls it executes, against a description by lists.
use Prim.Native.String.{◌++◌ as append}
use llm_service.Prelude.{
  ◌≡◌, refl, ap, sym, String, Bool, true, false, not, ◌&&◌, Option, none, some, List, [], ◌∷◌, ◌++◌,
  map, if◌then◌else◌, arith, Bool-cases, inl, inr,
}
use mathlib.Core.List.{append-nil}
use llm_service.Tools.{ToolResult}
use llm_service.Tools.Execution.{normalize_error, Executed, done, escaped, text_of}
use llm_service.Tools.Dispatch.{
  ToolCall, Dispatcher, execute_single_tool, kept, refused, failure_text, settle_parallel,
  settle_sequential, Ended, results, required_failed, add_result, collect_next, collect,
  dispatch_parallel, sequential_next, dispatch_sequential, extend_results, after_parallel,
  parallel_group, sequential_group, dispatch,
}

-- the result of a call by itself, an exception in its normal form
unfoldable pub result_of : ToolCall → Executed → ToolResult
result_of call (done r) = r
result_of call (escaped text) = normalize_error call.tool_name text 0 []

unfoldable pub outcome : Dispatcher → ToolCall → ToolResult
outcome d call = result_of call (execute_single_tool d call)

unfoldable pub fails : Dispatcher → ToolCall → Bool
fails d call = call.required && not (outcome d call).success

-- the first call that is required and fails
unfoldable pub first_failing : Dispatcher → List ToolCall → Option String
first_failing d [] = none
first_failing d (call ∷ calls) = if fails d call then some call.tool_name else first_failing d calls

-- the calls up to the first that is required and fails, with it
unfoldable pub up_to_failing : Dispatcher → List ToolCall → List ToolCall
up_to_failing d [] = []
up_to_failing d (call ∷ calls) = if fails d call then call ∷ [] else call ∷ up_to_failing d calls

-- a dispatch ends with these results, or with an error for this tool
pub data Agrees : Option String → List ToolResult → Ended → Type 0 where
  all_kept : {rs : List ToolResult} → Agrees none rs (results rs)
  one_refused :
      {name text : String} {rs : List ToolResult}
      → Agrees (some name) rs (required_failed name text)

-- the test of `fails`, on what the execution of a call gave
abbrev fails_with : ToolCall → Executed → Bool
fails_with call e = call.required && not (result_of call e).success

settle_parallel-kept :
    (call : ToolCall) (e : Executed)
    → fails_with call e ≡ false
    → settle_parallel call e ≡ kept (result_of call e)
unfolding settle_parallel result_of normalize_error
settle_parallel-kept call (done r) h = ground (arith, h)
settle_parallel-kept call (escaped text) h = ground (arith, h)

settle_sequential-kept :
    (call : ToolCall) (e : Executed)
    → fails_with call e ≡ false
    → settle_sequential call e ≡ kept (result_of call e)
unfolding settle_sequential result_of normalize_error
settle_sequential-kept call (done r) h = ground (arith, h)
settle_sequential-kept call (escaped text) h = ground (arith, h)

settle_parallel-refused :
    (call : ToolCall) (e : Executed)
    → fails_with call e ≡ true
    → (text : String) × (settle_parallel call e ≡ refused text)
unfolding settle_parallel result_of normalize_error
settle_parallel-refused call (done r) h =
    (failure_text call.tool_name "execution failed: " (text_of r.error), ground (arith, h))
settle_parallel-refused call (escaped text) h =
    (failure_text call.tool_name "failed: " text, ground (arith, h))

settle_sequential-refused :
    (call : ToolCall) (e : Executed)
    → fails_with call e ≡ true
    → (text : String) × (settle_sequential call e ≡ refused text)
unfolding settle_sequential result_of normalize_error
settle_sequential-refused call (done r) h = (
  failure_text call.tool_name "raised: " (
      append "[REQUIRED_TOOL_FAILED] "
        (failure_text call.tool_name "execution failed: " (text_of r.error))),
  ground (arith, h),
)
settle_sequential-refused call (escaped text) h =
    (failure_text call.tool_name "raised: " text, ground (arith, h))

add_result-Agrees :
    (r : ToolResult) {n : Option String} {rs : List ToolResult} {e : Ended}
    → Agrees n rs e
    → Agrees n (r ∷ rs) (add_result r e)
unfolding add_result
add_result-Agrees r all_kept = all_kept
add_result-Agrees r one_refused = one_refused

collect-Agrees :
    (d : Dispatcher) (calls : List ToolCall)
    → Agrees (first_failing d calls) (map (outcome d) calls) (collect d calls)
unfolding collect collect_next first_failing fails outcome
collect-Agrees d [] = all_kept
collect-Agrees d (call ∷ calls) =
    let e = execute_single_tool d call in
    elim (Bool-cases (fails_with call e)) [
      | inl q ↦ rw (q, (settle_parallel-refused call e q).1) one_refused
      | inr q ↦ rw (q, settle_parallel-kept call e q) (add_result-Agrees _ (collect-Agrees d calls))
    ]

sequential-Agrees :
    (d : Dispatcher) (calls : List ToolCall)
    → Agrees (first_failing d calls) (map (outcome d) calls) (dispatch_sequential d calls).ended
unfolding dispatch_sequential sequential_next first_failing fails outcome
sequential-Agrees d [] = all_kept
sequential-Agrees d (call ∷ calls) =
    let e = execute_single_tool d call in
    elim (Bool-cases (fails_with call e)) [
      | inl q ↦ rw (q, (settle_sequential-refused call e q).1) one_refused
      | inr q ↦
          rw (q, settle_sequential-kept call e q) (add_result-Agrees _ (sequential-Agrees d calls))
    ]

sequential-ran :
    (d : Dispatcher) (calls : List ToolCall)
    → (dispatch_sequential d calls).ran ≡ up_to_failing d calls
unfolding dispatch_sequential sequential_next up_to_failing fails outcome
sequential-ran d [] = refl
sequential-ran d (call ∷ calls) =
    let e = execute_single_tool d call in
    elim (Bool-cases (fails_with call e)) [
      | inl q ↦ rw (q, (settle_sequential-refused call e q).1) refl
      | inr q ↦ rw (q, settle_sequential-kept call e q, sequential-ran d calls) refl
    ]

extend_results-Agrees :
    (rs : List ToolResult) {n : Option String} {more : List ToolResult} {e : Ended}
    → Agrees n more e
    → Agrees n (rs ++ more) (extend_results rs e)
unfolding extend_results
extend_results-Agrees rs all_kept = all_kept
extend_results-Agrees rs one_refused = one_refused

-- the first answer that there is
unfoldable or_else : Option String → Option String → Option String
or_else none later = later
or_else (some name) later = some name

first_failing-append :
    (d : Dispatcher) (xs ys : List ToolCall)
    → first_failing d (xs ++ ys) ≡ or_else (first_failing d xs) (first_failing d ys)
unfolding first_failing or_else
first_failing-append d [] ys = refl
first_failing-append d (x ∷ xs) ys = ground (arith, first_failing-append d xs ys)

map-append :
    (d : Dispatcher) (xs ys : List ToolCall)
    → map (outcome d) (xs ++ ys) ≡ map (outcome d) xs ++ map (outcome d) ys
map-append d [] ys = refl
map-append d (x ∷ xs) ys = ap (outcome d x ∷◌) (map-append d xs ys)

after_parallel-Agrees :
    (d : Dispatcher) (ran calls : List ToolCall) {n : Option String} {rs : List ToolResult}
    {e : Ended}
    → Agrees n rs e
    → Agrees
        (or_else n (first_failing d calls))
        (rs ++ map (outcome d) calls)
        (after_parallel d ran calls e).ended
unfolding after_parallel or_else
after_parallel-Agrees d ran calls all_kept = extend_results-Agrees _ (sequential-Agrees d calls)
after_parallel-Agrees d ran calls one_refused = one_refused

-- the calls in the order in which their results are given
unfoldable pub in_order : List ToolCall → List ToolCall
in_order tools = parallel_group tools ++ sequential_group tools

-- A dispatch gives one result for each call, the parallel calls first and each group in its order,
-- unless a required call fails: then it raises the error for the first such call in that order. An
-- optional call that fails, or whose validation raises, gives an error result and stops nothing.
pub dispatch-Agrees :
    (d : Dispatcher) (tools : List ToolCall)
    → Agrees
        (first_failing d (in_order tools))
        (map (outcome d) (in_order tools))
        (dispatch d tools).ended
unfolding dispatch dispatch_parallel in_order
dispatch-Agrees d tools =
    let calls = sequential_group tools in
    rw
      (
        first_failing-append d (parallel_group tools) calls,
        map-append d (parallel_group tools) calls,
      )
      (after_parallel-Agrees d (parallel_group tools) calls
        (collect-Agrees d (parallel_group tools)))

-- the sequential calls that are executed, when the parallel ones end so
unfoldable pub started_after : Option String → List ToolCall → List ToolCall
started_after none calls = calls
started_after (some name) calls = []

after_parallel-ran :
    (d : Dispatcher) (ran calls : List ToolCall) {n : Option String} {rs : List ToolResult}
    {e : Ended}
    → Agrees n rs e
    → (after_parallel d ran calls e).ran ≡ ran ++ started_after n (up_to_failing d calls)
unfolding after_parallel started_after
after_parallel-ran d ran calls all_kept = ap (ran ++◌) (sequential-ran d calls)
after_parallel-ran d ran calls one_refused = sym (append-nil ran)

-- A dispatch executes every parallel call, whether others fail or not. It executes the sequential
-- calls only when no required parallel call failed, and then up to the first of them that is
-- required and fails, and none after it.
pub dispatch-ran :
    (d : Dispatcher) (tools : List ToolCall)
    → (dispatch d tools).ran
      ≡ parallel_group tools
        ++ started_after
            (first_failing d (parallel_group tools))
            (up_to_failing d (sequential_group tools))
unfolding dispatch dispatch_parallel
dispatch-ran d tools =
    after_parallel-ran d (parallel_group tools) (sequential_group tools)
      (collect-Agrees d (parallel_group tools))
