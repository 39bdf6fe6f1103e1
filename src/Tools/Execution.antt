-- ===== src/Tools/Execution.antt =====
-- The execution of one tool (app/tools/executor.py) and the normal form of an error
-- (`normalize_error` of app/tools/normalizer.py). `latency` is what the clock measures.
use Prim.Native.String.{◌++◌ as append}
use llm_service.Prelude.{
  ℕ, ◌≤◌, ◌≡◌, refl, String, true, false, Option, none, some, [], ◌∷◌, if◌then◌else◌, ltb, ◌==◌,
  decimal, Dict, arith, Bool-cases, inl, inr,
}
use llm_service.Tools.{
  Tool, ToolParams, ToolResult, Validated, valid, invalid, validator_raised, ToolEnd, returned,
  timeout_raised, raised,
}

unfoldable pub normalize_error : String → String → ℕ → Dict String → ToolResult
normalize_error tool_name error_message latency metadata = record {
  tool_name = tool_name;
  success = false;
  data_json = none;
  error = some error_message;
  latency_ms = latency;
  metadata = metadata;
}

-- `timeout_ms or tool.timeout_ms`
unfoldable pub effective_timeout : Option ℕ → Tool → ℕ
effective_timeout none tool = tool.timeout_ms
effective_timeout (some t) tool = if t == 0 then tool.timeout_ms else t

-- a result, or the text of an exception that leaves `execute`
pub data Executed : Type 0 where
  done : ToolResult → Executed
  escaped : String → Executed

-- an optional text in an f-string
unfoldable pub text_of : Option String → String
text_of none = "None"
text_of (some t) = t

unfoldable pub timed_out : Tool → ℕ → ℕ → ToolResult
timed_out tool timeout latency =
    normalize_error tool.name (append "Tool timed out after " (append (decimal timeout) "ms"))
      latency (("timed_out", "true") ∷ [])

unfoldable pub after_end : Tool → ℕ → ℕ → ToolEnd → ToolResult
after_end tool timeout latency (returned result) = record result { latency_ms = latency }
after_end tool timeout latency timeout_raised = timed_out tool timeout latency
after_end tool timeout latency (raised text) =
    normalize_error tool.name (append "Tool error: " text) latency []

-- `asyncio.wait_for` stops a tool that takes longer than the timeout
unfoldable pub wait_for_tool : Tool → ToolParams → ℕ → ℕ → ToolResult
wait_for_tool tool params timeout latency =
    if ltb timeout (tool.duration params)
    then timed_out tool timeout latency
    else after_end tool timeout latency (tool.execute params)

unfoldable pub after_validation : Tool → ToolParams → ℕ → ℕ → Validated → Executed
after_validation tool params timeout latency valid =
    done (wait_for_tool tool params timeout latency)
after_validation tool params timeout latency (invalid error) =
    done (normalize_error tool.name (append "Validation failed: " (text_of error)) latency [])
after_validation tool params timeout latency (validator_raised text) = escaped text

unfoldable pub execute : Tool → ToolParams → Option ℕ → ℕ → Executed
execute tool params timeout_ms latency =
    after_validation tool params (effective_timeout timeout_ms tool) latency
      (tool.validate_params params)

after_end-success :
    (tool : Tool) (timeout latency : ℕ) (end : ToolEnd)
    → (after_end tool timeout latency end).success ≡ true
    → (result : ToolResult) × (end ≡ returned result)
unfolding after_end timed_out normalize_error
after_end-success tool timeout latency (returned result) h = (result, refl)
after_end-success tool timeout latency timeout_raised h = ground (arith, h)
after_end-success tool timeout latency (raised text) h = ground (arith, h)

wait_for_tool-success :
    (tool : Tool) (params : ToolParams) (timeout latency : ℕ)
    → (wait_for_tool tool params timeout latency).success ≡ true
    → (tool.duration params ≤ timeout)
      × (result : ToolResult) × (tool.execute params ≡ returned result)
unfolding wait_for_tool timed_out normalize_error
wait_for_tool-success tool params timeout latency h =
    elim (Bool-cases (ltb timeout (tool.duration params))) [
      | inl e ↦ ground (arith, h, e)
      | inr e ↦
          let inner = after_end-success tool timeout latency (tool.execute params) (rw e at h) in
          (ground (arith, e), inner.0, inner.1)
    ]

after_validation-success :
    (tool : Tool) (params : ToolParams) (timeout latency : ℕ) (checked : Validated)
    (result : ToolResult)
    → after_validation tool params timeout latency checked ≡ done result
    → result.success ≡ true
    → (checked ≡ valid) × (result ≡ wait_for_tool tool params timeout latency)
unfolding after_validation normalize_error
after_validation-success tool params timeout latency valid result e h = (refl, ground (arith, e))
after_validation-success tool params timeout latency (invalid error) result e h =
    ground (arith, e, h)
after_validation-success tool params timeout latency (validator_raised text) result e h =
    ground (arith, e)

-- The executor reports a success only for a tool whose parameters are valid, that ended within the
-- timeout (its own, where the call gives none or 0), and that returned a result itself: a timeout,
-- an exception and a failed validation are never reported as a success.
pub execute-success :
    (tool : Tool) (params : ToolParams) (timeout_ms : Option ℕ) (latency : ℕ) {result : ToolResult}
    → execute tool params timeout_ms latency ≡ done result
    → result.success ≡ true
    → (tool.validate_params params ≡ valid)
      × (tool.duration params ≤ effective_timeout timeout_ms tool)
      × (inner : ToolResult) × (tool.execute params ≡ returned inner)
unfolding execute
execute-success tool params timeout_ms latency {result} e h =
    let timeout = effective_timeout timeout_ms tool in
    let checked =
      after_validation-success tool params timeout latency (tool.validate_params params) result e
        h in
    let inner = wait_for_tool-success tool params timeout latency (rw checked.1 at h) in
    (checked.0, inner.0, inner.1, inner.2)
