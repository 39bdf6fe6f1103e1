-- ===== src/Errors.antt =====
-- The exception hierarchy (app/exceptions/*.py) and the built-in classes that the service tests for.
-- A Python exception is a record: its class and the attributes that handlers read. `isinstance` is a
-- Boolean test by clauses on the class.
pub mod Classify
pub mod Handling
mod Tests
use llm_service.Prelude.{ℕ, String, Bool, true, false, ◌||◌, Option, none, some}
use Prim.Native.String.{◌++◌}

pub data GrpcClass : Type 0 where
  grpc_error grpc_unavailable_error grpc_timeout_error : GrpcClass

pub data ProviderClass : Type 0 where
  provider_error all_providers_failed_error provider_timeout_error : ProviderClass
  provider_rate_limit_error circuit_open_error : ProviderClass

pub data ToolClass : Type 0 where
  tool_error required_tool_failed_error tool_timeout_error : ToolClass
  unknown_tool_error tool_validation_error : ToolClass

pub data AnalysisClass : Type 0 where
  analysis_error plan_parse_error critical_analysis_error unknown_mode_error : AnalysisClass

pub data UserFacingClass : Type 0 where
  user_facing_error invalid_tool_selection_error invalid_mode_error : UserFacingClass
  document_context_unavailable_error : UserFacingClass

-- `other name` is a class outside the hierarchy and the built-ins below, with that `__name__`.
pub data ExceptionClass : Type 0 where
  base_llm_service_error retriable_error permanent_error fatal_error : ExceptionClass
  context_overflow_error : ExceptionClass
  grpc : GrpcClass → ExceptionClass
  provider : ProviderClass → ExceptionClass
  tool : ToolClass → ExceptionClass
  analysis : AnalysisClass → ExceptionClass
  user_facing : UserFacingClass → ExceptionClass
  timeout_error connection_error os_error : ExceptionClass
  other : String → ExceptionClass

-- `status_code` and `grpc_code` are `none` where the attribute is missing or None; `user_message` is
-- read for a user-facing class only.
pub record Exc : Type 0 where
  pub cls : ExceptionClass
  pub error_code : String
  pub message : String
  pub user_message : String
  pub status_code : Option ℕ
  pub grpc_code : Option String

-- isinstance(exc, RetriableError)
unfoldable pub is_retriable_error : ExceptionClass → Bool
is_retriable_error retriable_error = true
is_retriable_error (grpc grpc_unavailable_error) = true
is_retriable_error (grpc grpc_timeout_error) = true
is_retriable_error (provider provider_timeout_error) = true
is_retriable_error (provider provider_rate_limit_error) = true
is_retriable_error (tool tool_timeout_error) = true
is_retriable_error _ = false

-- isinstance(exc, PermanentError)
unfoldable pub is_permanent_error : ExceptionClass → Bool
is_permanent_error permanent_error = true
is_permanent_error context_overflow_error = true
is_permanent_error (provider all_providers_failed_error) = true
is_permanent_error (provider circuit_open_error) = true
is_permanent_error (tool required_tool_failed_error) = true
is_permanent_error (tool unknown_tool_error) = true
is_permanent_error (tool tool_validation_error) = true
is_permanent_error (analysis analysis_error) = false
is_permanent_error (analysis _) = true
is_permanent_error (user_facing _) = true
is_permanent_error _ = false

-- isinstance(exc, OSError): the built-in TimeoutError and ConnectionError are subclasses.
unfoldable pub is_os_error : ExceptionClass → Bool
is_os_error timeout_error = true
is_os_error connection_error = true
is_os_error os_error = true
is_os_error _ = false

-- isinstance(exc, UserFacingError)
unfoldable pub is_user_facing_error : ExceptionClass → Bool
is_user_facing_error (user_facing _) = true
is_user_facing_error _ = false

-- type(exc).__name__
unfoldable pub type_name : ExceptionClass → String
type_name base_llm_service_error = "BaseLLMServiceError"
type_name retriable_error = "RetriableError"
type_name permanent_error = "PermanentError"
type_name fatal_error = "FatalError"
type_name context_overflow_error = "ContextOverflowError"
type_name (grpc grpc_error) = "GRPCError"
type_name (grpc grpc_unavailable_error) = "GRPCUnavailableError"
type_name (grpc grpc_timeout_error) = "GRPCTimeoutError"
type_name (provider provider_error) = "ProviderError"
type_name (provider all_providers_failed_error) = "AllProvidersFailedError"
type_name (provider provider_timeout_error) = "ProviderTimeoutError"
type_name (provider provider_rate_limit_error) = "ProviderRateLimitError"
type_name (provider circuit_open_error) = "CircuitOpenError"
type_name (tool tool_error) = "ToolError"
type_name (tool required_tool_failed_error) = "RequiredToolFailedError"
type_name (tool tool_timeout_error) = "ToolTimeoutError"
type_name (tool unknown_tool_error) = "UnknownToolError"
type_name (tool tool_validation_error) = "ToolValidationError"
type_name (analysis analysis_error) = "AnalysisError"
type_name (analysis plan_parse_error) = "PlanParseError"
type_name (analysis critical_analysis_error) = "CriticalAnalysisError"
type_name (analysis unknown_mode_error) = "UnknownModeError"
type_name (user_facing user_facing_error) = "UserFacingError"
type_name (user_facing invalid_tool_selection_error) = "InvalidToolSelectionError"
type_name (user_facing invalid_mode_error) = "InvalidModeError"
type_name (user_facing document_context_unavailable_error) = "DocumentContextUnavailableError"
type_name timeout_error = "TimeoutError"
type_name connection_error = "ConnectionError"
type_name os_error = "OSError"
type_name (other name) = name

-- BaseLLMServiceError.__str__; the built-in classes give their message.
unfoldable pub str : Exc → String
str e = elim e.cls [
  | timeout_error ↦ e.message
  | connection_error ↦ e.message
  | os_error ↦ e.message
  | other _ ↦ e.message
  | _ ↦ "[" ++ (e.error_code ++ ("] " ++ e.message))
]

-- An exception of a class with its code and its message, and no further attributes.
abbrev pub make_error : ExceptionClass → String → String → Exc
make_error cls code message = record {
  cls = cls;
  error_code = code;
  message = message;
  user_message = "";
  status_code = none;
  grpc_code = none;
}
