-- ===== src/Errors/Classify.antt =====
-- ErrorHandler.classify (app/utils/error_handler.py): one verdict for each exception.
use Prim.Native.String.{slice, len}
use text.Mathlib.Text.{find?, starts_with}
use llm_service.Prelude.{String, Bool, true, false, [], ◌∷◌, contains, is_some, if◌then◌else◌}
use llm_service.Errors.{
  Exc, ExceptionClass, UserFacingClass, is_retriable_error, is_permanent_error, type_name, str,
}

-- app/models/response.py: ErrorType
pub data ErrorType : Type 0 where
  validation analysis tool inference publish graph_loop grpc unexpected : ErrorType

pub record ErrorClassification : Type 0 where
  pub error_type : ErrorType
  pub error_code : String
  pub is_retriable : Bool
  pub is_fatal : Bool
  pub user_message : String

-- the class attribute `error_type` of the user-facing errors
unfoldable pub user_facing_error_type : UserFacingClass → ErrorType
user_facing_error_type UserFacingClass.invalid_tool_selection_error = ErrorType.tool
user_facing_error_type UserFacingClass.document_context_unavailable_error = ErrorType.grpc
user_facing_error_type _ = ErrorType.validation

-- `text.replace(old, "", 1)` for a nonempty `old`
unfoldable pub remove_first : String → String → String
remove_first old String.[] = String.[]
remove_first old (String.◌∷◌ c s) =
    if starts_with (String.◌∷◌ c s) old
    then slice (String.◌∷◌ c s) (len old) (len (String.◌∷◌ c s))
    else String.◌∷◌ c (remove_first old s)

abbrev pub tool_message : String
tool_message = "A tool execution error occurred."

abbrev pub grpc_message : String
grpc_message = "Upstream context service temporarily unavailable."

abbrev pub busy_message : String
busy_message =
    "The AI providers are busy (rate limit reached). Please wait a few seconds and try again."

abbrev pub provider_message : String
provider_message = "Upstream AI provider error occurred."

abbrev pub delay_message : String
delay_message = "Service is temporarily unavailable due to upstream delay. Retrying..."

abbrev pub fatal_message : String
fatal_message = "A critical service configuration error occurred."

abbrev pub permanent_message : String
permanent_message = "Unable to complete request with provided input."

abbrev pub rate_limit_message : String
rate_limit_message = "Rate limit reached. Please wait a moment and try again."

abbrev pub timeout_message : String
timeout_message = "The operation timed out. Please try again."

abbrev pub invalid_message : String
invalid_message = "Invalid request format."

abbrev pub unexpected_message : String
unexpected_message = "An unexpected error occurred while processing your request."

-- The tests on `type(exc).__name__` and the default, in the order of the source.
unfoldable pub classify_by_name : String → ErrorClassification
classify_by_name name =
    if contains name ("RateLimitError" ∷ "ProviderRateLimitError" ∷ "TooManyRequests" ∷ [])
    then record {
      error_type = ErrorType.inference;
      error_code = "RATE_LIMIT_EXCEEDED";
      is_retriable = true;
      is_fatal = false;
      user_message = rate_limit_message;
    }
    else if contains name
        ("TimeoutError" ∷ "ProviderTimeoutError" ∷ "GRPCTimeoutError" ∷ "ToolTimeoutError" ∷ [])
    then record {
      error_type = ErrorType.inference;
      error_code = "OPERATION_TIMEOUT";
      is_retriable = true;
      is_fatal = false;
      user_message = timeout_message;
    }
    else if contains name ("ValidationError" ∷ "ToolValidationError" ∷ "PlanParseError" ∷ [])
    then record {
      error_type = ErrorType.validation;
      error_code = "VALIDATION_FAILED";
      is_retriable = false;
      is_fatal = false;
      user_message = invalid_message;
    }
    else record {
      error_type = ErrorType.unexpected;
      error_code = "UNEXPECTED_ERROR";
      is_retriable = false;
      is_fatal = false;
      user_message = unexpected_message;
    }

-- Python's `str.lower` is a parameter.
module _ (lower : String → String) where
  -- "rate limit" in str(exc).lower()
  unfoldable pub mentions_rate_limit : Exc → Bool
  mentions_rate_limit e = is_some (find? (lower (str e)) "rate limit")

  -- the general taxonomy markers, below the domain hierarchies
  unfoldable pub classify_by_marker : Exc → ErrorClassification
  classify_by_marker e =
      if is_retriable_error e.cls
      then record {
        error_type = ErrorType.inference;
        error_code = e.error_code;
        is_retriable = true;
        is_fatal = false;
        user_message = delay_message;
      }
      else elim e.cls [
        | ExceptionClass.fatal_error ↦ record {
          error_type = ErrorType.unexpected;
          error_code = e.error_code;
          is_retriable = false;
          is_fatal = true;
          user_message = fatal_message;
        }
        | ExceptionClass.context_overflow_error ↦ record {
          error_type = ErrorType.analysis;
          error_code = "CONTEXT_OVERFLOW";
          is_retriable = false;
          is_fatal = false;
          user_message = remove_first "[CONTEXT_OVERFLOW] " (str e);
        }
        | cls ↦
            if is_permanent_error cls
            then record {
              error_type = ErrorType.analysis;
              error_code = e.error_code;
              is_retriable = false;
              is_fatal = false;
              user_message = permanent_message;
            }
            else classify_by_name (type_name cls)
      ]

  unfoldable pub classify : Exc → ErrorClassification
  classify e = elim e.cls [
    | ExceptionClass.user_facing c ↦ record {
      error_type = user_facing_error_type c;
      error_code = e.error_code;
      is_retriable = false;
      is_fatal = false;
      user_message = e.user_message;
    }
    | ExceptionClass.tool c ↦ record {
      error_type = ErrorType.tool;
      error_code = e.error_code;
      is_retriable = is_retriable_error (ExceptionClass.tool c);
      is_fatal = false;
      user_message = tool_message;
    }
    | ExceptionClass.grpc c ↦ record {
      error_type = ErrorType.grpc;
      error_code = e.error_code;
      is_retriable = is_retriable_error (ExceptionClass.grpc c);
      is_fatal = false;
      user_message = grpc_message;
    }
    | ExceptionClass.provider c ↦
        if mentions_rate_limit e
        then record {
          error_type = ErrorType.inference;
          error_code = "RATE_LIMIT_EXCEEDED";
          is_retriable = true;
          is_fatal = false;
          user_message = busy_message;
        }
        else record {
          error_type = ErrorType.inference;
          error_code = e.error_code;
          is_retriable = is_retriable_error (ExceptionClass.provider c);
          is_fatal = false;
          user_message = provider_message;
        }
    | _ ↦ classify_by_marker e
  ]
