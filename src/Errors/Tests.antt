-- ===== src/Errors/Tests.antt =====
-- Witnesses for the error handler.
use llm_service.Prelude.{◌≡◌, refl, String}
use llm_service.Errors.{Exc, ExceptionClass, ProviderClass, make_error}
use llm_service.Errors.Classify.{classify}
use llm_service.Errors.Handling.{classify-shown}

-- a text is taken as it is
abbrev lower : String → String
lower text = text

abbrev rate_limited : Exc
rate_limited =
    make_error (ExceptionClass.provider ProviderClass.provider_rate_limit_error) "RATE"
      "429 from upstream"

abbrev overflow : Exc
overflow =
    make_error ExceptionClass.context_overflow_error "CONTEXT_OVERFLOW" "Your message is too long."

classify-shown_example : (classify lower overflow).user_message ≡ "Your message is too long."
classify-shown_example = classify-shown lower overflow refl refl
