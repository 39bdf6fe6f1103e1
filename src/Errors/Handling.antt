-- ===== src/Errors/Handling.antt =====
-- What the classifier promises: which text a user may see, and which errors are fatal.
use Prim.Native.String.{◌++◌, slice, len}
use Prim.Native.Char.{Char}
use text.Mathlib.Text.{starts_with}
use text.Mathlib.TextPositions.{starts_with-append, slice-append_right, len-append}
use text.Mathlib.TextLemmas.{cons-append, append_assoc}
use llm_service.Prelude.{String, ◌≡◌, ◌∙◌, ◌≢◌, ◌↔◌, ◌⊎◌, true, false, List, [], ◌∷◌, arith}
use llm_service.Errors.{
  Exc, ExceptionClass, is_retriable_error, is_permanent_error, is_user_facing_error, type_name, str,
}
use llm_service.Errors.Classify.{
  classify, classify_by_marker, classify_by_name, remove_first, tool_message, grpc_message,
  busy_message, provider_message, delay_message, fatal_message, permanent_message,
  rate_limit_message, timeout_message, invalid_message, unexpected_message,
}

abbrev pub IsOneOf : String → List String → Type 0
IsOneOf m [] = ⊥
IsOneOf m (x ∷ xs) = (m ≡ x) ⊎ IsOneOf m xs

-- The fixed texts of the classifier.
abbrev pub fixed_messages : List String
fixed_messages =
    tool_message ∷ grpc_message ∷ busy_message ∷ provider_message ∷ delay_message ∷ fatal_message
    ∷ permanent_message ∷ rate_limit_message ∷ timeout_message ∷ invalid_message
    ∷ unexpected_message ∷ []

classify_by_name-IsOneOf :
    (name : String) → IsOneOf (classify_by_name name).user_message fixed_messages
unfolding classify_by_name
classify_by_name-IsOneOf name = ground arith

classify_by_name-is_fatal : (name : String) → (classify_by_name name).is_fatal ≡ false
unfolding classify_by_name
classify_by_name-is_fatal name = ground arith

remove_first-cons :
    (c : Char) (t old : String)
    → starts_with (String.◌∷◌ c t) old ≡ true
    → remove_first old (String.◌∷◌ c t) ≡ slice (String.◌∷◌ c t) (len old) (len (String.◌∷◌ c t))
unfolding remove_first
remove_first-cons c t old h = rw h

-- What a text begins with is removed whole.
remove_first-append :
    (c : Char) (old s : String) → remove_first (String.◌∷◌ c old) (String.◌∷◌ c old ++ s) ≡ s
remove_first-append c old s =
    let w : String = String.◌∷◌ c old in
    let e : w ++ s ≡ String.◌∷◌ c (old ++ s) = cons-append c old s in
    let starts : starts_with (String.◌∷◌ c (old ++ s)) w ≡ true =
      rw (← e) (starts_with-append w s) in
    let rest : slice (String.◌∷◌ c (old ++ s)) (len w) (len (String.◌∷◌ c (old ++ s))) ≡ s =
      rw (← e, len-append) (slice-append_right w s) in
    rw e (remove_first-cons c (old ++ s) w starts ∙ rest)

remove_first-code :
    (m : String)
    → remove_first "[CONTEXT_OVERFLOW] " ("[" ++ ("CONTEXT_OVERFLOW" ++ ("] " ++ m))) ≡ m
remove_first-code m =
    rw (← append_assoc, ← append_assoc) (remove_first-append "[" "CONTEXT_OVERFLOW] " m)

module _ (lower : String → String) (e : Exc) where
  -- An error that was not written for the user reaches them as one of eleven fixed texts, never with its own
  -- message: this holds of every class but the user-facing ones and ContextOverflowError.
  pub classify-IsOneOf :
      is_user_facing_error e.cls ≡ false
      → e.cls ≢ ExceptionClass.context_overflow_error
      → IsOneOf (classify lower e).user_message fixed_messages
  unfolding classify classify_by_marker is_retriable_error is_permanent_error is_user_facing_error
  classify-IsOneOf internal fits = ground (arith, classify_by_name-IsOneOf (type_name e.cls))

  -- Exactly FatalError is classified as fatal.
  classify-is_fatal : ((classify lower e).is_fatal ≡ true) ↔ (e.cls ≡ ExceptionClass.fatal_error)
  unfolding classify classify_by_marker is_retriable_error is_permanent_error
  classify-is_fatal = ground (arith, classify_by_name-is_fatal (type_name e.cls))

  -- A ContextOverflowError is shown by its message, without the code in front.
  pub classify-shown :
      e.cls ≡ ExceptionClass.context_overflow_error
      → e.error_code ≡ "CONTEXT_OVERFLOW"
      → (classify lower e).user_message ≡ e.message
  unfolding classify classify_by_marker is_retriable_error is_user_facing_error str
  classify-shown h code = ground (arith, remove_first-code e.message)
