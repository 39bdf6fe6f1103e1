-- ===== src/Context/Manager.antt =====
-- The context window manager (app/context_window/manager.py) with its budget calculator
-- (app/context_window/budget.py): the limits of the models, and one prompt cut to its budget.
-- `shrink` is `int(window * 0.95)`. The quotas of the sections, which nothing reads, are left out.
pub mod Budgets
use llm_service.Prelude.{
  ℕ, ◌-◌, ◌/◌, min, max, String, Bool, true, false, not, Option, none, some, List, [], ◌∷◌, ◌++◌,
  if◌then◌else◌, ltb, ◌==◌, length, Dict, lookup, insert, contains,
}
use llm_service.Context.BudgetPolicy.{ModelLimits}
use llm_service.Context.Tokens.{Tokenizer, ChatMessage}
use llm_service.Context.Sections.{PromptSection}
use llm_service.Context.Compose.{compose_messages}
use llm_service.Context.Trimmer.{TrimContext, total_tokens, TrimResult, trimmed, overflow, trim}

pub record Manager : Type 0 where
  pub tokenizer : Tokenizer
  -- `str.capitalize` and `str.lower`
  pub capitalize : String → String
  pub lower : String → String
  pub shrink : ℕ → ℕ
  pub history_as_messages : Bool
  pub provider_limits : Dict ModelLimits
  pub default_limits : ModelLimits
  pub warned_unknown : List String

unfoldable pub register_model_limits : String → ModelLimits → Manager → Manager
register_model_limits model limits m = record m {
  provider_limits = insert model limits m.provider_limits;
}

-- the settings of `apply_config`; `provider` is the part of a name before its colon, or "groq"
pub record WindowConfig : Type 0 where
  pub context_model_windows : Dict ℕ
  pub context_unknown_model_window_tokens : ℕ
  pub context_output_token_reserve : ℕ
  pub provider_part : String → String

unfoldable pub window_limits : WindowConfig → String → ℕ → ModelLimits
window_limits c model window = record {
  context_window = window;
  max_output_tokens = min c.context_output_token_reserve (max 256 (window / 4));
  provider = c.provider_part model;
}

unfoldable pub apply_windows : WindowConfig → Dict ℕ → Manager → Manager
apply_windows c [] m = m
apply_windows c ((model, window) ∷ rest) m =
    apply_windows c rest (register_model_limits model (window_limits c model window) m)

unfoldable pub apply_config : WindowConfig → Manager → Manager
apply_config c m = record (apply_windows c c.context_model_windows m) {
  default_limits = record {
    context_window = c.context_unknown_model_window_tokens;
    max_output_tokens = min 1024 (max 256 (c.context_unknown_model_window_tokens / 4));
    provider = "nvidia";
  };
}

unfoldable pub limits_or_default : ModelLimits → Option ModelLimits → ModelLimits
limits_or_default limits none = limits
limits_or_default limits (some found) = found

-- without the state of the warnings
unfoldable pub get_model_limits : Manager → String → ModelLimits
get_model_limits m model = limits_or_default m.default_limits (lookup model m.provider_limits)

-- a model without limits is warned of once
unfoldable pub warn_unknown : String → Option ModelLimits → Manager → Manager
warn_unknown model (some limits) m = m
warn_unknown model none m =
    if contains model m.warned_unknown
    then m
    else record m { warned_unknown = m.warned_unknown ++ model ∷ [] }

-- the limits, and whether they are assumed; the manager remembers the warning
unfoldable pub resolve_limits : Manager → String → Option ModelLimits × Bool × Manager
resolve_limits m model =
    let found = lookup model m.provider_limits in
    (found, elim found [ none ↦ true | some _ ↦ false ], warn_unknown model found m)

-- `BudgetCalculator.calculate`: the input budget; a negative difference is below 500 as well
unfoldable pub calculate : (ℕ → ℕ) → ModelLimits → ℕ
calculate shrink limits = max 500 (shrink limits.context_window - limits.max_output_tokens)

-- `if max_output_tokens:` reserve what the request asks for
unfoldable pub requested_limits : Option ℕ → ModelLimits → ModelLimits
requested_limits none limits = limits
requested_limits (some n) limits =
    if n == 0 then limits else record limits { max_output_tokens = n }

-- a cap of 0 is none
unfoldable pub effective_budget : Option ℕ → ℕ → ℕ
effective_budget none budget = budget
effective_budget (some cap_tokens) budget =
    if cap_tokens == 0 then budget else min cap_tokens budget

pub record TrimmedPrompt : Type 0 where
  pub sections : List PromptSection
  pub messages : List ChatMessage
  pub total_tokens : ℕ
  pub original_tokens : ℕ
  pub was_trimmed : Bool
  pub trimmed_sections : List String
  pub mode : String
  pub target_model : String

pub record ComposedPrompt : Type 0 where
  pub sections : List PromptSection
  pub messages : List ChatMessage
  pub mode : String

unfoldable pub trimmed_prompt :
    Manager → ComposedPrompt → String → List PromptSection → List String → TrimmedPrompt
trimmed_prompt m prompt target_model final names = record {
  sections = final;
  messages = compose_messages m.lower final m.history_as_messages;
  total_tokens = total_tokens final;
  original_tokens = total_tokens prompt.sections;
  was_trimmed = ltb 0 (length names);
  trimmed_sections = names;
  mode = prompt.mode;
  target_model = target_model;
}

-- `none` for a ContextOverflowError
unfoldable pub after_trim : Manager → ComposedPrompt → String → TrimResult → Option TrimmedPrompt
after_trim m prompt target_model (overflow total) = none
after_trim m prompt target_model (trimmed final names) =
    some (trimmed_prompt m prompt target_model final names)

unfoldable pub budget_for : Manager → String → Option ℕ → Option ℕ → ℕ
budget_for m target_model custom max_output =
    effective_budget custom
      (calculate m.shrink (requested_limits max_output (get_model_limits m target_model)))

unfoldable pub manage :
    Manager → ComposedPrompt → String → Option ℕ → Option ℕ → Option TrimmedPrompt
manage m prompt target_model custom max_output = after_trim m prompt target_model (
    trim
      (record {
        counter = m.tokenizer;
        capitalize = m.capitalize;
        provider = (get_model_limits m target_model).provider;
      })
      prompt.sections (budget_for m target_model custom max_output))
