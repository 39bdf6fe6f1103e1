-- ===== src/Context/BudgetPolicy.antt =====
-- The context budget (app/context_window/budget_policy.py). The provider and the model are given
-- apart, as `provider_of` and `model_of` return them. `int(total * (1 - margin))`, floating-point
-- arithmetic, is the parameter `shrink`. The integers of the computation may be negative.
pub mod Ceilings
use llm_service.Prelude.{
  ℕ, ◌+◌, ◌-◌, String, Bool, true, false, not, ◌&&◌, ◌||◌, Option, none, some, ltb, leb, ◌==◌, min,
  str_eq, is_some, if◌then◌else◌, Dict, lookup,
}

-- a difference of two native numbers
pub data ℤ : Type 0 where
  pos : ℕ → ℤ
  negsuc : ℕ → ℤ

unfoldable pub minus : ℕ → ℕ → ℤ
minus a b = if leb b a then pos (a - b) else negsuc (b - a - 1)

unfoldable pub less : ℤ → ℤ → Bool
less (pos a) (pos b) = ltb a b
less (pos a) (negsuc b) = false
less (negsuc a) (pos b) = true
less (negsuc a) (negsuc b) = ltb b a

unfoldable pub min_input_tokens : ℕ
min_input_tokens = 1_000

unfoldable pub tpm_headroom_tokens : ℕ
tpm_headroom_tokens = 200

-- the settings that the policy reads; 0 where a limit is not set
pub record BudgetConfig : Type 0 where
  pub context_budget_enabled : Bool
  pub context_budget_model_overrides : Dict ℕ
  pub context_budget_groq_tokens : ℕ
  pub context_budget_gemini_tokens : ℕ
  pub context_budget_default_tokens : ℕ
  pub context_unknown_model_window_tokens : ℕ
  pub context_output_token_reserve : ℕ
  pub groq_tpm_limit : ℕ
  pub prompt_token_budget : ℕ

pub record ModelLimits : Type 0 where
  pub context_window : ℕ
  pub max_output_tokens : ℕ
  pub provider : String

pub record ContextBudget : Type 0 where
  pub app_budget : ℕ
  pub app_budget_source : String
  pub model_window : ℕ
  pub window_assumed : Bool
  pub total : ℕ
  pub output_reserve : ℕ
  pub input_budget : ℕ
  pub legacy_cap_applied : Bool
  pub tpm_cap_applied : Bool

-- 1. the application budget and its source; `key` is f"{provider}:{model}"
unfoldable pub app_budget_of : BudgetConfig → String → String → String → ℕ × String
app_budget_of config provider model key =
    if not config.context_budget_enabled
    then (0, "disabled")
    else elim (lookup key config.context_budget_model_overrides) [
      | some n ↦ (n, "model_override")
      | none ↦ elim (lookup model config.context_budget_model_overrides) [
        | some n ↦ (n, "model_override")
        | none ↦
            if str_eq provider "groq" && ltb 0 config.context_budget_groq_tokens
            then (config.context_budget_groq_tokens, "provider")
            else if str_eq provider "gemini" && ltb 0 config.context_budget_gemini_tokens
            then (config.context_budget_gemini_tokens, "provider")
            else (config.context_budget_default_tokens, "default")
      ]
    ]

-- 2. the model's window
unfoldable pub window_of : BudgetConfig → Option ModelLimits → ℕ
window_of config none = config.context_unknown_model_window_tokens
window_of config (some limits) = limits.context_window

-- `requested_output_tokens or config.context_output_token_reserve`
unfoldable pub requested_or : ℕ → Option ℕ → ℕ
requested_or reserve none = reserve
requested_or reserve (some n) = if n == 0 then reserve else n

-- 3. the output reserve
unfoldable pub reserve_of : BudgetConfig → Option ModelLimits → Bool → Option ℕ → ℕ
reserve_of config none window_assumed requested =
    requested_or config.context_output_token_reserve requested
reserve_of config (some limits) true requested =
    requested_or config.context_output_token_reserve requested
reserve_of config (some limits) false none =
    min config.context_output_token_reserve limits.max_output_tokens
reserve_of config (some limits) false (some n) =
    requested_or config.context_output_token_reserve (some n)

-- the cap of Groq's tokens per minute, and whether it was applied
unfoldable pub tpm_cap : BudgetConfig → String → ℕ → ℤ → ℤ × Bool
tpm_cap config provider reserve input_budget =
    let tpm_input = minus config.groq_tpm_limit (reserve + tpm_headroom_tokens) in
    if str_eq provider "groq" && ltb 0 config.groq_tpm_limit && less tpm_input input_budget
    then (tpm_input, true)
    else (input_budget, false)

-- the cap of the legacy prompt budget
unfoldable pub legacy_cap : BudgetConfig → ℤ → ℤ × Bool
legacy_cap config input_budget =
    if ltb 0 config.prompt_token_budget && less (pos config.prompt_token_budget) input_budget
    then (pos config.prompt_token_budget, true)
    else (input_budget, false)

-- the input budget if it holds a minimal request; `none` is ContextBudgetError
unfoldable pub at_least_minimal : ℤ → Option ℕ
at_least_minimal (negsuc _) = none
at_least_minimal (pos n) = if ltb n min_input_tokens then none else some n

-- the budget with its input budget put in
unfoldable pub finish_budget : Option ℕ → ContextBudget → Option ContextBudget
finish_budget none b = none
finish_budget (some n) b = some (record b { input_budget = n })

module _ (shrink : ℕ → ℕ) where
  unfoldable pub resolve_context_budget :
      BudgetConfig
      → String
      → String
      → String
      → Option ModelLimits
      → Bool
      → Option ℕ
      → Option ContextBudget
  resolve_context_budget config provider model key limits window_assumed requested =
      let (app_budget, source) = app_budget_of config provider model key in
      let window : ℕ = window_of config limits in
      let total : ℕ = if ltb 0 app_budget then min app_budget window else window in
      let reserve : ℕ = reserve_of config limits window_assumed requested in
      let (capped, tpm_capped) = tpm_cap config provider reserve (minus (shrink total) reserve) in
      let (input_budget, legacy) = legacy_cap config capped in
      finish_budget (at_least_minimal input_budget) (record {
        app_budget = app_budget;
        app_budget_source = source;
        model_window = window;
        window_assumed = window_assumed || not (is_some limits);
        total = total;
        output_reserve = reserve;
        input_budget = 0;
        legacy_cap_applied = legacy;
        tpm_cap_applied = tpm_capped;
      })
