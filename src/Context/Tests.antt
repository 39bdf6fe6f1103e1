-- ===== src/Context/Tests.antt =====
-- A witness for the context budget: Groq on a limited tier.
mod Characters
mod Prompts
use llm_service.Prelude.{ℕ, ◌*◌, ◌/◌, refl, true, false, none, some, []}
use llm_service.Context.BudgetPolicy.{
  BudgetConfig, ModelLimits, ContextBudget, resolve_context_budget,
}
use llm_service.Context.BudgetPolicy
use llm_service.Context.BudgetPolicy.Ceilings.{IsWithin, resolve_context_budget-IsWithin}

abbrev config : BudgetConfig
config = record {
  context_budget_enabled = true;
  context_budget_model_overrides = [];
  context_budget_groq_tokens = 100_000;
  context_budget_gemini_tokens = 0;
  context_budget_default_tokens = 60_000;
  context_unknown_model_window_tokens = 8000;
  context_output_token_reserve = 2000;
  groq_tpm_limit = 12_000;
  prompt_token_budget = 0;
}

abbrev limits : ModelLimits
limits = record { context_window = 131_072; max_output_tokens = 8192; provider = "groq" }

-- a safety margin of a tenth
abbrev shrink : ℕ → ℕ
shrink total = total * 9 / 10

abbrev budget : ContextBudget
budget = record {
  app_budget = 100_000;
  app_budget_source = "provider";
  model_window = 131_072;
  window_assumed = false;
  total = 100_000;
  output_reserve = 2000;
  input_budget = 9800;
  legacy_cap_applied = false;
  tpm_cap_applied = true;
}

resolve_context_budget-IsWithin_example : IsWithin shrink config "groq" budget
unfolding resolve_context_budget BudgetPolicy.finish_budget BudgetPolicy.at_least_minimal
    BudgetPolicy.legacy_cap BudgetPolicy.tpm_cap BudgetPolicy.less BudgetPolicy.minus
    BudgetPolicy.reserve_of BudgetPolicy.tpm_headroom_tokens BudgetPolicy.app_budget_of
    BudgetPolicy.window_of BudgetPolicy.min_input_tokens
resolve_context_budget-IsWithin_example =
    resolve_context_budget-IsWithin shrink config "groq" "gpt-oss" "groq:gpt-oss" (some limits)
      false none budget refl
