-- ===== src/Context/Manager/Budgets.antt =====
-- The budgets that the manager keeps.
use llm_service.Prelude.{
  ℕ, ◌+◌, ◌≤◌, ◌≡◌, ◌⊎◌, refl, String, Option, some, List, Bool-cases, inl, inr, leb, arith,
}
use mathlib.Core.Option.{some-injective, none-ne-some}
use llm_service.Context.BudgetPolicy.{ModelLimits}
use llm_service.Context.Sections.{PromptSection}
use llm_service.Context.Trimmer.{
  TrimContext, total_tokens, TrimResult, trimmed, overflow, trim, after_trimming, check_total,
}
use llm_service.Context.Manager.{
  Manager, calculate, effective_budget, TrimmedPrompt, ComposedPrompt, trimmed_prompt, after_trim,
  budget_for, manage,
}

check_total-within :
    (budget : ℕ) (ss : List PromptSection) (names : List String) {final : List PromptSection}
    {others : List String}
    → check_total budget ss names ≡ trimmed final others
    → total_tokens final ≤ budget
unfolding check_total
check_total-within budget ss names h = ground arith

trim-within :
    (c : TrimContext) (sections : List PromptSection) (budget : ℕ) {final : List PromptSection}
    {names : List String}
    → trim c sections budget ≡ trimmed final names
    → total_tokens final ≤ budget
unfolding trim after_trimming
trim-within c sections budget h = elim (Bool-cases (leb (total_tokens sections) budget)) [
  | inl e ↦ ground (arith, h, e)
  | inr e ↦ check_total-within budget _ _ (rw e at h)
]

after_trim-total :
    (m : Manager) (prompt : ComposedPrompt) (model : String) (budget : ℕ) (r : TrimResult)
    {final : TrimmedPrompt}
    → ((ss : List PromptSection) (names : List String)
        → r ≡ trimmed ss names
        → total_tokens ss ≤ budget)
    → after_trim m prompt model r ≡ some final
    → final.total_tokens ≤ budget
unfolding after_trim trimmed_prompt
after_trim-total m prompt model budget (overflow total) h e = elim (none-ne-some _ e) [ ]
after_trim-total m prompt model budget (trimmed ss names) {final} h e =
    rw⁻¹ (some-injective _ final e) (h ss names refl)

-- What the manager returns has no more tokens, counted by sections, than the budget it works with:
-- the model's window less the safety margin and the output that is asked for, and never more than
-- the configured cap, but for the least budget of 500.
manage-within :
    (m : Manager) (prompt : ComposedPrompt) (model : String) (custom max_output : Option ℕ)
    {final : TrimmedPrompt}
    → manage m prompt model custom max_output ≡ some final
    → final.total_tokens ≤ budget_for m model custom max_output
unfolding manage
manage-within m prompt model custom max_output h =
    after_trim-total m prompt model (budget_for m model custom max_output) _
      (λ ss names e. trim-within _ prompt.sections _ e) h

-- a cap only lowers the budget
pub effective_budget-le : (capped budget : ℕ) → effective_budget (some capped) budget ≤ budget
unfolding effective_budget
effective_budget-le capped budget = ground arith

-- The input budget and the reserved output fit the model's window together, where the safety margin
-- does not widen it, unless the window leaves less than 500 tokens beside the output: then the budget
-- is 500 all the same.
pub calculate-window :
    (shrink : ℕ → ℕ) (limits : ModelLimits)
    → shrink limits.context_window ≤ limits.context_window
    → (calculate shrink limits + limits.max_output_tokens ≤ limits.context_window)
      ⊎ (calculate shrink limits ≡ 500)
unfolding calculate
calculate-window shrink limits h =
    elim (Bool-cases (leb (limits.max_output_tokens + 500) (shrink limits.context_window))) [
      | inl e ↦ inl (ground (arith, e, h))
      | inr e ↦ inr (ground (arith, e))
    ]
