-- ===== src/Context/Fit/Within.antt =====
-- What is sent to a provider fits its budget.
use llm_service.Prelude.{
  ℕ, ◌≤◌, ◌<◌, ◌≡◌, ◌⊎◌, ap, sym, Option, none, some, Bool-cases, inl, inr, leb, ltb, arith,
}
use mathlib.Core.Option.{some-injective, none-ne-some}
use llm_service.Context.Manager.{Manager, TrimmedPrompt, ComposedPrompt}
use llm_service.Context.Fit.{
  FitConfig, FitRequest, FitReport, final_tokens, check_final, trim_to_budget, with_report,
  report_of, Compacted, fit_prompt, fit_for_entry,
}

check_final-within :
    (m : Manager) (r : FitRequest) (found : Option TrimmedPrompt) (prompt : TrimmedPrompt)
    → check_final m r found ≡ some prompt
    → final_tokens m r prompt ≤ r.input_budget
unfolding check_final
check_final-within m r none prompt h = elim (none-ne-some prompt h) [ ]
check_final-within m r (some found) prompt h =
    elim (Bool-cases (ltb r.input_budget (final_tokens m r found))) [
      | inl e ↦ elim (none-ne-some prompt (rw e at h)) [ ]
      | inr e ↦ rw⁻¹ (some-injective found prompt (rw e at h)) (ground (arith, e))
    ]

with_report-within :
    (m : Manager) (r : FitRequest) (before : ℕ) (done : Compacted) (found : Option TrimmedPrompt)
    (prompt : TrimmedPrompt) (report : FitReport)
    → with_report m r before done found ≡ some (prompt, report)
    → (found ≡ some prompt) × (report ≡ report_of m r before done prompt)
unfolding with_report
with_report-within m r before done none prompt report h = elim (none-ne-some (prompt, report) h) [ ]
with_report-within m r before done (some found) prompt report h =
    let both = some-injective _ _ h in
    let same : found ≡ prompt = ap (λ p. p.0) both in
    (ap some same, rw⁻¹ same (sym (ap (λ p. p.1) both)))

trim_to_budget-within :
    (m : Manager) (r : FitRequest) (composed : ComposedPrompt) (prompt : TrimmedPrompt)
    → trim_to_budget m r composed ≡ some prompt
    → final_tokens m r prompt ≤ r.input_budget
unfolding trim_to_budget
trim_to_budget-within m r composed prompt h = check_final-within m r _ prompt h

-- A request that is fitted is never too large: the messages that are sent, counted for the provider,
-- are within the input budget, and the report names that count. Whatever the compaction and the
-- passes of trimming did, a request that is still too large is refused.
fit_prompt-within :
    (m : Manager) (c : FitConfig) (r : FitRequest) (composed : ComposedPrompt)
    {prompt : TrimmedPrompt} {report : FitReport}
    → fit_prompt m c r composed ≡ some (prompt, report)
    → (final_tokens m r prompt ≤ r.input_budget) × (report.tokens_after ≡ final_tokens m r prompt)
unfolding fit_prompt report_of
fit_prompt-within m c r composed {prompt} {report} h =
    let found = with_report-within m r _ _ _ prompt report h in
    (trim_to_budget-within m r _ prompt found.0, ap (λ x. x.tokens_after) found.1)

-- The prompt that the chain sends to another provider fits that provider's budget, and it is the same
-- prompt when that fits already.
fit_for_entry-within :
    (m : Manager) (r : FitRequest) (prompt : TrimmedPrompt) {fitted : TrimmedPrompt}
    → fit_for_entry m r prompt ≡ some fitted
    → (final_tokens m r fitted ≤ r.input_budget)
      × ((fitted ≡ prompt) ⊎ (r.input_budget < final_tokens m r prompt))
unfolding fit_for_entry
fit_for_entry-within m r prompt {fitted} h =
    elim (Bool-cases (leb (final_tokens m r prompt) r.input_budget)) [
      | inl e ↦
          let same = some-injective prompt fitted (rw e at h) in
          (rw⁻¹ same (ground (arith, e)), inl (sym same))
      | inr e ↦ (check_final-within m r _ fitted (rw e at h), inr (ground (arith, e)))
    ]
