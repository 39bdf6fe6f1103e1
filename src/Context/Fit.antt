-- ===== src/Context/Fit.antt =====
-- One request's prompt, fitted to its context budget (app/context_window/fit.py). The budget is the
-- one that `resolve_context_budget` gives; `trigger` and `target` are `int(budget * ratio)` for the
-- two ratios, and `build` is the prompt builder on a compacted history, `none` where it raises.
pub mod Within
use llm_service.Prelude.{
  ℕ, zero, suc, ◌+◌, ◌-◌, max, String, Bool, true, false, ◌&&◌, ◌||◌, Option, none, some, List, [],
  ◌∷◌, if◌then◌else◌, ltb, leb, length, ◌==◌, sum_of,
}
use llm_service.Context.Tokens.{count_messages}
use llm_service.Context.Compaction.{Message, tokens_of, CompactionResult, changed, compact_history}
use llm_service.Context.Manager.{Manager, TrimmedPrompt, ComposedPrompt, manage}

pub data Compaction : Type 0 where
  skipped compacted no_effect failed : Compaction

pub record FitConfig : Type 0 where
  pub context_compaction_enabled : Bool
  pub context_compaction_min_recent_messages : ℕ
  pub trigger : ℕ → ℕ
  pub target : ℕ → ℕ
  pub note_reserve : ℕ → ℕ

-- a request: the provider and the model, the tokens asked for, the budget and the history
pub record FitRequest : Type 0 where
  pub provider : String
  pub model : String
  pub max_output_tokens : Option ℕ
  pub input_budget : ℕ
  pub history : List Message
  pub build : List Message → Option ComposedPrompt

-- what the compaction leaves: the prompt, the history, and how it went
pub record Compacted : Type 0 where
  pub composed : ComposedPrompt
  pub history : List Message
  pub outcome : Compaction
  pub condensed : ℕ
  pub omitted : ℕ

unfoldable pub not_compacted : ComposedPrompt → List Message → Compaction → Compacted
not_compacted composed history outcome = record {
  composed = composed;
  history = history;
  outcome = outcome;
  condensed = 0;
  omitted = 0;
}

-- the history is replaced before the prompt is built again
unfoldable pub after_build : ComposedPrompt → CompactionResult → Option ComposedPrompt → Compacted
after_build composed cr none = not_compacted composed cr.messages failed
after_build composed cr (some built) = record {
  composed = built;
  history = cr.messages;
  outcome = compacted;
  condensed = cr.condensed;
  omitted = cr.omitted;
}

unfoldable pub after_compaction : FitRequest → ComposedPrompt → CompactionResult → Compacted
after_compaction r composed cr =
    if changed cr
    then after_build composed cr (r.build cr.messages)
    else not_compacted composed r.history no_effect

unfoldable pub compact : Manager → FitConfig → FitRequest → ComposedPrompt → ℕ → Compacted
compact m c r composed estimate =
    let history_tokens = sum_of (tokens_of m.tokenizer r.provider) r.history in
    let allowance = c.target r.input_budget + history_tokens - estimate in
    after_compaction r composed (
      compact_history m.tokenizer r.provider allowance (c.note_reserve allowance)
        c.context_compaction_min_recent_messages r.history)

unfoldable pub compact_if_due : Manager → FitConfig → FitRequest → ComposedPrompt → ℕ → Compacted
compact_if_due m c r composed estimate =
    if c.context_compaction_enabled
      && (leb (c.trigger r.input_budget) estimate || ltb r.input_budget estimate)
    then if length r.history == 0
      then not_compacted composed r.history no_effect
      else compact m c r composed estimate
    else not_compacted composed r.history skipped

pub record FitReport : Type 0 where
  pub tokens_before : ℕ
  pub tokens_after : ℕ
  pub compaction : Compaction
  pub messages_condensed : ℕ
  pub messages_omitted : ℕ
  pub trimmed_sections : List String

unfoldable pub final_tokens : Manager → FitRequest → TrimmedPrompt → ℕ
final_tokens m r prompt = count_messages m.tokenizer prompt.messages r.provider

unfoldable pub manage_to : Manager → FitRequest → ComposedPrompt → ℕ → Option TrimmedPrompt
manage_to m r composed target = manage m composed r.model (some target) r.max_output_tokens

-- `max(1, target - overshoot)`
unfoldable pub lower_target : Manager → FitRequest → ℕ → TrimmedPrompt → ℕ
lower_target m r target prompt = max 1 (target + r.input_budget - final_tokens m r prompt)

-- the passes that are left, the target, and the prompt so far; `none` for a ContextOverflowError
unfoldable pub refit :
    Manager → FitRequest → ComposedPrompt → ℕ → ℕ → Option TrimmedPrompt → Option TrimmedPrompt
refit m r composed passes target none = none
refit m r composed zero target (some prompt) = some prompt
refit m r composed (suc passes) target (some prompt) =
    let next = lower_target m r target prompt in
    let more = refit m r composed passes next (manage_to m r composed next) in
    if leb (final_tokens m r prompt) r.input_budget then some prompt else more

unfoldable pub refit_passes : ℕ
refit_passes = 5

unfoldable pub check_final : Manager → FitRequest → Option TrimmedPrompt → Option TrimmedPrompt
check_final m r none = none
check_final m r (some prompt) =
    if ltb r.input_budget (final_tokens m r prompt) then none else some prompt

unfoldable pub trim_to_budget : Manager → FitRequest → ComposedPrompt → Option TrimmedPrompt
trim_to_budget m r composed =
    check_final m r
      (refit m r composed refit_passes r.input_budget (manage_to m r composed r.input_budget))

unfoldable pub report_of : Manager → FitRequest → ℕ → Compacted → TrimmedPrompt → FitReport
report_of m r before done prompt = record {
  tokens_before = before;
  tokens_after = final_tokens m r prompt;
  compaction = done.outcome;
  messages_condensed = done.condensed;
  messages_omitted = done.omitted;
  trimmed_sections = prompt.trimmed_sections;
}

unfoldable pub with_report :
    Manager → FitRequest → ℕ → Compacted → Option TrimmedPrompt → Option (TrimmedPrompt × FitReport)
with_report m r before done none = none
with_report m r before done (some prompt) = some (prompt, report_of m r before done prompt)

unfoldable pub fit_prompt :
    Manager → FitConfig → FitRequest → ComposedPrompt → Option (TrimmedPrompt × FitReport)
fit_prompt m c r composed =
    let before = count_messages m.tokenizer composed.messages r.provider in
    let done = compact_if_due m c r composed before in
    with_report m r before done (trim_to_budget m r done.composed)

-- `gap = final - trimmed.total_tokens`; the prompt is cut once more
unfoldable pub cut_again :
    Manager → FitRequest → ComposedPrompt → TrimmedPrompt → Option TrimmedPrompt
cut_again m r composed prompt =
    if ltb r.input_budget (final_tokens m r prompt)
    then manage_to m r composed
        (max 1 (r.input_budget + prompt.total_tokens - final_tokens m r prompt))
    else some prompt

unfoldable pub cut_twice :
    Manager → FitRequest → ComposedPrompt → Option TrimmedPrompt → Option TrimmedPrompt
cut_twice m r composed none = none
cut_twice m r composed (some prompt) = cut_again m r composed prompt

-- the fitter of the provider chain, on a prompt that was trimmed for another provider
unfoldable pub fit_for_entry : Manager → FitRequest → TrimmedPrompt → Option TrimmedPrompt
fit_for_entry m r prompt =
    let composed : ComposedPrompt = record {
      sections = prompt.sections;
      messages = [];
      mode = prompt.mode;
    } in
    if leb (final_tokens m r prompt) r.input_budget
    then some prompt
    else check_final m r (cut_twice m r composed (manage_to m r composed r.input_budget))
