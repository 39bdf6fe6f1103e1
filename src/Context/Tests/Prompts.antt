-- ===== src/Context/Tests/Prompts.antt =====
-- Witnesses for prompts that are trimmed, composed and fitted: instructions, retrieved passages and
-- a question, of which the passages go first.
use llm_service.Prelude.{
  ℕ, ◌*◌, ◌/◌, ◌≡◌, refl, String, Bool, true, false, none, some, List, [], ◌∷◌, filter,
}
use llm_service.Context.Tokens.{ChatMessage, count_text, base_count, count_messages, total_of}
use llm_service.Context.Sections.{PromptSection}
use llm_service.Context.Shrink
use llm_service.Context.Trimmer
use llm_service.Context.Trimmer.{TrimContext, TrimResult, trimmed, trim, total_tokens}
use llm_service.Context.Trimmer.Kept.{is_protected, trim-protected}
use llm_service.Context.Compaction
use llm_service.Context.Compaction.{Message, compact_history}
use llm_service.Context.Compaction.Suffix.{IsCompacted, compact_history-IsCompacted}
use llm_service.Context.Compose.Turns.{Alternates, compose_messages-Alternates}
use llm_service.Context.Compose
use llm_service.Context.Manager
use llm_service.Context.Manager.{Manager, TrimmedPrompt, ComposedPrompt, manage, budget_for}
use llm_service.Context.Fit
use llm_service.Context.Fit.{
  FitConfig, FitRequest, FitReport, final_tokens, fit_prompt, fit_for_entry,
}
use llm_service.Context.Tests.Characters.{characters}

abbrev section : String → String → ℕ → ℕ → Bool → PromptSection
section name content priority tokens trimmable = record {
  name = name;
  content = content;
  priority = priority;
  token_count = tokens;
  trimmable = trimmable;
  items = none;
  header = "";
}

abbrev instructions : PromptSection
instructions = section "system" "Be brief." 10 9 false

abbrev passages : PromptSection
passages = section "retrieval" "First fact.\nSecond fact." 4 24 true

abbrev question : PromptSection
question = section "user_query" "Why?" 10 4 false

abbrev sections : List PromptSection
sections = instructions ∷ passages ∷ question ∷ []

abbrev context : TrimContext
context = record { counter = characters; capitalize = λ t. t; provider = "groq" }

-- the passages, cut to their first line
abbrev cut : List PromptSection
cut = instructions ∷ section "retrieval" "First fact." 4 11 true ∷ question ∷ []

trim-cut : trim context sections 30 ≡ trimmed cut ("retrieval" ∷ [])
unfolding trim Trimmer.after_trimming Trimmer.check_total Trimmer.trim_all Trimmer.trim_at
    Trimmer.trim_found Trimmer.trim_to Trimmer.trim_section Trimmer.recount Trimmer.order_of
    Trimmer.trimmable_indices Trimmer.can_be_trimmed Trimmer.can_trim Trimmer.section_minimum
    Trimmer.priority_at Trimmer.add_name Trimmer.has_text total_tokens Shrink.shrink
    Shrink.keep_whole_lines Shrink.lines_or_start Shrink.whole_lines count_text base_count
trim-cut = refl

trim-protected_example : filter is_protected cut ≡ filter is_protected sections
trim-protected_example = trim-protected context sections 30 trim-cut

abbrev message : Compaction.Role → String → Message
message role content = record { role = role; content = content; message_id = none }

abbrev history : List Message
history =
    message Compaction.user "Where is it?"
    ∷ message Compaction.assistant "In the drawer."
    ∷ message Compaction.user "Which one?"
    ∷ []

compact_history-IsCompacted_example :
    IsCompacted history 1 (compact_history characters "groq" 40 10 1 history)
compact_history-IsCompacted_example = compact_history-IsCompacted characters "groq" 40 10 1 history

compose_messages-Alternates_example : Alternates (Compose.compose_messages (λ t. t) cut true)
compose_messages-Alternates_example = compose_messages-Alternates (λ t. t) cut true

abbrev manager : Manager
manager = record {
  tokenizer = characters;
  capitalize = λ t. t;
  lower = λ t. t;
  shrink = λ n. n * 95 / 100;
  history_as_messages = false;
  provider_limits = [];
  default_limits = record { context_window = 8192; max_output_tokens = 1024; provider = "groq" };
  warned_unknown = [];
}

abbrev composed : ComposedPrompt
composed = record {
  sections = sections;
  messages = record { role = "user"; content = "Be brief.First fact.\nSecond fact.Why?" } ∷ [];
  mode = "default";
}

abbrev cut_messages : List ChatMessage
cut_messages =
    record { role = "system"; content = "Be brief." }
    ∷ record { role = "user"; content = "First fact.\n\nWhy?" }
    ∷ []

abbrev cut_prompt : TrimmedPrompt
cut_prompt = record {
  sections = cut;
  messages = cut_messages;
  total_tokens = 24;
  original_tokens = 37;
  was_trimmed = true;
  trimmed_sections = "retrieval" ∷ [];
  mode = "default";
  target_model = "gpt-oss";
}

managed : manage manager composed "gpt-oss" (some 30) none ≡ some cut_prompt
unfolding manage Manager.after_trim Manager.budget_for Manager.get_model_limits
    Manager.limits_or_default Manager.requested_limits Manager.effective_budget Manager.calculate
    Manager.trimmed_prompt Compose.compose_messages Compose.compose_with Compose.with_prompt
    Compose.system_messages Compose.system_prompt_of Compose.user_prompt_of Compose.text_of_sections
    Compose.is_named total_tokens trim Trimmer.after_trimming Trimmer.check_total Trimmer.trim_all
    Trimmer.trim_at Trimmer.trim_found Trimmer.trim_to Trimmer.trim_section Trimmer.recount
    Trimmer.order_of Trimmer.trimmable_indices Trimmer.can_be_trimmed Trimmer.can_trim
    Trimmer.section_minimum Trimmer.priority_at Trimmer.add_name Trimmer.has_text Shrink.shrink
    Shrink.keep_whole_lines Shrink.lines_or_start Shrink.whole_lines count_text base_count
managed = refl

abbrev config : FitConfig
config = record {
  context_compaction_enabled = false;
  context_compaction_min_recent_messages = 1;
  trigger = λ n. n * 8 / 10;
  target = λ n. n * 6 / 10;
  note_reserve = λ n. n * 3 / 10;
}

abbrev request : ℕ → FitRequest
request budget = record {
  provider = "groq";
  model = "gpt-oss";
  max_output_tokens = none;
  input_budget = budget;
  history = [];
  build = λ _. none;
}

abbrev report : FitReport
report = record {
  tokens_before = 43;
  tokens_after = 36;
  compaction = Fit.skipped;
  messages_condensed = 0;
  messages_omitted = 0;
  trimmed_sections = "retrieval" ∷ [];
}

fitted : fit_prompt manager config (request 36) composed ≡ some (cut_prompt, report)
unfolding fit_prompt Fit.with_report Fit.report_of Fit.trim_to_budget Fit.check_final Fit.refit
    Fit.refit_passes Fit.lower_target Fit.manage_to final_tokens Fit.compact_if_due
    Fit.not_compacted count_messages total_of manage Manager.after_trim Manager.budget_for
    Manager.get_model_limits Manager.limits_or_default Manager.requested_limits
    Manager.effective_budget Manager.calculate Manager.trimmed_prompt Compose.compose_messages
    Compose.compose_with Compose.with_prompt Compose.system_messages Compose.system_prompt_of
    Compose.user_prompt_of Compose.text_of_sections Compose.is_named total_tokens trim
    Trimmer.after_trimming Trimmer.check_total Trimmer.trim_all Trimmer.trim_at Trimmer.trim_found
    Trimmer.trim_to Trimmer.trim_section Trimmer.recount Trimmer.order_of Trimmer.trimmable_indices
    Trimmer.can_be_trimmed Trimmer.can_trim Trimmer.section_minimum Trimmer.priority_at
    Trimmer.add_name Trimmer.has_text Shrink.shrink Shrink.keep_whole_lines Shrink.lines_or_start
    Shrink.whole_lines count_text base_count
fitted = refl

-- a prompt that was trimmed for a provider with a larger budget
abbrev large_prompt : TrimmedPrompt
large_prompt = record {
  sections = sections;
  messages = composed.messages;
  total_tokens = 37;
  original_tokens = 37;
  was_trimmed = false;
  trimmed_sections = [];
  mode = "default";
  target_model = "gemini";
}

fitted_for_entry : fit_for_entry manager (request 36) large_prompt ≡ some cut_prompt
unfolding fit_for_entry Fit.cut_twice Fit.cut_again Fit.check_final Fit.manage_to final_tokens
    count_messages total_of manage Manager.after_trim Manager.budget_for Manager.get_model_limits
    Manager.limits_or_default Manager.requested_limits Manager.effective_budget Manager.calculate
    Manager.trimmed_prompt Compose.compose_messages Compose.compose_with Compose.with_prompt
    Compose.system_messages Compose.system_prompt_of Compose.user_prompt_of Compose.text_of_sections
    Compose.is_named total_tokens trim Trimmer.after_trimming Trimmer.check_total Trimmer.trim_all
    Trimmer.trim_at Trimmer.trim_found Trimmer.trim_to Trimmer.trim_section Trimmer.recount
    Trimmer.order_of Trimmer.trimmable_indices Trimmer.can_be_trimmed Trimmer.can_trim
    Trimmer.section_minimum Trimmer.priority_at Trimmer.add_name Trimmer.has_text Shrink.shrink
    Shrink.keep_whole_lines Shrink.lines_or_start Shrink.whole_lines count_text base_count
fitted_for_entry = refl

parse_lines-roles :
    Shrink.parse_lines ("Earlier:" ∷ "User: hi" ∷ "" ∷ "Assistant: yes" ∷ []) "" [] ≡ (
      "Earlier:",
      record { role = "user"; content = "hi\n" }
          ∷ record { role = "assistant"; content = "yes" }
          ∷ [],
    )
unfolding Shrink.parse_lines Shrink.take_line Shrink.role_line Shrink.extend_header
    Shrink.extend_last
parse_lines-roles = refl
