-- ===== src/Context/Trimmer.antt =====
-- The trimmer of prompt sections (app/context_window/trimmer.py). Sections are trimmed in ascending
-- order of priority, each down to its floor at most, until the excess is gone.
pub mod Kept
pub mod Below
pub mod Fits
use llm_service.Prelude.{
  ℕ, suc, ◌+◌, ◌-◌, min, String, Bool, true, false, not, ◌&&◌, ◌||◌, Option, none, some, List, [],
  ◌∷◌, ◌++◌, map, str_eq, if◌then◌else◌, ltb, leb, contains, filter, strip, get_at, modify_at,
  sum_of, sort_by,
}
use llm_service.Context.Tokens.{Tokenizer, count_text}
use llm_service.Context.Sections.{PromptSection}
use llm_service.Context.Shrink.{shrink}

-- `SECTION_MINIMUMS.get(name, 0)`
unfoldable pub section_minimum : String → ℕ
section_minimum name =
    if str_eq name "draft_content" || str_eq name "conversation_history"
    then 200
    else if str_eq name "long_term_memory"
    then 100
    else if str_eq name "tool_results"
    then 50
    else 0

unfoldable pub can_be_trimmed : PromptSection → Bool
can_be_trimmed s = s.trimmable && ltb s.priority 10

-- `max(0, sec.token_count - min_allowed)`
unfoldable pub can_trim : PromptSection → ℕ
can_trim s = s.token_count - section_minimum s.name

unfoldable pub trimmable_indices : List PromptSection → List ℕ
trimmable_indices [] = []
trimmable_indices (s ∷ ss) =
    let rest = map suc (trimmable_indices ss) in if can_be_trimmed s then 0 ∷ rest else rest

-- `working_sections[idx].priority`
unfoldable pub priority_at : List PromptSection → ℕ → ℕ
priority_at sections idx = elim (get_at idx sections) [ none ↦ 0 | some s ↦ s.priority ]

unfoldable pub order_of : List PromptSection → List ℕ
order_of sections = sort_by (priority_at sections) (trimmable_indices sections)

-- the counter, `str.capitalize` and the provider, which a run does not change
pub record TrimContext : Type 0 where
  pub counter : Tokenizer
  pub capitalize : String → String
  pub provider : String

unfoldable pub recount : TrimContext → PromptSection → PromptSection
recount c sec = record sec { token_count = count_text c.counter sec.content c.provider }

unfoldable pub trim_section : TrimContext → ℕ → PromptSection → PromptSection
trim_section c target sec =
    if leb target 0
    then record sec { content = ""; items = none; token_count = 0 }
    else recount c (shrink c.counter c.capitalize c.provider target sec)

pub record Work : Type 0 where
  pub excess : ℕ
  pub working : List PromptSection
  pub trimmed_names : List String

unfoldable pub add_name : String → List String → List String
add_name name names = if contains name names then names else names ++ name ∷ []

unfoldable pub trim_to : TrimContext → ℕ → PromptSection → Work → Work
trim_to c idx sec w =
    let actual_trim = min (can_trim sec) w.excess in
    record {
      excess = w.excess - actual_trim;
      working = modify_at idx (trim_section c (sec.token_count - actual_trim)) w.working;
      trimmed_names = add_name sec.name w.trimmed_names;
    }

-- the body of the loop, on the section at its index; an index of the loop is always in the list
unfoldable pub trim_found : TrimContext → ℕ → Option PromptSection → Work → Work
trim_found c idx none w = w
trim_found c idx (some sec) w = if leb (can_trim sec) 0 then w else trim_to c idx sec w

unfoldable pub trim_at : TrimContext → ℕ → Work → Work
trim_at c idx w = trim_found c idx (get_at idx w.working) w

unfoldable pub trim_all : TrimContext → List ℕ → Work → Work
trim_all c [] w = w
trim_all c (idx ∷ rest) w =
    let done = trim_all c rest (trim_at c idx w) in if leb w.excess 0 then w else done

unfoldable pub has_text : PromptSection → Bool
has_text s = not (str_eq (strip s.content) "")

unfoldable pub total_tokens : List PromptSection → ℕ
total_tokens = sum_of (λ s. s.token_count)

-- what `trim` returns, or the total that the ContextOverflowError names
pub data TrimResult : Type 0 where
  trimmed : List PromptSection → List String → TrimResult
  overflow : ℕ → TrimResult

unfoldable pub check_total : ℕ → List PromptSection → List String → TrimResult
check_total budget final names =
    if ltb budget (total_tokens final) then overflow (total_tokens final) else trimmed final names

unfoldable pub after_trimming : ℕ → Work → TrimResult
after_trimming budget w = check_total budget (filter has_text w.working) w.trimmed_names

unfoldable pub trim : TrimContext → List PromptSection → ℕ → TrimResult
trim c sections budget =
    let current = total_tokens sections in
    if leb current budget
    then trimmed sections []
    else after_trimming budget (
        trim_all c (order_of sections)
          (record { excess = current - budget; working = sections; trimmed_names = [] }))
