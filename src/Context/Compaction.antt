-- ===== src/Context/Compaction.antt =====
-- The compaction of a conversation history (app/context_window/compaction.py). `note_reserve` is
-- `int(token_budget * share)`, with the smaller share where the memory service gives a summary.
pub mod Suffix
use Prim.Native.String.{◌++◌ as append, count}
use llm_service.Prelude.{
  ℕ, suc, ◌+◌, ◌-◌, ◌*◌, ◌/◌, max, String, Bool, true, false, not, ◌&&◌, ◌||◌, Option, none, some,
  List, [], ◌∷◌, ◌++◌, map, if◌then◌else◌, ltb, leb, ◌==◌, length, filter, take, drop, reversed,
  sum_of, words, join_with, rstrip, lstrip, first_chars, drop_chars, decimal,
}
use llm_service.Context.Tokens.{Tokenizer, count_text}

pub data Role : Type 0 where
  system user assistant tool : Role

-- a message of the history; what else it holds is kept with it
pub record Message : Type 0 where
  pub role : Role
  pub content : String
  pub message_id : Option String

abbrev pub note_header : String
note_header = "Earlier in this conversation (condensed; some detail is omitted):"

unfoldable pub line_clip_chars : ℕ
line_clip_chars = 180

-- `_tokens`
unfoldable pub tokens_of : Tokenizer → String → Message → ℕ
tokens_of k provider m = count_text k m.content provider + 4

unfoldable pub clip_ends : String → String → ℕ → String
clip_ends flat marker room =
    let head = (room * 3) / 5 in
    let tail = room - head in
    append (rstrip (first_chars head flat))
      (append marker (if tail == 0 then "" else lstrip (drop_chars (count flat - tail) flat)))

unfoldable pub clip : String → ℕ → String
clip text limit =
    let flat = join_with " " (words text) in
    let marker = append " … [" (append (decimal (count flat - limit)) " chars omitted] … ") in
    if leb (count flat) limit then flat else clip_ends flat marker (limit - count marker)

-- how many of the newest messages are kept, and their tokens
pub record Recent : Type 0 where
  pub number : ℕ
  pub used : ℕ

-- the loop from the newest message, after so many
unfoldable pub keep_recent : Tokenizer → String → ℕ → ℕ → ℕ → Recent → List Message → Recent
keep_recent k provider token_budget note_reserve min_recent done [] = done
keep_recent k provider token_budget note_reserve min_recent done (m ∷ ms) =
    let cost = tokens_of k provider m in
    let more =
      keep_recent k provider token_budget note_reserve min_recent
        (record { number = done.number + 1; used = done.used + cost }) ms in
    if ltb min_recent (done.number + 1) && ltb (token_budget - note_reserve) (done.used + cost)
    then done
    else more

unfoldable pub is_spoken : Role → Bool
is_spoken user = true
is_spoken assistant = true
is_spoken system = false
is_spoken tool = false

-- `role.value.capitalize()`
unfoldable pub role_title : Role → String
role_title system = "System"
role_title user = "User"
role_title assistant = "Assistant"
role_title tool = "Tool"

unfoldable pub note_line : Message → String
note_line m = append (role_title m.role) (append ": " (clip m.content line_clip_chars))

pub record Chosen : Type 0 where
  pub lines : List String
  pub spent : ℕ

-- the lines of the note, the newest first
unfoldable pub choose_lines : Tokenizer → String → ℕ → Chosen → List String → Chosen
choose_lines k provider note_budget done [] = done
choose_lines k provider note_budget done (line ∷ rest) =
    let cost = count_text k line provider + 1 in
    let more =
      choose_lines k provider note_budget
        (record { lines = line ∷ done.lines; spent = done.spent + cost }) rest in
    if ltb note_budget (done.spent + cost) then done else more

pub record CompactionResult : Type 0 where
  pub messages : List Message
  pub kept : ℕ
  pub condensed : ℕ
  pub omitted : ℕ
  pub tokens_before : ℕ
  pub tokens_after : ℕ
  pub note_added : Bool

-- `changed`, which the result computes for itself
unfoldable pub changed : CompactionResult → Bool
changed r = ltb 0 r.condensed || ltb 0 r.omitted

unfoldable pub unchanged : List Message → ℕ → CompactionResult
unchanged messages before = record {
  messages = messages;
  kept = length messages;
  condensed = 0;
  omitted = 0;
  tokens_before = before;
  tokens_after = before;
  note_added = false;
}

unfoldable pub note_of : List String → Message
note_of lines = record {
  role = system;
  content = append note_header (append "\n" (join_with "\n" lines));
  message_id = none;
}

unfoldable pub with_note : List String → ℕ → ℕ → List Message → List Message
with_note [] spent note_budget kept = kept
with_note (l ∷ ls) spent note_budget kept =
    if leb spent note_budget then note_of (l ∷ ls) ∷ kept else kept

unfoldable pub note_is_added : List String → ℕ → ℕ → Bool
note_is_added [] spent note_budget = false
note_is_added (l ∷ ls) spent note_budget = leb spent note_budget

-- the chosen lines are put in front of those chosen before, which reverses them
unfoldable pub choose_note : Tokenizer → String → ℕ → List Message → Chosen
choose_note k provider note_budget older =
    choose_lines k provider note_budget
      (record { lines = []; spent = count_text k note_header provider + 4 })
      (reversed (map note_line (filter (λ m. is_spoken m.role) older)))

unfoldable pub condense :
    Tokenizer → String → ℕ → ℕ → List Message → List Message → CompactionResult
condense k provider before note_budget older kept =
    let chosen = choose_note k provider note_budget older in
    let messages = with_note chosen.lines chosen.spent note_budget kept in
    record {
      messages = messages;
      kept = length kept;
      condensed = length chosen.lines;
      omitted = length older - length chosen.lines;
      tokens_before = before;
      tokens_after = sum_of (tokens_of k provider) messages;
      note_added = note_is_added chosen.lines chosen.spent note_budget;
    }

unfoldable pub split_history : Tokenizer → String → ℕ → ℕ → List Message → Recent → CompactionResult
split_history k provider token_budget before messages recent =
    let from = length messages - recent.number in
    if from == 0
    then unchanged messages before
    else condense k provider before (token_budget - recent.used) (take from messages)
        (drop from messages)

unfoldable pub compact_history : Tokenizer → String → ℕ → ℕ → ℕ → List Message → CompactionResult
compact_history k provider token_budget note_reserve min_recent messages =
    let before = sum_of (tokens_of k provider) messages in
    if leb before token_budget || length messages == 0
    then unchanged messages before
    else split_history k provider token_budget before messages (
        keep_recent k provider token_budget note_reserve min_recent
          (record { number = 0; used = 0 }) (reversed messages))
