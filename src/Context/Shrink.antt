-- ===== src/Context/Shrink.antt =====
-- How one section is cut to fewer tokens (`_shrink` and what it calls in
-- app/context_window/trimmer.py): a history at message boundaries from its oldest end, any other
-- section at line boundaries. `capitalize` is `str.capitalize`.

pub mod Meets
use Prim.Native.String.{◌++◌ as append, count}
use Prim.Native.Char.{Char, code}
use text.Mathlib.Text.{starts_with}
use llm_service.Prelude.{
  ℕ, suc, ◌+◌, String, Bool, true, false, ◌||◌, Option, none, some, List, [], ◌∷◌, ◌++◌, map,
  str_eq, if◌then◌else◌, ltb, leb, ◌==◌, is_space, rstrip, strip, split_on, join_with, first_chars,
  drop_chars,
}
use llm_service.Context.Tokens.{Tokenizer, count_text, truncate_text_to_tokens, ChatMessage}
use llm_service.Context.Sections.{PromptSection}

-- the longest prefix of whole lines that fits
unfoldable pub whole_lines : Tokenizer → String → ℕ → ℕ → List String → List String
whole_lines k provider target used [] = []
whole_lines k provider target used (line ∷ lines) =
    let cost = count_text k line provider + 1 in
    let rest = whole_lines k provider target (used + cost) lines in
    if ltb target (used + cost) then [] else line ∷ rest

abbrev is_break : Char → Bool
is_break c = code c == 32 || code c == 10 || code c == 9

-- `max(cut.rfind(" "), cut.rfind("\n"), cut.rfind("\t"))`, `none` for -1
unfoldable pub last_break : String → Option ℕ
last_break String.[] = none
last_break (String.◌∷◌ c s) = elim (last_break s) [
  | some n ↦ some (suc n)
  | none ↦ if is_break c then some 0 else none
]

-- whether the text begins with a space
unfoldable pub begins_with_space : String → Bool
begins_with_space String.[] = false
begins_with_space (String.◌∷◌ c _) = is_space c

unfoldable pub cut_before : String → Option ℕ → String
cut_before cut none = ""
cut_before cut (some n) = if ltb 0 n then rstrip (first_chars n cut) else ""

unfoldable pub cut_at_word : String → String → String
cut_at_word cut original =
    if leb (count original) (count cut) || begins_with_space (drop_chars (count cut) original)
    then rstrip cut
    else cut_before cut (last_break cut)

-- `kept` lines, or where there are none the start of the text
unfoldable pub lines_or_start : Tokenizer → String → String → ℕ → List String → String
lines_or_start k provider text target [] =
    cut_at_word (truncate_text_to_tokens k text target provider) text
lines_or_start k provider text target (line ∷ lines) = rstrip (join_with "\n" (line ∷ lines))

unfoldable pub keep_whole_lines : Tokenizer → String → String → ℕ → String
keep_whole_lines k provider text target =
    lines_or_start k provider text target (whole_lines k provider target 0 (split_on 10 text))

-- a line that begins a message: `^(User|Assistant|System|Tool): `, the role in lower case
unfoldable pub role_line : String → Option ChatMessage
role_line line =
    if starts_with line "User: "
    then some (record { role = "user"; content = drop_chars 6 line })
    else if starts_with line "Assistant: "
    then some (record { role = "assistant"; content = drop_chars 11 line })
    else if starts_with line "System: "
    then some (record { role = "system"; content = drop_chars 8 line })
    else if starts_with line "Tool: "
    then some (record { role = "tool"; content = drop_chars 6 line })
    else none

-- `items[-1]["content"] += "\n" + line`
unfoldable pub extend_last : String → List ChatMessage → List ChatMessage
extend_last line [] = []
extend_last line (i ∷ []) = record i { content = append i.content (append "\n" line) } ∷ []
extend_last line (i ∷ j ∷ is) = i ∷ extend_last line (j ∷ is)

unfoldable pub extend_header : String → String → String
extend_header header line = if str_eq header "" then line else append header (append "\n" line)

-- one line of the text, after the header and the messages read so far
unfoldable pub take_line : String → String → List ChatMessage → String × List ChatMessage
take_line line header items = elim (role_line line) [
  | some i ↦ (header, items ++ i ∷ [])
  | none ↦ elim items [
    | [] ↦ (extend_header header line, [])
    | i ∷ is ↦ (header, extend_last line (i ∷ is))
  ]
]

unfoldable pub parse_lines : List String → String → List ChatMessage → String × List ChatMessage
parse_lines [] header items = (header, items)
parse_lines (line ∷ lines) header items =
    let next = take_line line header items in parse_lines lines next.0 next.1

unfoldable pub history_items : PromptSection → String × List ChatMessage
history_items sec = elim sec.items [
  | some items ↦ (sec.header, items)
  | none ↦ parse_lines (split_on 10 sec.content) "" []
]

unfoldable pub render_item : (String → String) → ChatMessage → String
render_item capitalize i = append (capitalize i.role) (append ": " i.content)

unfoldable pub render_history : (String → String) → String → List ChatMessage → String
render_history capitalize header items =
    let lines = map (render_item capitalize) items in
    join_with "\n" (if str_eq header "" then lines else header ∷ lines)

-- the oldest messages go until the rendering fits
unfoldable pub drop_oldest :
    Tokenizer → (String → String) → String → String → ℕ → List ChatMessage → List ChatMessage
drop_oldest k capitalize provider header target [] = []
drop_oldest k capitalize provider header target (i ∷ is) =
    let rest = drop_oldest k capitalize provider header target is in
    if ltb target (count_text k (render_history capitalize header (i ∷ is)) provider)
    then rest
    else i ∷ is

-- the first words go until the text fits
unfoldable pub drop_words : Tokenizer → String → ℕ → List String → List String
drop_words k provider target [] = []
drop_words k provider target (w ∷ ws) =
    let rest = drop_words k provider target ws in
    if ltb target (count_text k (join_with " " (w ∷ ws)) provider) then rest else w ∷ ws

unfoldable pub history_text : (String → String) → String → List ChatMessage → String
history_text capitalize header [] = ""
history_text capitalize header (i ∷ is) = render_history capitalize header (i ∷ is)

-- `if sec.items is not None: sec.items = items`
unfoldable pub replace_items :
    Option (List ChatMessage) → List ChatMessage → Option (List ChatMessage)
replace_items none items = none
replace_items (some _) items = some items

unfoldable pub keep_newest :
    Tokenizer
    → (String → String)
    → String
    → ℕ
    → PromptSection
    → String
    → List ChatMessage
    → PromptSection
keep_newest k capitalize provider target sec header [] = record sec {
  content = strip (join_with " " (drop_words k provider target (split_on 32 sec.content)));
}
keep_newest k capitalize provider target sec header (i ∷ is) =
    let items = drop_oldest k capitalize provider header target (i ∷ is) in
    record sec {
      items = replace_items sec.items items;
      content = history_text capitalize header items;
    }

unfoldable pub shrink_history :
    Tokenizer → (String → String) → String → ℕ → PromptSection → PromptSection
shrink_history k capitalize provider target sec =
    let found = history_items sec in keep_newest k capitalize provider target sec found.0 found.1

unfoldable pub shrink : Tokenizer → (String → String) → String → ℕ → PromptSection → PromptSection
shrink k capitalize provider target sec =
    if str_eq sec.name "conversation_history"
    then shrink_history k capitalize provider target sec
    else record sec { content = keep_whole_lines k provider sec.content target }
