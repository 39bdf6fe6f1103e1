-- ===== src/Context/Compose.antt =====
-- Chat messages from the sections of a prompt (app/prompts/compose.py). `lower` is `str.lower`.
pub mod Turns
use Prim.Native.String.{◌++◌ as append}
use llm_service.Prelude.{
  String, Bool, true, false, not, ◌&&◌, ◌||◌, Option, none, some, List, [], ◌∷◌, ◌++◌, map,
  if◌then◌else◌, str_eq, filter, contains, strip, join_with,
}
use llm_service.Context.Tokens.{ChatMessage}
use llm_service.Context.Sections.{PromptSection}

-- `_append`: a message, or more text for the last one of the same role
unfoldable pub append_message : List ChatMessage → String → String → List ChatMessage
append_message [] role content = record { role = role; content = content } ∷ []
append_message (m ∷ []) role content =
    if str_eq m.role role
    then record m { content = append m.content (append "\n\n" content) } ∷ []
    else m ∷ record { role = role; content = content } ∷ []
append_message (m ∷ n ∷ ms) role content = m ∷ append_message (n ∷ ms) role content

unfoldable pub is_chat_role : String → Bool
is_chat_role role = str_eq role "user" || str_eq role "assistant"

unfoldable pub add_items :
    (String → String) → List ChatMessage → List ChatMessage → List ChatMessage
add_items lower out [] = out
add_items lower out (i ∷ is) =
    let role = lower i.role in
    let content = strip i.content in
    add_items lower
      (if is_chat_role role && not (str_eq content "")
        then append_message out role content
        else out)
      is

-- `while out and out[0]["role"] != "user"`
unfoldable pub from_user : List ChatMessage → List ChatMessage
from_user [] = []
from_user (m ∷ ms) = let rest = from_user ms in if str_eq m.role "user" then m ∷ ms else rest

unfoldable pub items_of : Option (List ChatMessage) → List ChatMessage
items_of none = []
items_of (some items) = items

unfoldable pub history_messages : (String → String) → PromptSection → List ChatMessage
history_messages lower section = from_user (add_items lower [] (items_of section.items))

unfoldable pub is_named : String → PromptSection → Bool
is_named name s = str_eq s.name name

unfoldable pub text_of_sections : List PromptSection → String
text_of_sections sections = join_with "\n\n" (map (λ s. s.content) sections)

unfoldable pub system_prompt_of : List PromptSection → String
system_prompt_of sections = text_of_sections (filter (is_named "system") sections)

unfoldable pub user_prompt_of : List PromptSection → String
user_prompt_of sections = text_of_sections (filter (λ s. not (is_named "system" s)) sections)

unfoldable pub has_items : PromptSection → Bool
has_items s = elim (items_of s.items) [ [] ↦ false | _ ∷ _ ↦ true ]

unfoldable pub first_of : List PromptSection → Option PromptSection
first_of [] = none
first_of (s ∷ _) = some s

unfoldable pub history_section : List PromptSection → Option PromptSection
history_section sections =
    first_of (filter (λ s. is_named "conversation_history" s && has_items s) sections)

unfoldable pub system_messages : String → List ChatMessage
system_messages prompt =
    if str_eq prompt "" then [] else record { role = "system"; content = prompt } ∷ []

-- the text of every section but the instructions and the history
unfoldable pub rest_of : List PromptSection → String
rest_of sections =
    text_of_sections
      (filter (λ s. not (is_named "system" s || is_named "conversation_history" s)) sections)

unfoldable pub with_rest : List ChatMessage → String → List ChatMessage
with_rest messages rest = if str_eq rest "" then messages else append_message messages "user" rest

unfoldable pub with_prompt : List ChatMessage → String → List ChatMessage
with_prompt messages prompt =
    if str_eq prompt ""
    then messages
    else messages ++ record { role = "user"; content = prompt } ∷ []

-- the history is `none` where it is not sent as messages
unfoldable pub compose_with :
    (String → String) → List PromptSection → Option PromptSection → List ChatMessage
compose_with lower sections none =
    with_prompt (system_messages (system_prompt_of sections)) (user_prompt_of sections)
compose_with lower sections (some history) =
    with_rest (system_messages (system_prompt_of sections) ++ history_messages lower history)
      (rest_of sections)

-- the messages; the two texts that go with them are `system_prompt_of` and `user_prompt_of`
unfoldable pub compose_messages : (String → String) → List PromptSection → Bool → List ChatMessage
compose_messages lower sections history_as_messages =
    compose_with lower sections (if history_as_messages then history_section sections else none)
