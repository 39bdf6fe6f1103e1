-- ===== src/Context/Compose/Turns.antt =====
-- The roles of composed messages.
use text.Mathlib.TextEquality.{eq_iff}
use llm_service.Prelude.{
  ◌≡◌, refl, String, Bool, false, not, ◌&&◌, Option, none, some, List, [], ◌∷◌, ◌++◌, if◌then◌else◌,
  str_eq, strip, arith, Bool-cases, inl, inr,
}
use llm_service.Context.Tokens.{ChatMessage}
use llm_service.Context.Sections.{PromptSection}
use llm_service.Context.Compose.{
  append_message, is_chat_role, add_items, from_user, items_of, history_messages, system_messages,
  with_rest, with_prompt, compose_with, compose_messages, system_prompt_of, user_prompt_of,
  history_section, rest_of,
}

-- whether the first message, if any, has another role than this one
abbrev BeginsApart : String → List ChatMessage → Type 0
BeginsApart role [] = Unit
BeginsApart role (m ∷ ms) = str_eq role m.role ≡ false

-- no two consecutive messages have the same role
abbrev pub Alternates : List ChatMessage → Type 0
Alternates [] = Unit
Alternates (m ∷ ms) = BeginsApart m.role ms × Alternates ms

append_message-begins :
    (role other content : String) (ms : List ChatMessage)
    → BeginsApart other ms
    → str_eq other role ≡ false
    → BeginsApart other (append_message ms role content)
unfolding append_message
append_message-begins role other content [] h k = k
append_message-begins role other content (m ∷ []) h k = ground (arith, h)
append_message-begins role other content (m ∷ n ∷ ms) h k = h

append_message-tail :
    (role content : String) (m n : ChatMessage) (ms : List ChatMessage)
    → BeginsApart m.role (n ∷ ms)
    → BeginsApart m.role (append_message (n ∷ ms) role content)
unfolding append_message
append_message-tail role content m n [] h = ground (arith, h)
append_message-tail role content m n (o ∷ ms) h = h

append_message-Alternates :
    (role content : String) (ms : List ChatMessage)
    → Alternates ms
    → Alternates (append_message ms role content)
unfolding append_message
append_message-Alternates role content [] h = (tt, tt)
append_message-Alternates role content (m ∷ []) h = ground arith
append_message-Alternates role content (m ∷ n ∷ ms) h = (
  append_message-tail role content m n ms h.0,
  append_message-Alternates role content (n ∷ ms) h.1,
)

add_items-Alternates :
    (lower : String → String) (is out : List ChatMessage)
    → Alternates out
    → Alternates (add_items lower out is)
unfolding add_items
add_items-Alternates lower [] out h = h
add_items-Alternates lower (i ∷ is) out h =
    elim (Bool-cases (is_chat_role (lower i.role) && not (str_eq (strip i.content) ""))) [
      | inl e ↦ rw e (
          add_items-Alternates lower is (append_message out (lower i.role) (strip i.content))
            (append_message-Alternates (lower i.role) (strip i.content) out h))
      | inr e ↦ rw e (add_items-Alternates lower is out h)
    ]

from_user-Alternates : (ms : List ChatMessage) → Alternates ms → Alternates (from_user ms)
unfolding from_user
from_user-Alternates [] h = tt
from_user-Alternates (m ∷ ms) h = ground (arith, h.0, h.1, from_user-Alternates ms h.1)

from_user-apart : (ms : List ChatMessage) → BeginsApart "system" (from_user ms)
unfolding from_user
from_user-apart [] = tt
from_user-apart (m ∷ ms) = elim (Bool-cases (str_eq m.role "user")) [
  | inl e ↦ rw e (rw ((eq_iff m.role "user").0 e) refl)
  | inr e ↦ rw e (from_user-apart ms)
]

system_messages-Alternates :
    (prompt : String) (ms : List ChatMessage)
    → BeginsApart "system" ms
    → Alternates ms
    → Alternates (system_messages prompt ++ ms)
unfolding system_messages
system_messages-Alternates prompt ms h k = ground (arith, h, k)

with_prompt-Alternates :
    (prompt text : String) → Alternates (with_prompt (system_messages prompt) text)
unfolding with_prompt system_messages
with_prompt-Alternates prompt text = ground arith

with_rest-Alternates :
    (messages : List ChatMessage) (rest : String)
    → Alternates messages
    → Alternates (with_rest messages rest)
unfolding with_rest
with_rest-Alternates messages rest h =
    ground (arith, h, append_message-Alternates "user" rest messages h)

history_messages-Alternates :
    (lower : String → String) (history : PromptSection)
    → BeginsApart "system" (history_messages lower history)
      × Alternates (history_messages lower history)
unfolding history_messages
history_messages-Alternates lower history = (
  from_user-apart (add_items lower [] (items_of history.items)),
  from_user-Alternates _ (add_items-Alternates lower (items_of history.items) [] tt),
)

compose_with-Alternates :
    (lower : String → String) (sections : List PromptSection) (history : Option PromptSection)
    → Alternates (compose_with lower sections history)
unfolding compose_with
compose_with-Alternates lower sections none =
    with_prompt-Alternates (system_prompt_of sections) (user_prompt_of sections)
compose_with-Alternates lower sections (some history) =
    let turns = history_messages-Alternates lower history in
    with_rest-Alternates _ (rest_of sections) (
      system_messages-Alternates (system_prompt_of sections) (history_messages lower history)
        turns.0 turns.1)

-- Composed messages never have two of the same role in a row, whether the history is sent as
-- messages or as text: providers reject such a conversation.
pub compose_messages-Alternates :
    (lower : String → String) (sections : List PromptSection) (history_as_messages : Bool)
    → Alternates (compose_messages lower sections history_as_messages)
unfolding compose_messages
compose_messages-Alternates lower sections on =
    compose_with-Alternates lower sections (if on then history_section sections else none)
