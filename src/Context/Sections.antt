-- ===== src/Context/Sections.antt =====
-- A section of a prompt (PromptSection of app/prompts/schemas.py).
use llm_service.Prelude.{ℕ, String, Bool, Option, List}
use llm_service.Context.Tokens.{ChatMessage}

pub record PromptSection : Type 0 where
  pub name : String
  pub content : String
  pub priority : ℕ
  pub token_count : ℕ
  pub trimmable : Bool
  -- the messages of a conversation history, oldest first
  pub items : Option (List ChatMessage)
  pub header : String
