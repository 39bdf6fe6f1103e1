-- ===== src/Bundle.antt =====
-- What the services of memory, graph and retrieval send, and the bundle made of it
-- (app/context/schemas.py). Times and open-ended dictionaries, which no code here reads, are left
-- out; a score is a whole number of some small unit.
pub mod Merger
pub mod Previous
pub mod Retrieval
pub mod Collector
pub mod Tests
use llm_service.Prelude.{ℕ, String, Bool, true, false, Option, none, some, List, []}

pub record Message : Type 0 where
  pub role : String
  pub content : String
  pub message_id : Option String

pub record Fact : Type 0 where
  pub fact_id : String
  pub statement : String

pub record AncestorSummary : Type 0 where
  pub conversation_id : String
  pub summary : String
  pub covers_through_message_id : String
  pub summary_version : ℕ

pub record Anchor : Type 0 where
  pub kind : String
  pub text : String
  pub source_message_id : String

pub record MemoryContext : Type 0 where
  pub short_term_messages : List Message
  pub long_term_facts : List Fact
  pub summary : String
  pub summary_version : ℕ
  pub summary_through_message_id : String
  pub ancestor_summaries : List AncestorSummary
  pub retrieved_history : List Message
  pub anchors : List Anchor

-- an absent description is `none`
pub record EntityNode : Type 0 where
  pub id : String
  pub name : String
  pub kind : String
  pub description : Option String

pub record RelationshipEdge : Type 0 where
  pub source_id : String
  pub target_id : String
  pub relation_type : String
  pub weight : ℕ

pub record GraphContext : Type 0 where
  pub entities : List EntityNode
  pub relationships : List RelationshipEdge
  pub subgraph_summary : Option String

pub record DocumentChunk : Type 0 where
  pub chunk_id : String
  pub file_id : String
  pub source_name : String
  pub content : String
  pub score : ℕ

pub record RetrievalContext : Type 0 where
  pub chunks : List DocumentChunk
  pub total_chunks : ℕ
  pub status : String
  pub full_text : Bool
  pub truncated : Bool

pub record ContextBundle : Type 0 where
  pub memory : Option MemoryContext
  pub graph : Option GraphContext
  pub retrieval : Option RetrievalContext
  pub degraded : Bool
  pub missing_sources : List String

unfoldable pub empty : ContextBundle
empty = record {
  memory = none;
  graph = none;
  retrieval = none;
  degraded = false;
  missing_sources = [];
}
