-- ===== src/Bundle/Tests.antt =====
-- Runs of the merger, the store of ids and the collector on small inputs, and the theorems at them.
use llm_service.Prelude.{
  ℕ, ◌≡◌, refl, ◌≢◌, take, length, ◌==◌, ◌⊎◌, String, true, false, none, some, [], ◌∷◌, map,
  if◌then◌else◌, arith,
}
use mathlib.Core.List.{cons-ne-nil}
use llm_service.Errors.{Exc, timeout_error}
use llm_service.Bundle.{MemoryContext, GraphContext, DocumentChunk, RetrievalContext}
use llm_service.Bundle.Merger.{
  same_edge, Hasher, rstrip_marks, generate_fingerprint, seed, seeds, chunk_print, is_seen,
  unique_chunks, deduplicate_chunks, insert_chunk, rank_chunks, sanitize, merge,
}
use llm_service.Bundle.Merger.Merged.{IsMerged, sanitize-IsMerged}
use llm_service.Bundle.Merger.Unique.{IsUnique, same_node, same_fact, merge-IsUnique}
use llm_service.Bundle.Previous.{Store, init, unique_ids, record_ids, get}
use llm_service.Bundle.Previous.Bounded.{
  created, recorded, read, IsValid, init-IsValid, Reach-IsValid, get-record_ids,
}
use llm_service.Bundle.Retrieval.{
  answered, raised, Config, Request, RetrievalClient, query_of, previous_of, fetch_retrieval,
}
use llm_service.Bundle.Retrieval.Calls.{AreCalls, fetch_retrieval-AreCalls}
use llm_service.Bundle.Collector.{collect}
use llm_service.Bundle.Collector.Collected.{IsCollected, collect-IsCollected}

abbrev hasher : Hasher
hasher = record { casefold = λ text. text; sha256 = λ text. text }

abbrev chunk : String → String → String → ℕ → DocumentChunk
chunk chunk_id file_id content score = record {
  chunk_id = chunk_id;
  file_id = file_id;
  source_name = "";
  content = content;
  score = score;
}

abbrev graph : GraphContext
graph = record {
  entities =
      record { id = "n1"; name = "Tea"; kind = "Concept"; description = some "tea is a drink" }
      ∷ record { id = "n1"; name = "Tea"; kind = "Concept"; description = none }
      ∷ [];
  relationships =
      record { source_id = "n1"; target_id = "n2"; relation_type = "is"; weight = 1 }
      ∷ record { source_id = "n1"; target_id = "n2"; relation_type = "is"; weight = 2 }
      ∷ [];
  subgraph_summary = none;
}

-- a chunk, the same again but for its spaces, one that the graph describes, and a better one
abbrev retrieval : RetrievalContext
retrieval = record {
  chunks =
      chunk "c1" "f" "green tea" 3
      ∷ chunk "c2" "f" "green  tea." 4
      ∷ chunk "c3" "g" "tea is a drink" 9
      ∷ chunk "c4" "g" "black tea" 5
      ∷ [];
  total_chunks = 4;
  status = "OK";
  full_text = false;
  truncated = false;
}

abbrev memory : MemoryContext
memory = record {
  short_term_messages = [];
  long_term_facts =
      record { fact_id = "fact_1"; statement = "likes tea" }
      ∷ record { fact_id = "fact_2"; statement = "likes tea!" }
      ∷ [];
  summary = "";
  summary_version = 0;
  summary_through_message_id = "";
  ancestor_summaries = [];
  retrieved_history = [];
  anchors = [];
}

sanitize-chunks :
    map (λ c. DocumentChunk.chunk_id c) (sanitize hasher (some graph) retrieval).chunks
    ≡ "c4" ∷ "c1" ∷ []
unfolding sanitize deduplicate_chunks unique_chunks is_seen chunk_print generate_fingerprint
    rstrip_marks seeds seed rank_chunks insert_chunk
sanitize-chunks = refl

retrieval-some : retrieval.chunks ≢ []
retrieval-some = cons-ne-nil _ _

sanitize-IsMerged_example :
    IsMerged hasher (some graph) retrieval.chunks (sanitize hasher (some graph) retrieval)
sanitize-IsMerged_example = sanitize-IsMerged hasher (some graph) retrieval retrieval-some

merge-IsUnique_example :
    let bundle = merge hasher (some memory) (some graph) (some retrieval) [] in
    (m : MemoryContext) × (g : GraphContext) × (bundle.memory ≡ some m)
    × (bundle.graph ≡ some g)
    × IsUnique (same_fact hasher) memory.long_term_facts m.long_term_facts
    × IsUnique same_node graph.entities g.entities
    × IsUnique same_edge graph.relationships g.relationships
merge-IsUnique_example = merge-IsUnique hasher memory graph (some retrieval) []

-- two records in a store of one conversation, and a reading that is too late
abbrev store : Store
store =
    (get "v" 99
      (record_ids "v" ("b" ∷ []) 6 (record_ids "u" ("a" ∷ "" ∷ "a" ∷ []) 5 (init 10 1 2)))).store

Reach-IsValid_example : IsValid store
Reach-IsValid_example =
    Reach-IsValid
      (read "v" 99 (recorded "v" ("b" ∷ []) 6 (recorded "u" ("a" ∷ "" ∷ "a" ∷ []) 5 created)))

unique_ids-some : unique_ids [] ("a" ∷ "" ∷ "a" ∷ "b" ∷ []) ≡ "a" ∷ "b" ∷ []
unfolding unique_ids
unique_ids-some = refl

shown_ids-some : take 2 (unique_ids [] ("a" ∷ "" ∷ "a" ∷ "b" ∷ [])) ≢ []
shown_ids-some = rw unique_ids-some (cons-ne-nil _ _)

get-record_ids_example :
    get "u" 9 (record_ids "u" ("a" ∷ "" ∷ "a" ∷ "b" ∷ []) 5 (init 10 1 2)) ≡ record {
      ids = take 2 (unique_ids [] ("a" ∷ "" ∷ "a" ∷ "b" ∷ []));
      store = record_ids "u" ("a" ∷ "" ∷ "a" ∷ "b" ∷ []) 5 (init 10 1 2);
    }
unfolding init
get-record_ids_example =
    get-record_ids "u" ("a" ∷ "" ∷ "a" ∷ "b" ∷ []) 5 9 (init 10 1 2) (init-IsValid 10 1 2)
      (omega arith) refl shown_ids-some (omega arith)

-- a service that is unavailable at first, and whose whole texts are truncated
abbrev client : RetrievalClient
client = record {
  get_document_chunks = λ _. answered (record retrieval { truncated = true });
  get_relevant_chunks = λ attempt _ _.
      answered (if attempt == 1 then record retrieval { status = "UNAVAILABLE" } else retrieval);
}

abbrev config : Config
config = record {
  retrieval_full_text_enabled = true;
  retrieval_full_text_share = 250;
  retrieval_input_budget_tokens = 0;
  prompt_token_budget = 0;
  context_budget_default_tokens = 150_000;
  retrieval_query_rewrite_enabled = false;
  retrieval_previous_chunks_enabled = true;
}

abbrev request : Request
request = record {
  conversation_id = "u";
  user_message = "tea?";
  file_ids = "f" ∷ "g" ∷ [];
  rewritten = none;
  read_at = 5;
  recorded_at = 6;
}

abbrev late : Exc
late = record {
  cls = timeout_error;
  error_code = "";
  message = "";
  user_message = "";
  status_code = none;
  grpc_code = none;
}

fetch_retrieval-AreCalls_example :
    let fetched = fetch_retrieval config request client (init 10 1 2) in
    AreCalls (query_of config request) (previous_of config request (init 10 1 2)).ids fetched.calls
    × ((length request.file_ids == 0 ≡ false)
        ⊎ ((fetched.calls ≡ []) × (fetched.store ≡ init 10 1 2)))
fetch_retrieval-AreCalls_example = fetch_retrieval-AreCalls config request client (init 10 1 2)

collect-IsCollected_example :
    IsCollected hasher
      (raised late)
      (answered graph)
      (fetch_retrieval config request client (init 10 1 2)).reply
      (collect hasher config request (raised late) (answered graph) client (init 10 1 2)).bundle
collect-IsCollected_example =
    collect-IsCollected hasher config request (raised late) (answered graph) client (init 10 1 2)
