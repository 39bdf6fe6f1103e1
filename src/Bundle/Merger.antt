-- ===== src/Bundle/Merger.antt =====
-- The merger of the services' answers (app/context/merger.py). `casefold` is the method of `str` and
-- `sha256` the hexadecimal digest of a text. A set that a loop only adds to is the list of what was
-- added to it.
pub mod Merged
pub mod Again
pub mod Unique
use Prim.Native.String.{◌++◌ as append}
use Prim.Native.Char.{code}
use llm_service.Prelude.{
  ℕ, String, Bool, not, ◌&&◌, ◌||◌, Option, none, some, List, [], ◌∷◌, map, str_eq, if◌then◌else◌,
  leb, ◌==◌, any, length, contains, join_with, words,
}
use mathlib.Core.Option.{map as option_map}
use text.Mathlib.Text.{starts_with}
use llm_service.Bundle.{
  Fact, MemoryContext, EntityNode, RelationshipEdge, GraphContext, DocumentChunk, RetrievalContext,
  ContextBundle,
}

pub record Hasher : Type 0 where
  pub casefold : String → String
  pub sha256 : String → String

-- `text.rstrip(".!?;:,")`
unfoldable pub rstrip_marks : String → String
rstrip_marks String.[] = ""
rstrip_marks (String.◌∷◌ c s) =
    let rest = rstrip_marks s in
    let n = code c in
    if str_eq rest "" && (n == 46 || n == 33 || n == 63 || n == 59 || n == 58 || n == 44)
    then ""
    else String.◌∷◌ c rest

unfoldable pub generate_fingerprint : Hasher → String → String → String
generate_fingerprint h text scope =
    let normalized = rstrip_marks (join_with " " (words (h.casefold text))) in
    h.sha256 (append scope (append "\u{1f}" normalized))

-- the fingerprints of the descriptions that are not empty
unfoldable pub seed : Hasher → List EntityNode → List String
seed h [] = []
seed h (e ∷ es) = elim e.description [
  | none ↦ seed h es
  | some text ↦ if str_eq text "" then seed h es else generate_fingerprint h text "" ∷ seed h es
]

unfoldable pub seeds : Hasher → Option GraphContext → List String
seeds h none = []
seeds h (some graph) = seed h graph.entities

unfoldable pub chunk_print : Hasher → DocumentChunk → String
chunk_print h c = generate_fingerprint h c.content c.file_id

-- whether a chunk is met already
unfoldable pub is_seen : Hasher → List String → DocumentChunk → Bool
is_seen h seen c =
    contains (generate_fingerprint h c.content "") seen || contains (chunk_print h c) seen

unfoldable pub unique_chunks : Hasher → List String → List DocumentChunk → List DocumentChunk
unique_chunks h seen [] = []
unique_chunks h seen (c ∷ cs) =
    let same = unique_chunks h seen cs in
    let more = unique_chunks h (chunk_print h c ∷ seen) cs in
    if is_seen h seen c then same else c ∷ more

unfoldable pub deduplicate_chunks :
    Hasher → List DocumentChunk → Option GraphContext → List DocumentChunk
deduplicate_chunks h chunks graph = unique_chunks h (seeds h graph) chunks

unfoldable pub insert_chunk : DocumentChunk → List DocumentChunk → List DocumentChunk
insert_chunk c [] = c ∷ []
insert_chunk c (d ∷ ds) =
    let rest = insert_chunk c ds in if leb d.score c.score then c ∷ d ∷ ds else d ∷ rest

-- `sorted` with `reverse=True`, which keeps the order of equal scores
unfoldable pub rank_chunks : List DocumentChunk → List DocumentChunk
rank_chunks [] = []
rank_chunks (c ∷ cs) = insert_chunk c (rank_chunks cs)

unfoldable pub unique_nodes : List String → List EntityNode → List EntityNode
unique_nodes seen [] = []
unique_nodes seen (n ∷ ns) =
    let same = unique_nodes seen ns in
    let more = unique_nodes (n.id ∷ seen) ns in if contains n.id seen then same else n ∷ more

-- whether two edges have the same key
unfoldable pub same_edge : RelationshipEdge → RelationshipEdge → Bool
same_edge a b =
    str_eq a.source_id b.source_id
    && str_eq a.target_id b.target_id
    && str_eq a.relation_type b.relation_type

unfoldable pub unique_edges : List RelationshipEdge → List RelationshipEdge → List RelationshipEdge
unique_edges seen [] = []
unique_edges seen (e ∷ es) =
    let same = unique_edges seen es in
    let more = unique_edges (e ∷ seen) es in if any (same_edge e) seen then same else e ∷ more

unfoldable pub deduplicate_graph : GraphContext → GraphContext
deduplicate_graph graph = record {
  entities = unique_nodes [] graph.entities;
  relationships = unique_edges [] graph.relationships;
  subgraph_summary = graph.subgraph_summary;
}

-- the id of a fact that is the same in every answer, or the empty text
unfoldable pub stable_id : Fact → String
stable_id fact = if starts_with fact.fact_id "fact_" then "" else fact.fact_id

unfoldable pub add_id : String → List String → List String
add_id id ids = if str_eq id "" then ids else id ∷ ids

-- whether a fact is met already, by its statement or by its id
unfoldable pub is_known : Hasher → List String → List String → Fact → Bool
is_known h prints ids fact =
    contains (generate_fingerprint h fact.statement "") prints
    || (not (str_eq (stable_id fact) "") && contains (stable_id fact) ids)

unfoldable pub unique_facts : Hasher → List String → List String → List Fact → List Fact
unique_facts h prints ids [] = []
unique_facts h prints ids (f ∷ fs) =
    let same = unique_facts h prints ids fs in
    let more =
      unique_facts h (generate_fingerprint h f.statement "" ∷ prints) (add_id (stable_id f) ids)
        fs in
    if is_known h prints ids f then same else f ∷ more

unfoldable pub deduplicate_memory : Hasher → MemoryContext → MemoryContext
deduplicate_memory h memory = record memory {
  long_term_facts = unique_facts h [] [] memory.long_term_facts;
}

unfoldable pub sanitize : Hasher → Option GraphContext → RetrievalContext → RetrievalContext
sanitize h graph retrieval = elim retrieval.chunks [
  | [] ↦ retrieval
  | _ ∷ _ ↦
      let ranked = rank_chunks (deduplicate_chunks h retrieval.chunks graph) in
      record retrieval { chunks = ranked; total_chunks = length ranked }
]

unfoldable pub is_degraded : List String → Bool
is_degraded missing = not (length missing == 0)

-- the time of the collection is left out
unfoldable pub merge :
    Hasher
    → Option MemoryContext
    → Option GraphContext
    → Option RetrievalContext
    → List String
    → ContextBundle
merge h memory graph retrieval missing = record {
  memory = option_map (deduplicate_memory h) memory;
  graph = option_map deduplicate_graph graph;
  retrieval = option_map (sanitize h graph) retrieval;
  degraded = is_degraded missing;
  missing_sources = missing;
}
