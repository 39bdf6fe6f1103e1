-- ===== src/Bundle/Collector/Collected.antt =====
-- What is collected when some of the services fail.
use llm_service.Prelude.{
  ◌≡◌, refl, String, Bool, true, false, ◌||◌, Option, none, some, List, [], ◌∷◌, ◌++◌, contains,
  if◌then◌else◌, arith,
}
use mathlib.Core.Option.{map as option_map}
use llm_service.Bundle.{MemoryContext, GraphContext, RetrievalContext, ContextBundle}
use llm_service.Bundle.Merger.{
  Hasher, deduplicate_memory, deduplicate_graph, sanitize, merge, is_degraded,
}
use llm_service.Bundle.Previous.{Store}
use llm_service.Bundle.Retrieval.{
  Reply, answered, raised, Config, Request, RetrievalClient, fetch_retrieval,
}
use llm_service.Bundle.Collector.{answer_as, answer_of, keep, process_one, process, gather, collect}

abbrev has_raised : {A : Type 0} → Reply A → Bool
has_raised (raised _) = true
has_raised (answered _) = false

abbrev value : {A : Type 0} → Reply A → Option A
value (raised _) = none
value (answered a) = some a

-- the value of a reply that has one
abbrev flat_value : {A : Type 0} → Reply (Option A) → Option A
flat_value (raised _) = none
flat_value (answered a) = a

abbrev noted : String → Bool → List String
noted name b = if b then name ∷ [] else []

gather-missing :
    (memory : Reply MemoryContext) (graph : Reply GraphContext)
    (retrieval : Reply (Option RetrievalContext))
    → gather memory graph retrieval ≡ record {
      memory_res = value memory;
      graph_res = value graph;
      retrieval_res = flat_value retrieval;
      missing_sources =
          noted "memory" (has_raised memory)
          ++ noted "graph" (has_raised graph)
          ++ noted "retrieval" (has_raised retrieval);
    }
unfolding gather process process_one keep answer_as answer_of
gather-missing (raised m) (raised g) (raised r) = refl
gather-missing (raised m) (raised g) (answered none) = refl
gather-missing (raised m) (raised g) (answered (some r)) = refl
gather-missing (raised m) (answered g) (raised r) = refl
gather-missing (raised m) (answered g) (answered none) = refl
gather-missing (raised m) (answered g) (answered (some r)) = refl
gather-missing (answered m) (raised g) (raised r) = refl
gather-missing (answered m) (raised g) (answered none) = refl
gather-missing (answered m) (raised g) (answered (some r)) = refl
gather-missing (answered m) (answered g) (raised r) = refl
gather-missing (answered m) (answered g) (answered none) = refl
gather-missing (answered m) (answered g) (answered (some r)) = refl

-- the names that are noted, and whether there are any
noted-cases :
    (m g r : Bool)
    → let names = noted "memory" m ++ noted "graph" g ++ noted "retrieval" r in
      (contains "memory" names ≡ m)
      × (contains "graph" names ≡ g)
      × (contains "retrieval" names ≡ r)
      × (is_degraded names ≡ m || g || r)
unfolding is_degraded
noted-cases m g r = ground arith

-- each source has its part of the bundle, or is named as missing
pub record IsCollected (h : Hasher) (memory : Reply MemoryContext) (graph : Reply GraphContext)
    (retrieval : Reply (Option RetrievalContext)) (bundle : ContextBundle) : Type 0 where
  memory_part : bundle.memory ≡ option_map (deduplicate_memory h) (value memory)
  graph_part : bundle.graph ≡ option_map deduplicate_graph (value graph)
  retrieval_part : bundle.retrieval ≡ option_map (sanitize h (value graph)) (flat_value retrieval)
  no_memory : contains "memory" bundle.missing_sources ≡ has_raised memory
  no_graph : contains "graph" bundle.missing_sources ≡ has_raised graph
  no_retrieval : contains "retrieval" bundle.missing_sources ≡ has_raised retrieval
  degraded : bundle.degraded ≡ has_raised memory || has_raised graph || has_raised retrieval

-- Whatever the services reply, a bundle is collected: a source is named as missing exactly where its
-- fetch raised, the bundle is degraded exactly where one did, and each source that answered has its
-- answer in it, freed of duplicates, the chunks also of the descriptions of the graph that came.
pub collect-IsCollected :
    (h : Hasher) (cfg : Config) (ctx : Request) (memory : Reply MemoryContext)
    (graph : Reply GraphContext) (client : RetrievalClient) (store : Store)
    → IsCollected h memory graph
        (fetch_retrieval cfg ctx client store).reply
        (collect h cfg ctx memory graph client store).bundle
unfolding collect merge
collect-IsCollected h cfg ctx memory graph client store =
    let retrieval = (fetch_retrieval cfg ctx client store).reply in
    let cases = noted-cases (has_raised memory) (has_raised graph) (has_raised retrieval) in
    rw (gather-missing memory graph retrieval) (record {
      memory_part = refl;
      graph_part = refl;
      retrieval_part = refl;
      no_memory = cases.0;
      no_graph = cases.1;
      no_retrieval = cases.2;
      degraded = cases.3;
    })
