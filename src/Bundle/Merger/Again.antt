-- ===== src/Bundle/Merger/Again.antt =====
-- A graph and a memory that are merged already are merged to themselves.
use llm_service.Prelude.{
  ◌≡◌, refl, ap, inl, inr, String, Option, none, some, List, [], ◌∷◌, any, contains, Bool-cases,
}
use llm_service.Bundle.{
  EntityNode, RelationshipEdge, Fact, GraphContext, MemoryContext, RetrievalContext,
}
use llm_service.Bundle.Merger.{
  Hasher, unique_nodes, unique_edges, same_edge, unique_facts, is_known, deduplicate_graph,
  deduplicate_memory, merge,
}
use mathlib.Core.Option.{map as option_map}

unique_nodes-again :
    (seen : List String) (ns : List EntityNode)
    → unique_nodes seen (unique_nodes seen ns) ≡ unique_nodes seen ns
unfolding unique_nodes
unique_nodes-again seen [] = refl
unique_nodes-again seen (n ∷ ns) = elim (Bool-cases (contains n.id seen)) [
  | inl e ↦ rw e (unique_nodes-again seen ns)
  | inr e ↦ rw (e, e) (ap (n ∷◌) (unique_nodes-again (n.id ∷ seen) ns))
]

unique_edges-again :
    (seen es : List RelationshipEdge)
    → unique_edges seen (unique_edges seen es) ≡ unique_edges seen es
unfolding unique_edges
unique_edges-again seen [] = refl
unique_edges-again seen (e ∷ es) = elim (Bool-cases (any (same_edge e) seen)) [
  | inl k ↦ rw k (unique_edges-again seen es)
  | inr k ↦ rw (k, k) (ap (e ∷◌) (unique_edges-again (e ∷ seen) es))
]

module _ (h : Hasher) where
  unique_facts-again :
      (fs : List Fact) (prints ids : List String)
      → unique_facts h prints ids (unique_facts h prints ids fs) ≡ unique_facts h prints ids fs
  unfolding unique_facts
  unique_facts-again [] prints ids = refl
  unique_facts-again (f ∷ fs) prints ids = elim (Bool-cases (is_known h prints ids f)) [
    | inl k ↦ rw k (unique_facts-again fs prints ids)
    | inr k ↦ rw (k, k) (ap (f ∷◌) (unique_facts-again fs _ _))
  ]

deduplicate_memory-again :
    (h : Hasher) (memory : MemoryContext)
    → deduplicate_memory h (deduplicate_memory h memory) ≡ deduplicate_memory h memory
unfolding deduplicate_memory
deduplicate_memory-again h memory =
    ap (λ fs. record memory { long_term_facts = fs })
      (unique_facts-again h memory.long_term_facts [] [])

deduplicate_graph-again :
    (graph : GraphContext) → deduplicate_graph (deduplicate_graph graph) ≡ deduplicate_graph graph
unfolding deduplicate_graph
deduplicate_graph-again graph =
    rw (unique_nodes-again [] graph.entities, unique_edges-again [] graph.relationships) refl

option_map-again :
    {A : Type 0} (f : A → A) (twice : (x : A) → f (f x) ≡ f x) (o : Option A)
    → option_map f (option_map f o) ≡ option_map f o
option_map-again f twice none = refl
option_map-again f twice (some x) = ap some (twice x)

-- The memory and the graph of a merged bundle, merged again with any retrieval, come out unchanged:
-- one pass of the removal of duplicate facts, nodes and edges leaves nothing to remove.
merge-again :
    (h : Hasher) (memory : Option MemoryContext) (graph : Option GraphContext)
    (first second : Option RetrievalContext) (missing : List String)
    → let bundle = merge h memory graph first missing in
      let again = merge h bundle.memory bundle.graph second missing in
      (again.memory ≡ bundle.memory) × (again.graph ≡ bundle.graph)
unfolding merge
merge-again h memory graph first second missing = (
  option_map-again (deduplicate_memory h) (deduplicate_memory-again h) memory,
  option_map-again deduplicate_graph deduplicate_graph-again graph,
)
