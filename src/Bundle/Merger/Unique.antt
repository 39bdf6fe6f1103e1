-- ===== src/Bundle/Merger/Unique.antt =====
-- The facts, nodes and edges of a merged bundle: each once, and none lost.
use text.Mathlib.TextEquality.{eq_iff}
use llm_service.Prelude.{
  ◌≡◌, refl, ◌⊎◌, inl, inr, String, Bool, true, false, not, ◌&&◌, ◌||◌, Option, some, List, [], ◌∷◌,
  str_eq, str_eq_refl, any, contains, All, All-mono, arith, Bool-cases,
}
use llm_service.Bundle.{
  Fact, EntityNode, RelationshipEdge, GraphContext, MemoryContext, RetrievalContext,
}
use llm_service.Bundle.Merger.{
  Hasher, generate_fingerprint, unique_nodes, same_edge, unique_edges, stable_id, add_id, is_known,
  unique_facts, deduplicate_graph, deduplicate_memory, merge,
}

module _ {A : Type 0} where
  abbrev IsIn : A → List A → Type 0
  IsIn x [] = ⊥
  IsIn x (y ∷ ys) = (x ≡ y) ⊎ IsIn x ys

  -- no element is the same as an earlier one
  abbrev Distinct : (A → A → Bool) → List A → Type 0
  Distinct same [] = Unit
  Distinct same (x ∷ xs) = All (λ y. same y x ≡ false) xs × Distinct same xs

  -- some elements are given, no two of those kept are the same, and each that is given is the same
  -- as one that is kept
  pub record IsUnique (same : A → A → Bool) (given kept : List A) : Type 0 where
    distinct : Distinct same kept
    inside : All (λ x. IsIn x given) kept
    covered : All (λ x. any (same x) kept ≡ true) given

  -- the same after some elements are seen, of which `met` tells whether one is among them
  record AreKept (same : A → A → Bool) (met : A → Bool) (given kept : List A) : Type 0 where
    distinct : Distinct same kept
    fresh : All (λ x. met x ≡ false) kept
    inside : All (λ x. IsIn x given) kept
    covered : All (λ x. met x || any (same x) kept ≡ true) given

  module _ (same : A → A → Bool) (met : A → Bool) where
    AreKept-skip :
        (x : A) (given kept : List A)
        → met x ≡ true
        → AreKept same met given kept
        → AreKept same met (x ∷ given) kept
    AreKept-skip x given kept e k = record {
      distinct = k.distinct;
      fresh = k.fresh;
      inside = All-mono (λ y i. inr i) kept k.inside;
      covered = (ground (arith, e), k.covered);
    }

    -- an element that is not met is kept, and met from then on
    AreKept-keep :
        (x : A) (later : A → Bool) (given kept : List A)
        → ((y : A) → later y ≡ met y || same y x)
        → same x x ≡ true
        → met x ≡ false
        → AreKept same later given kept
        → AreKept same met (x ∷ given) (x ∷ kept)
    AreKept-keep x later given kept law self e k = record {
      distinct = (All-mono (λ y f. ground (arith, law y, f)) kept k.fresh, k.distinct);
      fresh = (e, All-mono (λ y f. ground (arith, law y, f)) kept k.fresh);
      inside = (inl refl, All-mono (λ y i. inr i) kept k.inside);
      covered = (ground (arith, self), All-mono (λ y c. ground (arith, law y, c)) given k.covered);
    }

  AreKept-IsUnique :
      (same : A → A → Bool) (met : A → Bool) (given kept : List A)
      → ((x : A) → met x ≡ false)
      → AreKept same met given kept
      → IsUnique same given kept
  AreKept-IsUnique same met given kept unmet k = record {
    distinct = k.distinct;
    inside = k.inside;
    covered = All-mono (λ x c. ground (arith, unmet x, c)) given k.covered;
  }

abbrev pub same_node : EntityNode → EntityNode → Bool
same_node a b = str_eq a.id b.id

-- the same statement, or the same stable id
abbrev pub same_fact : Hasher → Fact → Fact → Bool
same_fact h a b =
    str_eq (generate_fingerprint h a.statement "") (generate_fingerprint h b.statement "")
    || (not (str_eq (stable_id a) "") && str_eq (stable_id a) (stable_id b))

unique_nodes-AreKept :
    (ns : List EntityNode) (seen : List String)
    → AreKept same_node (λ n. contains n.id seen) ns (unique_nodes seen ns)
unfolding unique_nodes
unique_nodes-AreKept [] seen = record { distinct = tt; fresh = tt; inside = tt; covered = tt }
unique_nodes-AreKept (n ∷ ns) seen = elim (Bool-cases (contains n.id seen)) [
  | inl e ↦ rw e (AreKept-skip same_node _ n ns _ e (unique_nodes-AreKept ns seen))
  | inr e ↦ rw e (
      AreKept-keep same_node _ n (λ m. contains m.id (n.id ∷ seen)) ns _ (λ m. ground arith)
        (str_eq_refl n.id) e (unique_nodes-AreKept ns (n.id ∷ seen)))
]

same_edge_self : (e : RelationshipEdge) → same_edge e e ≡ true
unfolding same_edge
same_edge_self e =
    ground (arith, str_eq_refl e.source_id, str_eq_refl e.target_id, str_eq_refl e.relation_type)

unique_edges-AreKept :
    (es seen : List RelationshipEdge)
    → AreKept same_edge (λ e. any (same_edge e) seen) es (unique_edges seen es)
unfolding unique_edges
unique_edges-AreKept [] seen = record { distinct = tt; fresh = tt; inside = tt; covered = tt }
unique_edges-AreKept (e ∷ es) seen = elim (Bool-cases (any (same_edge e) seen)) [
  | inl k ↦ rw k (AreKept-skip same_edge _ e es _ k (unique_edges-AreKept es seen))
  | inr k ↦ rw k (
      AreKept-keep same_edge _ e (λ f. any (same_edge f) (e ∷ seen)) es _ (λ f. ground arith)
        (same_edge_self e) k (unique_edges-AreKept es (e ∷ seen)))
]

is_known-add :
    (h : Hasher) (prints ids : List String) (g f : Fact)
    → is_known h (generate_fingerprint h g.statement "" ∷ prints) (add_id (stable_id g) ids) f
      ≡ is_known h prints ids f || same_fact h f g
unfolding is_known add_id
is_known-add h prints ids g f =
    ground
      (arith, eq_iff (stable_id f) (stable_id g), eq_iff (stable_id g) "", eq_iff (stable_id f) "")

unique_facts-AreKept :
    (h : Hasher) (fs : List Fact) (prints ids : List String)
    → AreKept (same_fact h) (is_known h prints ids) fs (unique_facts h prints ids fs)
unfolding unique_facts
unique_facts-AreKept h [] prints ids = record {
  distinct = tt;
  fresh = tt;
  inside = tt;
  covered = tt;
}
unique_facts-AreKept h (f ∷ fs) prints ids = elim (Bool-cases (is_known h prints ids f)) [
  | inl e ↦ rw e (AreKept-skip (same_fact h) _ f fs _ e (unique_facts-AreKept h fs prints ids))
  | inr e ↦ rw e (
      AreKept-keep (same_fact h) _ f _ fs _ (is_known-add h prints ids f)
        (ground (arith, str_eq_refl (generate_fingerprint h f.statement ""))) e
        (unique_facts-AreKept h fs _ _))
]

-- In a merged bundle no two facts have the same statement or the same stable id, no two nodes the
-- same id and no two edges the same ends and type; all of them were given, and each that was given
-- is the same, in this sense, as one that is kept.
pub merge-IsUnique :
    (h : Hasher) (memory : MemoryContext) (graph : GraphContext)
    (retrieval : Option RetrievalContext) (missing : List String)
    → let bundle = merge h (some memory) (some graph) retrieval missing in
      (m : MemoryContext) × (g : GraphContext) × (bundle.memory ≡ some m)
      × (bundle.graph ≡ some g)
      × IsUnique (same_fact h) memory.long_term_facts m.long_term_facts
      × IsUnique same_node graph.entities g.entities
      × IsUnique same_edge graph.relationships g.relationships
unfolding merge deduplicate_memory deduplicate_graph is_known
merge-IsUnique h memory graph retrieval missing = (
  deduplicate_memory h memory,
  deduplicate_graph graph,
  refl,
  refl,
  AreKept-IsUnique _ _ _ _ (λ f. ground arith)
      (unique_facts-AreKept h memory.long_term_facts [] []),
  AreKept-IsUnique _ _ _ _ (λ n. refl) (unique_nodes-AreKept graph.entities []),
  AreKept-IsUnique _ _ _ _ (λ e. refl) (unique_edges-AreKept graph.relationships []),
)
