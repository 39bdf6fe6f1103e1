-- ===== src/Bundle/Merger/Merged.antt =====
-- The chunks of a merged bundle: each piece of evidence once, by falling score.
use llm_service.Prelude.{
  ◌≤◌, ◌≡◌, refl, sym, ap, ◌∙◌, ◌≢◌, ◌⊎◌, inl, inr, String, true, false, ◌||◌, Option, List, [],
  ◌∷◌, map, str_eq, str_eq_refl, if◌then◌else◌, leb, length, contains, All, All-mono, arith,
  Bool-cases, List-cases,
}
use llm_service.Bundle.{GraphContext, DocumentChunk, RetrievalContext}
use llm_service.Bundle.Merger.{
  Hasher, seeds, chunk_print, generate_fingerprint, is_seen, unique_chunks, deduplicate_chunks,
  insert_chunk, rank_chunks, sanitize,
}

abbrev IsIn : DocumentChunk → List DocumentChunk → Type 0
IsIn c [] = ⊥
IsIn c (d ∷ ds) = (c ≡ d) ⊎ IsIn c ds

abbrev Distinct : Hasher → List DocumentChunk → Type 0
Distinct h [] = Unit
Distinct h (c ∷ cs) = All (λ d. chunk_print h d ≢ chunk_print h c) cs × Distinct h cs

-- by falling score
abbrev IsRanked : List DocumentChunk → Type 0
IsRanked [] = Unit
IsRanked (c ∷ cs) = All (λ d. d.score ≤ c.score) cs × IsRanked cs

-- what is kept of some chunks, after what is seen
record AreUnique (h : Hasher) (seen : List String) (given kept : List DocumentChunk) : Type 0 where
  distinct : Distinct h kept
  fresh : All (λ c. is_seen h seen c ≡ false) kept
  inside : All (λ c. IsIn c given) kept
  covered : All (λ c. is_seen h seen c || is_seen h (map (chunk_print h) kept) c ≡ true) given

is_seen-fresh :
    (h : Hasher) (p : String) (seen : List String) (c : DocumentChunk)
    → is_seen h (p ∷ seen) c ≡ false
    → (is_seen h seen c ≡ false) × (chunk_print h c ≢ p)
unfolding is_seen
is_seen-fresh h p seen c k = (ground (arith, k), λ e. ground (arith, k, e, str_eq_refl p))

-- a chunk that is seen after one more print is seen before it, or has it among what is kept
is_seen-later :
    (h : Hasher) (p : String) (seen kept : List String) (c : DocumentChunk)
    → is_seen h (p ∷ seen) c || is_seen h kept c ≡ true
    → is_seen h seen c || is_seen h (p ∷ kept) c ≡ true
unfolding is_seen
is_seen-later h p seen kept c k = ground (arith, k)

is_seen-own :
    (h : Hasher) (kept : List String) (c : DocumentChunk)
    → is_seen h (chunk_print h c ∷ kept) c ≡ true
unfolding is_seen
is_seen-own h kept c = ground (arith, str_eq_refl (chunk_print h c))

unique_chunks-AreUnique :
    (h : Hasher) (seen : List String) (cs : List DocumentChunk)
    → AreUnique h seen cs (unique_chunks h seen cs)
unfolding unique_chunks
unique_chunks-AreUnique h seen [] = record { distinct = tt; fresh = tt; inside = tt; covered = tt }
unique_chunks-AreUnique h seen (c ∷ cs) =
    let same = unique_chunks-AreUnique h seen cs in
    let more = unique_chunks-AreUnique h (chunk_print h c ∷ seen) cs in
    elim (Bool-cases (is_seen h seen c)) [
      | inl e ↦ rw e (record {
        distinct = same.distinct;
        fresh = same.fresh;
        inside = All-mono (λ d i. inr i) _ same.inside;
        covered = (rw e refl, same.covered);
      })
      | inr e ↦ rw e (record {
        distinct = (All-mono (λ d k. (is_seen-fresh h _ seen d k).1) _ more.fresh, more.distinct);
        fresh = (e, All-mono (λ d k. (is_seen-fresh h _ seen d k).0) _ more.fresh);
        inside = (inl refl, All-mono (λ d i. inr i) _ more.inside);
        covered = (
          rw (is_seen-own h _ c, e) refl,
          All-mono (λ d k. is_seen-later h _ seen _ d k) _ more.covered,
        );
      })
    ]

module _ (P : DocumentChunk → Type 0) where
  All-insert_chunk :
      (c : DocumentChunk) (cs : List DocumentChunk) → P c → All P cs → All P (insert_chunk c cs)
  unfolding insert_chunk
  All-insert_chunk c [] hc hs = (hc, tt)
  All-insert_chunk c (d ∷ ds) hc hs = ground (arith, All-insert_chunk c ds hc hs.1)

  All-rank_chunks : (cs : List DocumentChunk) → All P cs → All P (rank_chunks cs)
  unfolding rank_chunks
  All-rank_chunks [] hs = tt
  All-rank_chunks (c ∷ cs) hs = All-insert_chunk c (rank_chunks cs) hs.0 (All-rank_chunks cs hs.1)

insert_chunk-IsRanked :
    (c : DocumentChunk) (cs : List DocumentChunk) → IsRanked cs → IsRanked (insert_chunk c cs)
unfolding insert_chunk
insert_chunk-IsRanked c [] k = (tt, tt)
insert_chunk-IsRanked c (d ∷ ds) k = elim (Bool-cases (leb d.score c.score)) [
  | inl e ↦ rw e ((ground (arith, e), All-mono (λ x le. ground (arith, le, e)) ds k.0), k)
  | inr e ↦ rw e (
    All-insert_chunk (λ x. x.score ≤ d.score) c ds (ground (arith, e)) k.0,
    insert_chunk-IsRanked c ds k.1,
  )
]

rank_chunks-IsRanked : (cs : List DocumentChunk) → IsRanked (rank_chunks cs)
unfolding rank_chunks
rank_chunks-IsRanked [] = tt
rank_chunks-IsRanked (c ∷ cs) = insert_chunk-IsRanked c (rank_chunks cs) (rank_chunks-IsRanked cs)

insert_chunk-Distinct :
    (h : Hasher) (c : DocumentChunk) (cs : List DocumentChunk)
    → All (λ d. chunk_print h d ≢ chunk_print h c) cs
    → Distinct h cs
    → Distinct h (insert_chunk c cs)
unfolding insert_chunk
insert_chunk-Distinct h c [] k m = (tt, tt)
insert_chunk-Distinct h c (d ∷ ds) k m = elim (Bool-cases (leb d.score c.score)) [
  | inl e ↦ rw e (k, m)
  | inr e ↦ rw e (
    All-insert_chunk (λ x. chunk_print h x ≢ chunk_print h d) c ds (λ same. k.0 (sym same)) m.0,
    insert_chunk-Distinct h c ds k.1 m.1,
  )
]

rank_chunks-Distinct :
    (h : Hasher) (cs : List DocumentChunk) → Distinct h cs → Distinct h (rank_chunks cs)
unfolding rank_chunks
rank_chunks-Distinct h [] k = tt
rank_chunks-Distinct h (c ∷ cs) k =
    insert_chunk-Distinct h c (rank_chunks cs) (All-rank_chunks _ cs k.0)
      (rank_chunks-Distinct h cs k.1)

contains-insert_chunk :
    (h : Hasher) (p : String) (c : DocumentChunk) (cs : List DocumentChunk)
    → contains p (map (chunk_print h) (insert_chunk c cs))
      ≡ (if str_eq p (chunk_print h c) then true else contains p (map (chunk_print h) cs))
unfolding insert_chunk
contains-insert_chunk h p c [] = ground arith
contains-insert_chunk h p c (d ∷ ds) = ground (arith, contains-insert_chunk h p c ds)

contains-rank_chunks :
    (h : Hasher) (p : String) (cs : List DocumentChunk)
    → contains p (map (chunk_print h) (rank_chunks cs)) ≡ contains p (map (chunk_print h) cs)
unfolding rank_chunks
contains-rank_chunks h p [] = refl
contains-rank_chunks h p (c ∷ cs) =
    contains-insert_chunk h p c (rank_chunks cs) ∙ ground (arith, contains-rank_chunks h p cs)

is_seen-rank_chunks :
    (h : Hasher) (cs : List DocumentChunk) (c : DocumentChunk)
    → is_seen h (map (chunk_print h) (rank_chunks cs)) c ≡ is_seen h (map (chunk_print h) cs) c
unfolding is_seen
is_seen-rank_chunks h cs c =
    rw
      (
        contains-rank_chunks h (generate_fingerprint h c.content "") cs,
        contains-rank_chunks h (chunk_print h c) cs,
      )
      refl

rank_chunks-AreUnique :
    (h : Hasher) (seen : List String) (given kept : List DocumentChunk)
    → AreUnique h seen given kept
    → AreUnique h seen given (rank_chunks kept)
rank_chunks-AreUnique h seen given kept k = record {
  distinct = rank_chunks-Distinct h kept k.distinct;
  fresh = All-rank_chunks _ kept k.fresh;
  inside = All-rank_chunks _ kept k.inside;
  covered =
      All-mono (λ c m. ap (is_seen h seen c ||◌) (is_seen-rank_chunks h kept c) ∙ m) given
        k.covered;
}

-- what the chunks of a merged bundle are
pub record IsMerged (h : Hasher) (graph : Option GraphContext) (given : List DocumentChunk)
    (result : RetrievalContext) : Type 0 where
  ranked : IsRanked result.chunks
  unique : AreUnique h (seeds h graph) given result.chunks
  counted : result.total_chunks ≡ length result.chunks

-- Where a retrieval has chunks, those of the merged bundle are some of them, by falling score and
-- counted: no two have the same text and file, none repeats a description of the graph, and every
-- chunk that is left out repeats a description or a chunk that stays.
pub sanitize-IsMerged :
    (h : Hasher) (graph : Option GraphContext) (retrieval : RetrievalContext)
    → retrieval.chunks ≢ []
    → IsMerged h graph retrieval.chunks (sanitize h graph retrieval)
unfolding sanitize deduplicate_chunks
sanitize-IsMerged h graph retrieval present = elim (List-cases retrieval.chunks) [
  | inl e ↦ elim (present e) [ ]
  | inr (c, cs, e) ↦ rw e (record {
    ranked = rank_chunks-IsRanked _;
    unique = rank_chunks-AreUnique h _ _ _ (unique_chunks-AreUnique h (seeds h graph) (c ∷ cs));
    counted = refl;
  })
]
