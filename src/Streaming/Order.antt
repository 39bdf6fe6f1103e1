-- ===== src/Streaming/Order.antt =====
-- The numbering of the published chunks, and the one that is marked last.
use llm_service.Prelude.{
  ℕ, ◌+◌, ◌≤◌, ◌≡◌, refl, ap, ◌∙◌, String, Bool, false, List, [], ◌∷◌, ◌++◌, str_eq, arith,
  Bool-cases, Option-cases, inl, inr,
}
use llm_service.Providers.Deadlines.{End, finished, failed}
use llm_service.Streaming.{
  StreamingEngine, Publisher, Item, Event, publish_chunk, publish_cancellation, publish_response,
  publish_memory_update, ChunkEvent, State, StreamContext, join, build_chunk_event, flush_buffer,
  take_token, should_flush, after_flush, feed, flush_rest, last_flush, begin,
}
use mathlib.Core.Path.{subst}
use llm_service.Streaming.Cut.{stream-IsCut}
use llm_service.Streaming
use llm_service.Streaming.Reliable.{finish, consume, stream}

abbrev pub chunks : List Event → List ChunkEvent
chunks [] = []
chunks (publish_chunk c ∷ es) = c ∷ chunks es
chunks (publish_cancellation _ ∷ es) = chunks es
chunks (publish_response _ ∷ es) = chunks es
chunks (publish_memory_update _ ∷ es) = chunks es

-- The indices start at `n` or later and increase, the sequence number is the index plus one, and
-- no chunk but the final one is marked last.
abbrev pub IsOrdered : ℕ → List ChunkEvent → Type 0
IsOrdered n [] = Unit
IsOrdered n (c ∷ []) = (n ≤ c.chunk_index) × (c.sequence_number ≡ c.chunk_index + 1)
IsOrdered n (c ∷ d ∷ cs) =
    (n ≤ c.chunk_index)
    × (c.sequence_number ≡ c.chunk_index + 1)
    × (c.is_last ≡ false)
    × IsOrdered (c.chunk_index + 1) (d ∷ cs)

chunks-append : (xs ys : List Event) → chunks (xs ++ ys) ≡ chunks xs ++ chunks ys
chunks-append [] ys = refl
chunks-append (publish_chunk c ∷ xs) ys = rw (chunks-append xs ys) refl
chunks-append (publish_cancellation _ ∷ xs) ys = chunks-append xs ys
chunks-append (publish_response _ ∷ xs) ys = chunks-append xs ys
chunks-append (publish_memory_update _ ∷ xs) ys = chunks-append xs ys

IsOrdered-le : (n m : ℕ) (cs : List ChunkEvent) → n ≤ m → IsOrdered m cs → IsOrdered n cs
IsOrdered-le n m [] le h = tt
IsOrdered-le n m (c ∷ []) le h = (omega (arith, le, h.0), h.1)
IsOrdered-le n m (c ∷ d ∷ cs) le h = (omega (arith, le, h.0), h.1, h.2, h.3)

-- A flush before the end, in front of later chunks.
IsOrdered-flush :
    (buffer : List String) (n : ℕ) (es : List Event)
    → IsOrdered (n + 1) (chunks es)
    → IsOrdered n (chunks (flush_buffer buffer n false ++ es))
unfolding flush_buffer build_chunk_event
IsOrdered-flush buffer n es h = elim (Bool-cases (str_eq (join buffer) "")) [
  | inl empty ↦ rw empty (IsOrdered-le n (n + 1) (chunks es) (omega arith) h)
  | inr text ↦ rw text (go (chunks es) h)
]
  where
    go :
        (cs : List ChunkEvent)
        → IsOrdered (n + 1) cs
        → IsOrdered n (build_chunk_event (join buffer) n false ∷ cs)
    go [] h = (omega arith, refl)
    go (d ∷ cs) h = (omega arith, refl, refl, h)

IsOrdered-flush_rest :
    (buffer : List String) (n : ℕ) (text : String)
    → IsOrdered n
        (chunks (flush_rest buffer n ++ (publish_response text ∷ publish_memory_update text ∷ [])))
unfolding flush_rest flush_buffer build_chunk_event
IsOrdered-flush_rest [] n text = tt
IsOrdered-flush_rest (t ∷ ts) n text = elim (Bool-cases (str_eq (join (t ∷ ts)) "")) [
  | inl empty ↦ rw empty tt
  | inr some_text ↦ rw some_text (omega arith, refl)
]

IsOrdered-finish : (now : ℕ) (s : State) → IsOrdered s.chunk_index (chunks (finish now s).events)
unfolding finish last_flush
IsOrdered-finish now s = IsOrdered-flush_rest s.buffer s.chunk_index (join s.full_content)

IsOrdered-front : (n : ℕ) (xs ys : List ChunkEvent) → IsOrdered n (xs ++ ys) → IsOrdered n xs
IsOrdered-front n [] ys h = tt
IsOrdered-front n (c ∷ []) [] h = h
IsOrdered-front n (c ∷ []) (y ∷ ys) h = (h.0, h.1)
IsOrdered-front n (c ∷ d ∷ xs) ys h =
    (h.0, h.1, h.2, IsOrdered-front (c.chunk_index + 1) (d ∷ xs) ys h.3)

module _ (engine : StreamingEngine) (limited : Bool) (now : ℕ) where
  consume-IsOrdered :
      (items : List Item) (end : End) (s : State)
      → IsOrdered s.chunk_index (chunks (consume engine limited now items end s).events)
  unfolding consume feed take_token should_flush after_flush
  consume-IsOrdered [] finished s = IsOrdered-finish now s
  consume-IsOrdered [] (failed e) s = tt
  consume-IsOrdered (item ∷ items) end s = elim (Option-cases item.cancelled) [
    | inr (r, e) ↦ rw e tt
    | inl e ↦ elim (Bool-cases (should_flush engine limited item (take_token item s))) [
      | inl flush ↦
          rw (e, flush)
            (IsOrdered-flush (take_token item s).buffer s.chunk_index _
              (consume-IsOrdered items end (after_flush item (take_token item s))))
      | inr wait ↦ rw (e, wait) (consume-IsOrdered items end (take_token item s))
    ]
  ]

  Reliable-IsOrdered :
      (start begun_at : ℕ) (items : List Item) (end : End) (ctx : StreamContext)
      → IsOrdered 0 (chunks (stream engine limited now start begun_at items end ctx).events)
  unfolding stream begin
  Reliable-IsOrdered start begun_at items end ctx = consume-IsOrdered items end _

  -- Whatever way a run ends, also where a call of the publisher raises, its published chunks carry
  -- increasing indices and the sequence numbers one above them, and no chunk but the final one is
  -- marked last.
  pub stream-IsOrdered :
      (publish : Publisher) (start begun_at : ℕ) (items : List Item) (end : End)
      (ctx : StreamContext)
      → IsOrdered 0
          (chunks (Streaming.stream publish engine limited now start begun_at items end ctx).events)
  stream-IsOrdered publish start begun_at items end ctx =
      let whole = Reliable-IsOrdered start begun_at items end ctx in
      elim (stream-IsCut publish engine limited now start begun_at items end ctx) [
        | inl (_, all) ↦ rw all whole
        | inr (e, call, later, _, _, is) ↦ IsOrdered-front 0 _ (chunks (call ∷ later)) (
            subst (IsOrdered 0)
              (ap chunks is
                ∙ chunks-append
                    (Streaming.stream publish engine limited now start begun_at items end
                      ctx).events
                    (call ∷ later))
              whole)
      ]
