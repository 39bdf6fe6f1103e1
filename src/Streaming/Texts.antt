-- ===== src/Streaming/Texts.antt =====
-- The texts and the other calls of a run's events, and what a run is expected to give.
use Prim.Native.String.{◌++◌ as append}
use text.Mathlib.TextLemmas.{
  nil-append, append_assoc as str_append_assoc, append-nil as str_append-nil,
}
use llm_service.Prelude.{
  ℕ, ◌≡◌, refl, sym, ap, ◌∙◌, String, Bool, Option, none, some, List, [], ◌∷◌, ◌++◌, true, str_eq,
  str_eq_iff, arith, Bool-cases, inl, inr, if◌then◌else◌,
}
use llm_service.Providers.Deadlines.{End, finished, failed}
use llm_service.Streaming.{
  Item, Event, publish_chunk, publish_cancellation, publish_response, publish_memory_update, join,
  build_chunk_event, flush_buffer, flush_rest, returned, raised, StreamResult,
}

-- The text that the chunks of some events carry, in order.
abbrev pub chunk_text : List Event → String
chunk_text [] = ""
chunk_text (publish_chunk c ∷ es) = append c.content (chunk_text es)
chunk_text (publish_cancellation _ ∷ es) = chunk_text es
chunk_text (publish_response _ ∷ es) = chunk_text es
chunk_text (publish_memory_update _ ∷ es) = chunk_text es

-- The tokens that arrive before a cancellation is seen.
abbrev pub received : List Item → List String
received [] = []
received (i ∷ is) = elim i.cancelled [ none ↦ i.token ∷ received is | some _ ↦ [] ]

pub join-append : (xs ys : List String) → join (xs ++ ys) ≡ append (join xs) (join ys)
unfolding join
join-append [] ys = sym (nil-append (join ys))
join-append (x ∷ xs) ys = rw (join-append xs ys) (sym (str_append_assoc x (join xs) (join ys)))

pub chunk_text-append :
    (xs ys : List Event) → chunk_text (xs ++ ys) ≡ append (chunk_text xs) (chunk_text ys)
chunk_text-append [] ys = sym (nil-append (chunk_text ys))
chunk_text-append (publish_chunk c ∷ xs) ys =
    rw (chunk_text-append xs ys) (sym (str_append_assoc c.content (chunk_text xs) (chunk_text ys)))
chunk_text-append (publish_cancellation _ ∷ xs) ys = chunk_text-append xs ys
chunk_text-append (publish_response _ ∷ xs) ys = chunk_text-append xs ys
chunk_text-append (publish_memory_update _ ∷ xs) ys = chunk_text-append xs ys

pub chunk_text-flush_buffer :
    (buffer : List String) (i : ℕ) (last : Bool)
    → chunk_text (flush_buffer buffer i last) ≡ join buffer
unfolding flush_buffer build_chunk_event
chunk_text-flush_buffer buffer i last = elim (Bool-cases (str_eq (join buffer) "")) [
  | inl empty ↦ rw empty (sym ((str_eq_iff (join buffer) "").0 empty))
  | inr some_text ↦ rw some_text (str_append-nil (join buffer))
]

-- The events but the chunks.
abbrev pub others : List Event → List Event
others [] = []
others (publish_chunk _ ∷ es) = others es
others (publish_cancellation r ∷ es) = publish_cancellation r ∷ others es
others (publish_response t ∷ es) = publish_response t ∷ others es
others (publish_memory_update t ∷ es) = publish_memory_update t ∷ others es

pub others-append : (xs ys : List Event) → others (xs ++ ys) ≡ others xs ++ others ys
others-append [] ys = refl
others-append (publish_chunk _ ∷ xs) ys = others-append xs ys
others-append (publish_cancellation r ∷ xs) ys =
    ap (λ t. publish_cancellation r ∷ t) (others-append xs ys)
others-append (publish_response r ∷ xs) ys = ap (λ t. publish_response r ∷ t) (others-append xs ys)
others-append (publish_memory_update r ∷ xs) ys =
    ap (λ t. publish_memory_update r ∷ t) (others-append xs ys)

pub others-flush_buffer :
    (buffer : List String) (i : ℕ) (last : Bool) → others (flush_buffer buffer i last) ≡ []
unfolding flush_buffer
others-flush_buffer buffer i last = ground arith

pub chunk_text-flush_rest :
    (buffer : List String) (i : ℕ) → chunk_text (flush_rest buffer i) ≡ join buffer
unfolding flush_rest join
chunk_text-flush_rest [] i = refl
chunk_text-flush_rest (t ∷ ts) i = chunk_text-flush_buffer (t ∷ ts) i true

pub others-flush_rest : (buffer : List String) (i : ℕ) → others (flush_rest buffer i) ≡ []
unfolding flush_rest
others-flush_rest [] i = refl
others-flush_rest (t ∷ ts) i = others-flush_buffer (t ∷ ts) i true

-- The reason of the first cancellation that the loop sees.
abbrev pub first_reason : List Item → Option String
first_reason [] = none
first_reason (i ∷ is) = elim i.cancelled [ none ↦ first_reason is | some r ↦ some r ]

-- What `stream` gives when `text` is received before any cancellation.
abbrev pub expected_result : List Item → End → String → StreamResult
expected_result items end text = elim (first_reason items) [
  | some _ ↦ returned text
  | none ↦ elim end [ finished ↦ returned text | failed e ↦ raised e ]
]

abbrev pub expected_events : List Item → End → String → List Event
expected_events items end text = elim (first_reason items) [
  | some r ↦ publish_cancellation (if str_eq r "" then "client_disconnected" else r) ∷ []
  | none ↦ elim end [
    | finished ↦ publish_response text ∷ publish_memory_update text ∷ []
    | failed _ ↦ []
  ]
]

-- The chunks `a` of a round, whose buffer went from `b` to `b'`, and the chunks `c` of the later ones.
pub carry :
    (a c rest b b' tok tail : String)
    → append c rest ≡ append b' tail
    → append a b' ≡ append b tok
    → append (append a c) rest ≡ append b (append tok tail)
carry a c rest b b' tok tail later now =
    str_append_assoc a c rest
    ∙ ap (append a) later
    ∙ sym (str_append_assoc a b' tail)
    ∙ ap (λ t. append t tail) now
    ∙ str_append_assoc b tok tail
