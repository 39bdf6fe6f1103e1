-- ===== src/Streaming/Content.antt =====
-- No token is lost, doubled or moved between the iterator and the published events.
use Prim.Native.String.{◌++◌ as append}
use llm_service.Prelude.{
  ℕ, ◌+◌, ◌≡◌, ◌⊎◌, length, some, sym, ap, ◌∙◌, String, Bool, none, List, ◌∷◌, ◌++◌, All, arith,
  inl, inr,
}
use llm_service.Providers.Deadlines.{End, finished}
use llm_service.Streaming.{
  StreamingEngine, Publisher, Event, raised, Item, publish_response, publish_memory_update, State,
  StreamContext, join, flush_buffer, take_token, should_flush, after_flush, feed, StreamRun,
  last_flush, begin, reason_or_default,
}
use llm_service.Errors.{Exc}
use llm_service.Streaming
use llm_service.Streaming.Cut.{stream-IsCut}
use llm_service.Streaming.Texts.{
  chunk_text, received, chunk_text-append, others, others-append, expected_result, expected_events,
}
use llm_service.Streaming.Whole.{Reliable-complete, Reliable-outcome}

zero_plus : (n : ℕ) → 0 + n ≡ n
zero_plus n = omega arith

module _ (publish : Publisher) (engine : StreamingEngine) (limited : Bool) (now start begun_at : ℕ)
    (ctx : StreamContext) where
  abbrev engine_run : List Item → End → StreamRun
  engine_run items end = Streaming.stream publish engine limited now start begun_at items end ctx

  -- the publisher raised at the call after those of the run, and the run ends in its exception
  abbrev pub IsRaised : StreamRun → Type 0
  IsRaised run =
      (e : Exc) × (call : Event) × (publish (length run.events) call ≡ some e)
      × (run.result ≡ raised e)

  -- If no cancellation is seen and the iterator ends normally, the published chunks, joined in the
  -- order of publication, are exactly the text received; or a call of the publisher raised, the run
  -- ends in its exception, and the chunks published before it are a beginning of that text.
  pub stream_complete :
      (items : List Item)
      → All (λ i. i.cancelled ≡ none) items
      → (chunk_text (engine_run items finished).events ≡ join (received items))
        ⊎ IsRaised (engine_run items finished)
          × ((rest : String) × (append (chunk_text (engine_run items finished).events) rest
                ≡ join (received items)))
  stream_complete items h =
      let whole = Reliable-complete engine limited now start begun_at ctx items h in
      elim (stream-IsCut publish engine limited now start begun_at items finished ctx) [
        | inl (_, all) ↦ inl (ap chunk_text all ∙ whole)
        | inr (e, call, later, raises, ends, is) ↦ inr (
          (e, call, ap (λ m. publish m call) (sym (zero_plus _)) ∙ raises, ends),
          (
            chunk_text (call ∷ later),
            sym (chunk_text-append (engine_run items finished).events (call ∷ later))
                ∙ sym (ap chunk_text is)
                ∙ whole,
          ),
        )
      ]

  -- A run ends in one of four ways. If a cancellation is seen, the text received so far is returned
  -- and, besides chunks, one cancellation event is published, with the token's reason or
  -- "client_disconnected" for an empty one; else, if the iterator ends normally, all the text is
  -- returned and published as the response and then as the memory update; else the iterator's
  -- exception is raised and nothing but chunks is published. Or a call of the publisher raised: its
  -- exception ends the run, and the events published before it, besides chunks, are the first of
  -- those that the run would have published.
  pub stream-outcome :
      (items : List Item) (end : End)
      → ((engine_run items end).result ≡ expected_result items end (join (received items)))
          × (others (engine_run items end).events
              ≡ expected_events items end (join (received items)))
        ⊎ IsRaised (engine_run items end)
          × ((rest : List Event) × (others (engine_run items end).events ++ rest
                ≡ expected_events items end (join (received items))))
  stream-outcome items end =
      let (result, events) = Reliable-outcome engine limited now start begun_at ctx items end in
      elim (stream-IsCut publish engine limited now start begun_at items end ctx) [
        | inl (same, all) ↦ inl (same ∙ result, ap others all ∙ events)
        | inr (e, call, later, raises, ends, is) ↦ inr (
          (e, call, ap (λ m. publish m call) (sym (zero_plus _)) ∙ raises, ends),
          (
            others (call ∷ later),
            sym (others-append (engine_run items end).events (call ∷ later))
                ∙ sym (ap others is)
                ∙ events,
          ),
        )
      ]
