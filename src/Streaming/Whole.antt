-- ===== src/Streaming/Whole.antt =====
-- What the run of a publisher that never raises publishes: no token is lost, doubled or moved between
-- the iterator and the events.
use Prim.Native.String.{◌++◌ as append}
use text.Mathlib.TextLemmas.{nil-append, append-nil as str_append-nil}
use mathlib.Core.List.{append_assoc, append-nil}
use llm_service.Prelude.{
  ℕ, ◌≡◌, refl, sym, ap, ◌∙◌, String, Bool, false, none, List, [], ◌∷◌, ◌++◌, All, arith,
  Bool-cases, Option-cases, inl, inr,
}
use llm_service.Providers.Deadlines.{End, finished, failed}
use llm_service.Streaming.{
  StreamingEngine, Item, publish_response, publish_memory_update, State, StreamContext, join,
  take_token, should_flush, after_flush, feed, StreamRun, last_flush, begin, reason_or_default,
}
use llm_service.Streaming.Reliable.{finish, consume, stream}
use llm_service.Streaming.Texts.{
  chunk_text, received, join-append, chunk_text-append, chunk_text-flush_buffer,
  chunk_text-flush_rest, others-flush_rest, others, others-append, others-flush_buffer,
  expected_result, expected_events, carry,
}

module _ (engine : StreamingEngine) (limited : Bool) where
  -- One round moves the token into the buffer or out with it.
  feed-text :
      (item : Item) (s : State)
      → append
          (chunk_text (feed engine limited item s).1)
          (join (feed engine limited item s).0.buffer)
        ≡ append (join s.buffer) item.token
  unfolding feed after_flush take_token join
  feed-text item s = elim (Bool-cases (should_flush engine limited item (take_token item s))) [
    | inl flush ↦
        rw (flush, feed)
          (str_append-nil _
            ∙ chunk_text-flush_buffer (take_token item s).buffer s.chunk_index false
            ∙ taken)
    | inr wait ↦ rw (wait, feed) (nil-append _ ∙ taken)
  ]
    where
      taken : join (s.buffer ++ (item.token ∷ [])) ≡ append (join s.buffer) item.token
      taken =
          join-append s.buffer (item.token ∷ [])
          ∙ ap (append (join s.buffer)) (unfold join in str_append-nil item.token)

  feed-full :
      (item : Item) (s : State)
      → (feed engine limited item s).0.full_content ≡ s.full_content ++ (item.token ∷ [])
  unfolding feed after_flush take_token
  feed-full item s = ground arith

  module _ (now : ℕ) where
    abbrev run : List Item → End → State → StreamRun
    run = consume engine limited now

    -- what was in the buffer and what arrives
    abbrev pending : List Item → State → String
    pending items s = append (join s.buffer) (join (received items))

    chunk_text-finish : (s : State) → chunk_text (finish now s).events ≡ join s.buffer
    unfolding finish last_flush join
    chunk_text-finish s =
        chunk_text-append (last_flush s) _
        ∙ str_append-nil _
        ∙ chunk_text-flush_rest s.buffer s.chunk_index

    consume-prefix :
        (items : List Item) (end : End) (s : State)
        → (rest : String) × (append (chunk_text (run items end s).events) rest ≡ pending items s)
    unfolding consume join feed take_token should_flush after_flush
    consume-prefix [] finished s =
        ("", str_append-nil _ ∙ chunk_text-finish s ∙ sym (str_append-nil (join s.buffer)))
    consume-prefix [] (failed e) s =
        (join s.buffer, nil-append _ ∙ sym (str_append-nil (join s.buffer)))
    consume-prefix (item ∷ items) end s = elim (Option-cases item.cancelled) [
      | inl e ↦
          let (rest, ih) = consume-prefix items end (feed engine limited item s).0 in
          (
            rest,
            rw e (
                ap (λ t. append t rest)
                  (chunk_text-append (feed engine limited item s).1
                    (run items end (feed engine limited item s).0).events)
                ∙ carry _ _ _ _ _ _ _ ih (feed-text item s)),
          )
      | inr (r, e) ↦ (join s.buffer, rw e (nil-append _ ∙ sym (str_append-nil (join s.buffer))))
    ]

    -- At a normal end the chunks carry everything that is pending.
    consume_complete :
        (items : List Item) (s : State)
        → All (λ i. i.cancelled ≡ none) items
        → chunk_text (run items finished s).events ≡ pending items s
    unfolding consume join feed take_token should_flush after_flush
    consume_complete [] s h = chunk_text-finish s ∙ sym (str_append-nil (join s.buffer))
    consume_complete (item ∷ items) s (e, h) = rw e (
        sym (str_append-nil _)
        ∙ ap (λ t. append t "")
            (chunk_text-append (feed engine limited item s).1
              (run items finished (feed engine limited item s).0).events)
        ∙ carry _ _ _ _ _ _ _
            (str_append-nil _ ∙ consume_complete items (feed engine limited item s).0 h)
            (feed-text item s))

    finish-result :
        (s : State)
        → (finish now s).result ≡ expected_result [] finished (join (s.full_content ++ []))
    unfolding finish
    finish-result s = rw (append-nil s.full_content) refl

    finish-others :
        (s : State)
        → others (finish now s).events ≡ expected_events [] finished (join (s.full_content ++ []))
    unfolding finish last_flush
    finish-others s = rw (append-nil s.full_content) (
        others-append (last_flush s) _
        ∙ ap
            (λ t.
              t
              ++ (publish_response (join s.full_content)
                  ∷ publish_memory_update (join s.full_content)
                  ∷ []))
            (others-flush_rest s.buffer s.chunk_index))

    feed-others : (item : Item) (s : State) → others (feed engine limited item s).1 ≡ []
    unfolding feed
    feed-others item s = elim (Bool-cases (should_flush engine limited item (take_token item s))) [
      | inl flush ↦ rw flush (others-flush_buffer _ _ _)
      | inr wait ↦ rw wait refl
    ]

    consume-outcome :
        (items : List Item) (end : End) (s : State)
        → ((run items end s).result
            ≡ expected_result items end (join (s.full_content ++ received items)))
          × (others (run items end s).events
              ≡ expected_events items end (join (s.full_content ++ received items)))
    unfolding reason_or_default consume join feed take_token should_flush after_flush
    consume-outcome [] finished s = (finish-result s, finish-others s)
    consume-outcome [] (failed e) s = (refl, refl)
    consume-outcome (item ∷ items) end s = elim (Option-cases item.cancelled) [
      | inl e ↦
          let (result, events) = consume-outcome items end (feed engine limited item s).0 in
          let moved : (feed engine limited item s).0.full_content ++ received items
              ≡ s.full_content ++ (item.token ∷ received items) =
            ap (λ t. t ++ received items) (feed-full item s)
            ∙ append_assoc s.full_content (item.token ∷ []) (received items) in
          rw e (
            result ∙ ap (λ t. expected_result items end (join t)) moved,
            others-append (feed engine limited item s).1
                  (run items end (feed engine limited item s).0).events
                ∙ ap (λ t. t ++ others (run items end (feed engine limited item s).0).events)
                    (feed-others item s)
                ∙ events
                ∙ ap (λ t. expected_events items end (join t)) moved,
          )
      | inr (r, e) ↦ rw (e, append-nil s.full_content) (refl, refl)
    ]

    module _ (start begun_at : ℕ) (ctx : StreamContext) where
      -- Whatever way a run ends, the published chunks, joined in the order of publication, are the
      -- beginning of the text received before any cancellation: some text `rest`, still held back,
      -- completes them.
      stream-prefix :
          (items : List Item) (end : End)
          → (rest : String) × (append
                (chunk_text (stream engine limited now start begun_at items end ctx).events)
                rest
              ≡ join (received items))
      unfolding stream begin join
      stream-prefix items end =
          let (rest, same) = consume-prefix items end _ in (rest, same ∙ nil-append _)

      pub Reliable-complete :
          (items : List Item)
          → All (λ i. i.cancelled ≡ none) items
          → chunk_text (stream engine limited now start begun_at items finished ctx).events
            ≡ join (received items)
      unfolding stream begin join
      Reliable-complete items h = consume_complete items _ h ∙ nil-append _

      pub Reliable-outcome :
          (items : List Item) (end : End)
          → ((stream engine limited now start begun_at items end ctx).result
              ≡ expected_result items end (join (received items)))
            × (others (stream engine limited now start begun_at items end ctx).events
                ≡ expected_events items end (join (received items)))
      unfolding stream begin
      Reliable-outcome items end = consume-outcome items end _
