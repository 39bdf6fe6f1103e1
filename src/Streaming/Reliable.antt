-- ===== src/Streaming/Reliable.antt =====
-- The run of the engine if no call of its publisher raises, in one list of events: what the theorems
-- on content and order are first proved of.
use llm_service.Prelude.{ℕ, Bool, none, some, List, [], ◌∷◌, ◌++◌, length}
use llm_service.Providers.Deadlines.{End, finished, failed}
use llm_service.Streaming.{
  StreamingEngine, Item, StreamContext, publish_cancellation, publish_response,
  publish_memory_update, State, join, feed, returned, raised, StreamRun, last_flush, stamp_last,
  complete, reason_or_default, begin,
}

unfoldable pub finish : ℕ → State → StreamRun
finish now s =
    let text = join s.full_content in
    record {
      result = returned text;
      events = last_flush s ++ (publish_response text ∷ publish_memory_update text ∷ []);
      ctx = complete now (length s.full_content) (stamp_last now s);
    }

module _ (engine : StreamingEngine) (is_rate_limited : Bool) (now : ℕ) where
  unfoldable pub consume : List Item → End → State → StreamRun
  consume [] finished s = finish now s
  consume [] (failed e) s = record { result = raised e; events = []; ctx = s.ctx }
  consume (item ∷ items) end s = elim item.cancelled [
    | some reason ↦ record {
      result = returned (join s.full_content);
      events = publish_cancellation (reason_or_default reason) ∷ [];
      ctx = s.ctx;
    }
    | none ↦
        let (s', out) = feed engine is_rate_limited item s in
        let rest = consume items end s' in record rest { events = out ++ rest.events }
  ]

  unfoldable pub stream : ℕ → ℕ → List Item → End → StreamContext → StreamRun
  stream start begun_at items end ctx = consume items end (begin start begun_at ctx)
