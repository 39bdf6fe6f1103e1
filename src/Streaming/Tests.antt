-- ===== src/Streaming/Tests.antt =====
-- Witnesses for the streaming engine: a stream of three tokens, and one that is cancelled.
use llm_service.Prelude.{
  ℕ, ◌≡◌, refl, ◌⊎◌, ◌++◌, ◌==◌, if◌then◌else◌, String, false, Option, none, some, List, [], ◌∷◌,
}
use llm_service.Providers.Deadlines.{finished}
use Prim.Native.String.{◌++◌ as append}
use llm_service.Errors.{ExceptionClass, make_error}
use llm_service.Streaming.{
  Publisher, Event, StreamingEngine, Item, StreamContext, StreamRun, join, stream,
}
use llm_service.Streaming.Texts.{chunk_text, received, others, expected_result, expected_events}
use llm_service.Streaming.Content.{IsRaised, stream_complete, stream-outcome}
use llm_service.Streaming.Order.{IsOrdered, chunks, stream-IsOrdered}

abbrev engine : StreamingEngine
engine = record {
  default_chunk_size = 5;
  first_chunk_size = 1;
  code_block_chunk_size = 10;
  rate_limited_chunk_size = 8;
  flush_interval_ms = 100;
}

abbrev item : String → Option String → Item
item token cancelled = record {
  token = token;
  cancelled = cancelled;
  checked_at = 7;
  flushed_at = 8;
  stamped_at = 9;
}

abbrev context : StreamContext
context = record {
  inference_started_at = none;
  first_chunk_at = none;
  completed_at = none;
  usage = none;
}

abbrev three : List Item
three = item "Hel" none ∷ item "lo" none ∷ item "!" none ∷ []

abbrev left_off : List Item
left_off = item "Hel" none ∷ item "lo" none ∷ item "!" (some "user_stop") ∷ []

-- a publisher whose call number `n` raises
abbrev fails_at : ℕ → Publisher
fails_at n =
    λ m _. if m == n then some (make_error ExceptionClass.timeout_error "" "late") else none

abbrev run : List Item → StreamRun
run items = stream (fails_at 1) engine false 50 5 6 items finished context

stream_complete_example :
    (chunk_text (run three).events ≡ join (received three))
    ⊎ IsRaised (fails_at 1) engine false 50 5 6 context (run three)
      × ((rest : String) × (append (chunk_text (run three).events) rest ≡ join (received three)))
stream_complete_example =
    stream_complete (fails_at 1) engine false 50 5 6 context three (refl, (refl, (refl, tt)))

stream-outcome_example :
    ((run left_off).result ≡ expected_result left_off finished (join (received left_off)))
      × (others (run left_off).events
          ≡ expected_events left_off finished (join (received left_off)))
    ⊎ IsRaised (fails_at 1) engine false 50 5 6 context (run left_off)
      × ((rest : List Event) × (others (run left_off).events ++ rest
            ≡ expected_events left_off finished (join (received left_off))))
stream-outcome_example = stream-outcome (fails_at 1) engine false 50 5 6 context left_off finished

stream-IsOrdered_example : IsOrdered 0 (chunks (run three).events)
stream-IsOrdered_example = stream-IsOrdered engine false 50 (fails_at 1) 5 6 three finished context
