-- ===== src/Streaming.antt =====
-- The streaming engine (app/services/streaming_service.py). The token iterator is a list of items and
-- the way it ends; an item carries what the clocks and the cancellation token say when the engine
-- reads them. Times are in milliseconds. The engine's calls of the publisher are its events; a call may
-- raise. Spans, metrics and logs are left out.
mod Texts
mod Reliable
mod Cut
mod Whole
pub mod Content
pub mod Order
mod Tests
use Prim.Native.String.{◌++◌ as append}
use text.Mathlib.Text.{find?}
use llm_service.Prelude.{
  ℕ, zero, suc, ◌+◌, String, Bool, true, false, not, ◌&&◌, ◌||◌, Option, none, some, List, [], ◌∷◌,
  ◌++◌, length, leb, ltb, is_some, str_eq, ◌==◌, if◌then◌else◌,
}
use llm_service.Errors.{Exc}
use llm_service.Providers.Deadlines.{End, finished, failed}

pub record StreamingEngine : Type 0 where
  pub default_chunk_size : ℕ
  pub first_chunk_size : ℕ
  pub code_block_chunk_size : ℕ
  pub rate_limited_chunk_size : ℕ
  pub flush_interval_ms : ℕ

-- A token; the reason if the cancellation token is cancelled when it arrives; `time.perf_counter()`
-- at the flush test and after the flush; `datetime.now` at a first flush.
pub record Item : Type 0 where
  pub token : String
  pub cancelled : Option String
  pub checked_at : ℕ
  pub flushed_at : ℕ
  pub stamped_at : ℕ

pub record UsageMetrics : Type 0 where
  pub prompt_tokens : ℕ
  pub completion_tokens : ℕ
  pub total_tokens : ℕ

-- the fields of the pipeline context that the engine writes
pub record StreamContext : Type 0 where
  pub inference_started_at : Option ℕ
  pub first_chunk_at : Option ℕ
  pub completed_at : Option ℕ
  pub usage : Option UsageMetrics

-- ChatResponseChunkEvent, and the other calls of the publisher
pub record ChunkEvent : Type 0 where
  pub chunk_index : ℕ
  pub sequence_number : ℕ
  pub content : String
  pub is_last : Bool

pub data Event : Type 0 where
  publish_chunk : ChunkEvent → Event
  publish_cancellation : String → Event
  publish_response : String → Event
  publish_memory_update : String → Event

-- the local variables of `stream`
pub record State : Type 0 where
  pub buffer : List String
  pub chunk_index : ℕ
  pub full_content : List String
  pub last_flush_time : ℕ
  pub first_chunk_emitted : Bool
  pub in_code_block : Bool
  pub ctx : StreamContext

-- the exception of call number `n` (from 0) of the publisher, if it raises
abbrev pub Publisher : Type 0
Publisher = ℕ → Event → Option Exc

-- "".join(parts)
unfoldable pub join : List String → String
join [] = ""
join (s ∷ parts) = append s (join parts)

unfoldable pub build_chunk_event : String → ℕ → Bool → ChunkEvent
build_chunk_event content chunk_index is_last = record {
  chunk_index = chunk_index;
  sequence_number = chunk_index + 1;
  content = content;
  is_last = is_last;
}

-- `_flush_buffer`: nothing is published for an empty content.
unfoldable pub flush_buffer : List String → ℕ → Bool → List Event
flush_buffer buffer chunk_index is_last =
    if str_eq (join buffer) ""
    then []
    else publish_chunk (build_chunk_event (join buffer) chunk_index is_last) ∷ []

-- "```" in token
unfoldable pub has_fence : String → Bool
has_fence token = is_some (find? token "```")

-- the state once a token is taken in
unfoldable pub take_token : Item → State → State
take_token item s = record s {
  buffer = s.buffer ++ (item.token ∷ []);
  full_content = s.full_content ++ (item.token ∷ []);
  in_code_block = if has_fence item.token then not s.in_code_block else s.in_code_block;
}

-- the state after a flush inside the loop
unfoldable pub after_flush : Item → State → State
after_flush item s = record s {
  buffer = [];
  chunk_index = s.chunk_index + 1;
  last_flush_time = item.flushed_at;
  first_chunk_emitted = true;
  ctx =
      if s.first_chunk_emitted
      then s.ctx
      else record s.ctx { first_chunk_at = some item.stamped_at };
}

module _ (engine : StreamingEngine) (is_rate_limited : Bool) where
  -- the dynamic chunk size strategy
  unfoldable pub target_chunk_size : Bool → Bool → ℕ
  target_chunk_size first_chunk_emitted in_code_block =
      if not first_chunk_emitted
      then engine.first_chunk_size
      else if in_code_block
      then engine.code_block_chunk_size
      else if is_rate_limited
      then engine.rate_limited_chunk_size
      else engine.default_chunk_size

  unfoldable pub should_flush : Item → State → Bool
  should_flush item s =
      leb (target_chunk_size s.first_chunk_emitted s.in_code_block) (length s.buffer)
      || (leb (s.last_flush_time + engine.flush_interval_ms) item.checked_at
          && ltb 0 (length s.buffer))

  -- one round of the loop, past the cancellation check
  unfoldable pub feed : Item → State → State × List Event
  feed item s =
      let t = take_token item s in
      if should_flush item t
      then (after_flush item t, flush_buffer t.buffer t.chunk_index false)
      else (t, [])

-- How a run ended: the text that `stream` returns, or the exception of the
-- iterator or of the publisher.
pub data StreamResult : Type 0 where
  returned : String → StreamResult
  raised : Exc → StreamResult

-- `events` are the calls of the publisher that succeed
pub record StreamRun : Type 0 where
  pub result : StreamResult
  pub events : List Event
  pub ctx : StreamContext

-- `ctx.usage` at the end: filled in if it is missing or has no completion tokens
unfoldable pub final_usage : ℕ → Option UsageMetrics → UsageMetrics
final_usage n none = record { prompt_tokens = 0; completion_tokens = n; total_tokens = n }
final_usage n (some u) =
    if u.completion_tokens == 0
    then record u { completion_tokens = n; total_tokens = u.prompt_tokens + n }
    else u

-- the calls of the publisher before one that raises, and its exception
pub record Published : Type 0 where
  pub made : List Event
  pub failure : Option Exc

unfoldable pub publish_next : Option Exc → Event → Published → Published
publish_next (some e) event rest = record { made = []; failure = some e }
publish_next none event rest = record rest { made = event ∷ rest.made }

unfoldable pub publish_all : Publisher → ℕ → List Event → Published
publish_all publish n [] = record { made = []; failure = none }
publish_all publish n (event ∷ events) =
    publish_next (publish n event) event (publish_all publish (n + 1) events)

-- the run once some events are published: it ends in the exception, or goes on as `rest`
unfoldable pub unless_raised : Option Exc → List Event → StreamContext → StreamRun → StreamRun
unless_raised (some e) made ctx rest = record { result = raised e; events = made; ctx = ctx }
unless_raised none made ctx rest = record rest { events = made ++ rest.events }

unfoldable pub after_publish : Published → StreamContext → StreamRun → StreamRun
after_publish p ctx rest = unless_raised p.failure p.made ctx rest

-- the flush of what is left in the buffer
unfoldable pub flush_rest : List String → ℕ → List Event
flush_rest [] chunk_index = []
flush_rest (t ∷ ts) chunk_index = flush_buffer (t ∷ ts) chunk_index true

unfoldable pub last_flush : State → List Event
last_flush s = flush_rest s.buffer s.chunk_index

-- the time of the first chunk, where that is the last flush
unfoldable pub stamp_last : ℕ → State → StreamContext
stamp_last now s = elim s.buffer [
  | [] ↦ s.ctx
  | _ ∷ _ ↦ if s.first_chunk_emitted then s.ctx else record s.ctx { first_chunk_at = some now }
]

unfoldable pub complete : ℕ → ℕ → StreamContext → StreamContext
complete now n ctx = record ctx { completed_at = some now; usage = some (final_usage n ctx.usage) }

unfoldable pub reason_or_default : String → String
reason_or_default reason = if str_eq reason "" then "client_disconnected" else reason

-- the local variables at the start, with the time of the inference
unfoldable pub begin : ℕ → ℕ → StreamContext → State
begin start begun_at ctx = record {
  buffer = [];
  chunk_index = 0;
  full_content = [];
  last_flush_time = start;
  first_chunk_emitted = false;
  in_code_block = false;
  ctx = record ctx {
    inference_started_at = elim ctx.inference_started_at [
      | none ↦ some begun_at
      | some at ↦ some at
    ];
  };
}

module _ (publish : Publisher) where
  -- The part after the loop, at `now`, when `n` calls of the publisher are made: the rest of the
  -- buffer, the response and the memory update.
  unfoldable pub finish : ℕ → ℕ → State → StreamRun
  finish now n s =
      let last = last_flush s in
      let text = join s.full_content in
      let ctx = complete now (length s.full_content) (stamp_last now s) in
      after_publish (publish_all publish n last) (stamp_last now s) (
        after_publish
          (publish_all publish (n + length last)
            (publish_response text ∷ publish_memory_update text ∷ []))
          ctx (record { result = returned text; events = []; ctx = ctx }))

  module _ (engine : StreamingEngine) (is_rate_limited : Bool) (now : ℕ) where
    -- The loop over the token iterator, which ends as `end` says, when `n` calls of the publisher
    -- are made.
    unfoldable pub consume : List Item → End → ℕ → State → StreamRun
    consume [] finished n s = finish now n s
    consume [] (failed e) n s = record { result = raised e; events = []; ctx = s.ctx }
    consume (item ∷ items) end n s = elim item.cancelled [
      | some reason ↦
          after_publish
            (publish_all publish n (publish_cancellation (reason_or_default reason) ∷ [])) s.ctx
            (record { result = returned (join s.full_content); events = []; ctx = s.ctx })
      | none ↦
          let (s', out) = feed engine is_rate_limited item s in
          after_publish (publish_all publish n out) s.ctx (consume items end (n + length out) s')
    ]

    -- `stream`, begun when `time.perf_counter()` is `start` and `datetime.now` is `begun_at`
    unfoldable pub stream : ℕ → ℕ → List Item → End → StreamContext → StreamRun
    stream start begun_at items end ctx = consume items end 0 (begin start begun_at ctx)
