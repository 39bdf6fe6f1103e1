-- ===== src/Consumer/Tests.antt =====
-- Witnesses for the consumer: two deliveries of one message, whose handler fails for good.
use llm_service.Prelude.{ℕ, String, Bool, true, Option, some, [], arith}
use llm_service.Errors.{ExceptionClass, make_error}
use llm_service.Retry.{Outcome, raises}
use llm_service.Cache.{TtlCache}
use llm_service.Cache.Bounds.{IsValid}
use llm_service.Consumer.{
  ChatMessageCreatedEvent, Message, NoneType, KafkaConsumerEngine, ConsumerRecord,
  process_single_message,
}
use llm_service.Consumer.Settlement.{IsHandled, process_single_message-IsSettled}

abbrev event : ChatMessageCreatedEvent
event = record { message_id = "m1"; response_message_id = "r1" }

-- every message carries the event
abbrev parse : String → Option ChatMessageCreatedEvent
parse value = some event

abbrev handler : Option (ChatMessageCreatedEvent → ℕ → Outcome NoneType)
handler = some (λ event attempt. raises (make_error (ExceptionClass.other "ValueError") "" "bad"))

abbrev received : ℕ → ConsumerRecord
received offset = record {
  topic = "chat";
  partition = 0;
  offset = offset;
  key = some "c1";
  value = some "{}";
  headers_decode = true;
}

abbrev message : ℕ → Message
message offset = record { topic = "chat"; partition = 0; offset = offset; key = "c1"; value = "{}" }

abbrev ids : TtlCache Bool
ids = record {
  store = [];
  max_size = 10_000;
  default_ttl = 300;
  hits = 0;
  misses = 0;
  evictions = 0;
  seq = 0;
}

abbrev engine : KafkaConsumerEngine
engine = record { processed_ids = ids; running = true }

ids-IsValid : IsValid ids
ids-IsValid = record { positive = omega arith; keys = tt; bounded = omega arith }

process_single_message-IsSettled_example :
    IsHandled parse handler true engine
      (received 41)
      (process_single_message parse handler true 1000 (received 41) engine).0
    × IsValid (process_single_message parse handler true 1000 (received 41) engine).1.processed_ids
process_single_message-IsSettled_example =
    process_single_message-IsSettled parse handler true 1000 (received 41) engine ids-IsValid
