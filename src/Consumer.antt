-- ===== src/Consumer.antt =====
-- The Kafka consumer's work on one message (app/consumers/kafka_consumer.py). What the consumer does
-- to the outside, in order, is a list of actions. Parsing, the handler and the DLQ topic are
-- arguments; times are in milliseconds. The contents of the trace
-- headers, logs, the polling loop and the semaphore are left out, and an exception that escapes ends
-- the list of actions.
pub mod Settlement
pub mod Duplicates
mod Tests
use llm_service.Prelude.{
  ℕ, zero, suc, ◌+◌, ◌-◌, String, Bool, true, false, not, ◌&&◌, Option, none, some, List, [], ◌∷◌,
  ◌++◌, ltb, ◌==◌, str_eq, if◌then◌else◌,
}
use llm_service.Errors.{Exc}
use llm_service.Retry.{Outcome, returns, raises, is_retriable}
use llm_service.Cache.{TtlCache, contains, set}
use llm_service.Cache

-- the fields of ChatMessageCreatedEvent that the consumer reads; an absent id is empty
pub record ChatMessageCreatedEvent : Type 0 where
  pub message_id : String
  pub response_message_id : String

-- A ConsumerRecord. A key or a value whose bytes are not UTF-8 is `none`; an absent key is empty.
pub record ConsumerRecord : Type 0 where
  pub topic : String
  pub partition : ℕ
  pub offset : ℕ
  pub key : Option String
  pub value : Option String
  -- whether the trace headers, if there are any, are UTF-8
  pub headers_decode : Bool

-- a record whose key and value are decoded
pub record Message : Type 0 where
  pub topic : String
  pub partition : ℕ
  pub offset : ℕ
  pub key : String
  pub value : String

-- the decoding of a record's value and key, which nothing catches
unfoldable pub decode : ConsumerRecord → Option Message
decode r = elim r.value [
  | none ↦ none
  | some value ↦ elim r.key [
    | none ↦ none
    | some key ↦ some (record {
      topic = r.topic;
      partition = r.partition;
      offset = r.offset;
      key = key;
      value = value;
    })
  ]
]

-- ChatMessageDLQEvent, but for its error message and time
pub record ChatMessageDlqEvent : Type 0 where
  pub original_topic : String
  pub original_partition : ℕ
  pub original_offset : ℕ
  pub original_key : String
  pub original_value : String
  pub error_type : String
  pub retry_count : ℕ

-- what a handler returns
pub data NoneType : Type 0 where
  none_value : NoneType

pub data Action : Type 0 where
  call_handler : ChatMessageCreatedEvent → ℕ → Action
  sleep : ℕ → Action
  publish_dlq : ChatMessageDlqEvent → Action
  commit : ℕ → Action

pub record KafkaConsumerEngine : Type 0 where
  pub processed_ids : TtlCache Bool
  pub running : Bool

unfoldable pub init : KafkaConsumerEngine
init = record { processed_ids = Cache.init 10_000 300; running = false }

unfoldable pub max_attempts : ℕ
max_attempts = 3

-- delays[attempt - 1]
unfoldable pub delay_after : ℕ → ℕ
delay_after attempt = if attempt == 1 then 100 else if attempt == 2 then 200 else 400

unfoldable pub dlq_event : Message → String → ℕ → ChatMessageDlqEvent
dlq_event msg error_type retry_count = record {
  original_topic = msg.topic;
  original_partition = msg.partition;
  original_offset = msg.offset;
  original_key = msg.key;
  original_value = msg.value;
  error_type = error_type;
  retry_count = retry_count;
}

-- what follows a call of the handler; `rest` is what the attempts after it would give
unfoldable pub after_call :
    Outcome NoneType → ℕ → ChatMessageCreatedEvent → Bool × List Action → Bool × List Action
after_call (returns _) attempt event rest = (true, call_handler event attempt ∷ [])
after_call (raises exc) attempt event (ok, actions) =
    if ltb attempt max_attempts && is_retriable exc none
    then (ok, call_handler event attempt ∷ sleep (delay_after attempt) ∷ actions)
    else (false, call_handler event attempt ∷ [])

-- The attempts from `attempt` on, of which at most `left` are left.
unfoldable pub attempts :
    (ChatMessageCreatedEvent → ℕ → Outcome NoneType)
    → ℕ
    → ℕ
    → ChatMessageCreatedEvent
    → Bool × List Action
attempts handle zero attempt event = (false, [])
attempts handle (suc left) attempt event =
    after_call (handle event attempt) attempt event (attempts handle left (attempt + 1) event)

-- `handler` gives the outcome of each call, by the event and the attempt's number; it is `none` if
-- no handler is configured.
unfoldable pub execute_with_consumer_retries :
    Option (ChatMessageCreatedEvent → ℕ → Outcome NoneType)
    → ChatMessageCreatedEvent
    → Bool × List Action
execute_with_consumer_retries none event = (true, [])
execute_with_consumer_retries (some handle) event = attempts handle max_attempts 1 event

-- `_commit_offset`
unfoldable pub commit_offset : KafkaConsumerEngine → ℕ → List Action
commit_offset engine next_offset = if engine.running then commit next_offset ∷ [] else []

-- A dead letter, and the commit that follows it; `publishes` tells whether the DLQ topic takes it.
unfoldable pub dead_letter : Bool → KafkaConsumerEngine → Message → String → ℕ → List Action
dead_letter publishes engine msg error_type retry_count =
    if publishes
    then publish_dlq (dlq_event msg error_type retry_count) ∷ commit_offset engine (msg.offset + 1)
    else []

module _ (parse : String → Option ChatMessageCreatedEvent)
    (handler : Option (ChatMessageCreatedEvent → ℕ → Outcome NoneType)) (publishes : Bool) where
  -- the part after the idempotency check
  unfoldable pub execute : KafkaConsumerEngine → Message → ChatMessageCreatedEvent → List Action
  execute engine msg event =
      let (success, calls) = execute_with_consumer_retries handler event in
      calls
      ++ (if success
          then commit_offset engine (msg.offset + 1)
          else dead_letter publishes engine msg "PipelineError" 3)

  -- what follows the mark in the cache, whose exception is `none`
  unfoldable pub after_set :
      Option (TtlCache Bool)
      → KafkaConsumerEngine
      → Message
      → ChatMessageCreatedEvent
      → List Action × KafkaConsumerEngine
  after_set none engine msg event = ([], engine)
  after_set (some marked) engine msg event =
      (execute engine msg event, record engine { processed_ids = marked })

  -- the idempotency check and what follows it
  unfoldable pub admit :
      ℕ
      → KafkaConsumerEngine
      → Message
      → ChatMessageCreatedEvent
      → List Action × KafkaConsumerEngine
  admit now engine msg event =
      let (seen, looked) = contains now event.message_id engine.processed_ids in
      let after : KafkaConsumerEngine = record engine { processed_ids = looked } in
      if seen
      then (commit_offset engine (msg.offset + 1), after)
      else after_set (set now event.message_id true none looked) after msg event

  -- what follows the parsing; the decoding of the headers may raise
  unfoldable pub after_parse :
      Option ChatMessageCreatedEvent
      → Bool
      → ℕ
      → Message
      → KafkaConsumerEngine
      → List Action × KafkaConsumerEngine
  after_parse none headers_decode now msg engine =
      (dead_letter publishes engine msg "DeserializationError" 0, engine)
  after_parse (some event) false now msg engine = ([], engine)
  after_parse (some event) true now msg engine =
      if str_eq event.response_message_id ""
      then (dead_letter publishes engine msg "ContractViolation" 0, engine)
      else admit now engine msg event

  -- what follows the decoding
  unfoldable pub after_decode :
      Option Message → Bool → ℕ → KafkaConsumerEngine → List Action × KafkaConsumerEngine
  after_decode none headers_decode now engine = ([], engine)
  after_decode (some msg) headers_decode now engine =
      after_parse (parse msg.value) headers_decode now msg engine

  -- `_process_single_message`
  unfoldable pub process_single_message :
      ℕ → ConsumerRecord → KafkaConsumerEngine → List Action × KafkaConsumerEngine
  process_single_message now r engine = after_decode (decode r) r.headers_decode now engine
