-- ===== src/Consumer/Duplicates.antt =====
-- A message id is handed to the handler once within its time to live.
use llm_service.Prelude.{ℕ, String, Bool, Option, List}
use llm_service.Retry.{Outcome}
use llm_service.Consumer.{
  ChatMessageCreatedEvent, ConsumerRecord, Action, NoneType, KafkaConsumerEngine,
  process_single_message,
}

module _ (parse : String → Option ChatMessageCreatedEvent)
    (handler : Option (ChatMessageCreatedEvent → ℕ → Outcome NoneType)) (publishes : Bool) where
  abbrev process : ℕ → ConsumerRecord → KafkaConsumerEngine → List Action × KafkaConsumerEngine
  process = process_single_message parse handler publishes
