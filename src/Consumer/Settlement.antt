-- ===== src/Consumer/Settlement.antt =====
-- Every message is settled: committed once, and dead-lettered once at most.
use llm_service.Prelude.{
  ℕ, zero, suc, ◌+◌, ◌≡◌, refl, String, Bool, true, false, ◌&&◌, Option, none, some, List, [], ◌∷◌,
  ◌++◌, ltb, str_eq, ◌⊎◌, inl, inr, Bool-cases,
}
use llm_service.Retry.{Outcome, returns, raises, is_retriable}
use llm_service.Cache.{contains}
use llm_service.Cache.Bounds.{IsValid, set-IsValid, get-IsValid}
use llm_service.Consumer.{
  ChatMessageCreatedEvent, ConsumerRecord, Message, decode, after_decode, ChatMessageDlqEvent,
  Action, call_handler, sleep, publish_dlq, commit, NoneType, KafkaConsumerEngine, max_attempts,
  dlq_event, after_call, attempts, execute_with_consumer_retries, commit_offset, dead_letter,
  execute, after_set, admit, after_parse, process_single_message,
}

abbrev pub commits : List Action → List ℕ
commits [] = []
commits (call_handler _ _ ∷ acts) = commits acts
commits (sleep _ ∷ acts) = commits acts
commits (publish_dlq _ ∷ acts) = commits acts
commits (commit n ∷ acts) = n ∷ commits acts

abbrev pub letters : List Action → List ChatMessageDlqEvent
letters [] = []
letters (call_handler _ _ ∷ acts) = letters acts
letters (sleep _ ∷ acts) = letters acts
letters (publish_dlq d ∷ acts) = d ∷ letters acts
letters (commit _ ∷ acts) = letters acts

-- The actions settle the message: nothing is committed but the offset after the message's, once, and
-- that only with the consumer running; at most one dead letter is published, which is the message
-- itself; and where nothing is committed, the consumer is not running or the DLQ topic has failed.
abbrev pub IsSettled : Bool → Bool → Message → List Action → Type 0
IsSettled running publishes msg acts =
    ((letters acts ≡ [])
      ⊎ (error_type : String) × (n : ℕ) × (letters acts ≡ dlq_event msg error_type n ∷ []))
    × ((commits acts ≡ (msg.offset + 1) ∷ []) × (running ≡ true)
        ⊎ (commits acts ≡ []) × ((running ≡ false) ⊎ (publishes ≡ false)))

module _ (parse : String → Option ChatMessageCreatedEvent)
    (handler : Option (ChatMessageCreatedEvent → ℕ → Outcome NoneType)) (publishes : Bool) where
  abbrev process : ℕ → ConsumerRecord → KafkaConsumerEngine → List Action × KafkaConsumerEngine
  process = process_single_message parse handler publishes

  commit_offset-IsSettled :
      (engine : KafkaConsumerEngine) (msg : Message)
      → IsSettled engine.running publishes msg (commit_offset engine (msg.offset + 1))
  unfolding commit_offset
  commit_offset-IsSettled engine msg = elim (Bool-cases engine.running) [
    | inl e ↦ rw e (inl refl, inl (refl, refl))
    | inr e ↦ rw e (inl refl, inr (refl, inl refl))
  ]

  dead_letter-IsSettled :
      (engine : KafkaConsumerEngine) (msg : Message) (error_type : String) (n : ℕ)
      → IsSettled engine.running publishes msg (dead_letter publishes engine msg error_type n)
  unfolding dead_letter commit_offset
  dead_letter-IsSettled engine msg error_type n = elim (Bool-cases publishes) [
    | inr e ↦ rw e (inl refl, inr (refl, inr refl))
    | inl e ↦ elim (Bool-cases engine.running) [
      | inl f ↦ rw (e, f) (inr (error_type, n, refl), inl (refl, refl))
      | inr f ↦ rw (e, f) (inr (error_type, n, refl), inr (refl, inl refl))
    ]
  ]

  -- The calls of the handler commit nothing and publish no letter.
  abbrev IsCalls : List Action → Type 0
  IsCalls [] = Unit
  IsCalls (call_handler _ _ ∷ acts) = IsCalls acts
  IsCalls (sleep _ ∷ acts) = IsCalls acts
  IsCalls (publish_dlq _ ∷ acts) = ⊥
  IsCalls (commit _ ∷ acts) = ⊥

  after_call-IsCalls :
      (o : Outcome NoneType) (attempt : ℕ) (event : ChatMessageCreatedEvent)
      (rest : Bool × List Action)
      → IsCalls rest.1
      → IsCalls (after_call o attempt event rest).1
  unfolding after_call
  after_call-IsCalls (returns _) attempt event rest h = tt
  after_call-IsCalls (raises exc) attempt event rest h =
      elim (Bool-cases (ltb attempt max_attempts && is_retriable exc none)) [
        | inl e ↦ rw e h
        | inr e ↦ rw e tt
      ]

  attempts-IsCalls :
      (handle : ChatMessageCreatedEvent → ℕ → Outcome NoneType) (left attempt : ℕ)
      (event : ChatMessageCreatedEvent)
      → IsCalls (attempts handle left attempt event).1
  unfolding attempts
  attempts-IsCalls handle zero attempt event = tt
  attempts-IsCalls handle (suc left) attempt event =
      after_call-IsCalls (handle event attempt) attempt event _
        (attempts-IsCalls handle left (attempt + 1) event)

  calls-commits :
      (acts later : List Action)
      → IsCalls acts
      → (commits (acts ++ later) ≡ commits later) × (letters (acts ++ later) ≡ letters later)
  calls-commits [] later h = (refl, refl)
  calls-commits (call_handler _ _ ∷ acts) later h = calls-commits acts later h
  calls-commits (sleep _ ∷ acts) later h = calls-commits acts later h
  calls-commits (publish_dlq _ ∷ acts) later h = elim h [ ]
  calls-commits (commit _ ∷ acts) later h = elim h [ ]

  calls-IsSettled :
      (engine : KafkaConsumerEngine) (msg : Message) (acts later : List Action)
      → IsCalls acts
      → IsSettled engine.running publishes msg later
      → IsSettled engine.running publishes msg (acts ++ later)
  calls-IsSettled engine msg acts later calls h =
      rw ((calls-commits acts later calls).0, (calls-commits acts later calls).1) h

  execute_with_consumer_retries-IsCalls :
      (handler : Option (ChatMessageCreatedEvent → ℕ → Outcome NoneType))
      (event : ChatMessageCreatedEvent)
      → IsCalls (execute_with_consumer_retries handler event).1
  unfolding execute_with_consumer_retries
  execute_with_consumer_retries-IsCalls none event = tt
  execute_with_consumer_retries-IsCalls (some handle) event =
      attempts-IsCalls handle max_attempts 1 event

  execute-IsSettled :
      (engine : KafkaConsumerEngine) (msg : Message) (event : ChatMessageCreatedEvent)
      → IsSettled engine.running publishes msg (execute parse handler publishes engine msg event)
  unfolding execute
  execute-IsSettled engine msg event =
      calls-IsSettled engine msg (execute_with_consumer_retries handler event).1 _
        (execute_with_consumer_retries-IsCalls handler event)
        (elim (Bool-cases (execute_with_consumer_retries handler event).0) [
          | inl e ↦ rw e (commit_offset-IsSettled engine msg)
          | inr e ↦ rw e (dead_letter-IsSettled engine msg "PipelineError" 3)
        ])

  pub admit-IsSettled :
      (now : ℕ) (msg : Message) (event : ChatMessageCreatedEvent) (engine : KafkaConsumerEngine)
      → IsValid engine.processed_ids
      → IsSettled engine.running publishes msg
          (admit parse handler publishes now engine msg event).0
        × IsValid (admit parse handler publishes now engine msg event).1.processed_ids
  unfolding admit after_set contains
  admit-IsSettled now msg event engine valid =
      let looked = get-IsValid now event.message_id engine.processed_ids valid in
      let (marked, is_set, still, _) = set-IsValid now event.message_id true none _ looked in
      elim (Bool-cases (contains now event.message_id engine.processed_ids).0) [
        | inl seen ↦ rw seen (commit_offset-IsSettled engine msg, looked)
        | inr new ↦ rw (new, is_set) (execute-IsSettled _ msg event, still)
      ]

  -- The message is settled; or its bytes are not all UTF-8, and nothing was done.
  abbrev pub IsHandled : KafkaConsumerEngine → ConsumerRecord → List Action → Type 0
  IsHandled engine r acts =
      ((msg : Message) × (decode r ≡ some msg) × IsSettled engine.running publishes msg acts)
      ⊎ (acts ≡ [])
        × ((decode r ≡ none)
            ⊎ (msg : Message) × (event : ChatMessageCreatedEvent) × (decode r ≡ some msg)
              × (parse msg.value ≡ some event)
              × (r.headers_decode ≡ false))

  after_parse-IsHandled :
      (parsed : Option ChatMessageCreatedEvent) (ok : Bool) (now : ℕ) (r : ConsumerRecord)
      (msg : Message) (engine : KafkaConsumerEngine)
      → decode r ≡ some msg
      → parse msg.value ≡ parsed
      → r.headers_decode ≡ ok
      → IsValid engine.processed_ids
      → IsHandled engine r (after_parse parse handler publishes parsed ok now msg engine).0
        × IsValid (after_parse parse handler publishes parsed ok now msg engine).1.processed_ids
  unfolding after_parse
  after_parse-IsHandled none ok now r msg engine is was reads valid =
      (inl (msg, is, dead_letter-IsSettled engine msg "DeserializationError" 0), valid)
  after_parse-IsHandled (some event) false now r msg engine is was reads valid =
      (inr (refl, inr (msg, event, is, was, reads)), valid)
  after_parse-IsHandled (some event) true now r msg engine is was reads valid =
      elim (Bool-cases (str_eq event.response_message_id "")) [
        | inl f ↦
            rw f (inl (msg, is, dead_letter-IsSettled engine msg "ContractViolation" 0), valid)
        | inr f ↦
            let (settled, still) = admit-IsSettled now msg event engine valid in
            rw f (inl (msg, is, settled), still)
      ]

  after_decode-IsHandled :
      (decoded : Option Message) (now : ℕ) (r : ConsumerRecord) (engine : KafkaConsumerEngine)
      → decode r ≡ decoded
      → IsValid engine.processed_ids
      → IsHandled engine r
          (after_decode parse handler publishes decoded r.headers_decode now engine).0
        × IsValid
            (after_decode parse handler publishes decoded r.headers_decode now
              engine).1.processed_ids
  unfolding after_decode
  after_decode-IsHandled none now r engine is valid = (inr (refl, inl is), valid)
  after_decode-IsHandled (some msg) now r engine is valid =
      after_parse-IsHandled (parse msg.value) r.headers_decode now r msg engine is refl refl valid

  -- Whatever a message holds and whatever its handler does, the message is settled when the consumer
  -- is done with it: nothing is committed but the offset after the message's, once, and only with
  -- the consumer running; at most one dead letter is published, which is the message itself; and
  -- where nothing is committed, the consumer is not running or the DLQ topic has failed. The one
  -- exception is a message whose value, key or, once it is parsed, trace headers are not UTF-8:
  -- nothing is done for it. The cache of processed ids, which is well formed, stays so.
  pub process_single_message-IsSettled :
      (now : ℕ) (r : ConsumerRecord) (engine : KafkaConsumerEngine)
      → IsValid engine.processed_ids
      → IsHandled engine r (process now r engine).0 × IsValid (process now r engine).1.processed_ids
  unfolding process_single_message
  process_single_message-IsSettled now r engine valid =
      after_decode-IsHandled (decode r) now r engine refl valid
