-- ===== src/Publisher.antt =====
-- The publisher of events (KafkaPublisher in app/producers/kafka_producer.py): its start and stop and
-- the sending of one record. The broker, `send_and_wait` of the producer, is a parameter that tells
-- what each attempt does with the record; the payload is a text already, whose bytes are the
-- library's. The wait between two attempts is in the run of the retry manager.
pub mod Delivery
pub mod Tests
use llm_service.Prelude.{
  ℕ, String, Bool, true, false, not, ◌&&◌, ◌||◌, Option, none, some, List, [], ◌∷◌, ◌++◌, str_eq,
  if◌then◌else◌,
}
use llm_service.Errors.{Exc, make_error, other}
use llm_service.Retry.{RetryPolicy, Outcome, returns, raises, Run, execute_with_retry}

pub record KafkaPublisher : Type 0 where
  pub has_producer : Bool
  pub started : Bool

-- with a producer that is given, or without one
unfoldable pub init : Bool → KafkaPublisher
init given = record { has_producer = given; started = false }

-- the result of `start` of the producer
unfoldable pub after_start : KafkaPublisher → Outcome {0} Unit → KafkaPublisher
after_start p (returns _) = record p { started = true }
after_start p (raises _) = p

unfoldable pub start : Outcome {0} Unit → KafkaPublisher → KafkaPublisher
start answer p = if p.started then p else after_start (record p { has_producer = true }) answer

-- the result of `stop` of the producer
unfoldable pub after_stop : KafkaPublisher → Outcome {0} Unit → KafkaPublisher
after_stop p (returns _) = record p { started = false }
after_stop p (raises _) = p

unfoldable pub stop : Outcome {0} Unit → KafkaPublisher → KafkaPublisher
stop answer p = if p.has_producer && p.started then after_stop p answer else p

pub record TraceContext : Type 0 where
  pub traceparent : String
  pub tracestate : String

-- what an event is sent as
pub record Event : Type 0 where
  pub topic : String
  pub key : String
  pub payload : String
  pub trace_context : Option TraceContext
  pub correlation_id : Option String

pub record KafkaRecord : Type 0 where
  pub topic : String
  pub key : String
  pub value : String
  pub headers : List (String × String)

-- a header that is not empty
unfoldable pub header : String → String → List (String × String)
header name value = if str_eq value "" then [] else (name, value) ∷ []

unfoldable pub trace_headers : Option TraceContext → List (String × String)
trace_headers none = []
trace_headers (some t) = header "traceparent" t.traceparent ++ header "tracestate" t.tracestate

unfoldable pub correlation_header : Option String → List (String × String)
correlation_header none = []
correlation_header (some id) = header "correlation_id" id

unfoldable pub record_of : Event → KafkaRecord
record_of e = record {
  topic = e.topic;
  key = e.key;
  value = e.payload;
  headers = trace_headers e.trace_context ++ correlation_header e.correlation_id;
}

-- `RetryPolicy(max_attempts=3)`
unfoldable pub publish_policy : RetryPolicy
publish_policy = record {
  max_attempts = 3;
  initial_delay_ms = 100;
  max_delay_ms = 2000;
  backoff_factor = 2;
  jitter = true;
  retriable_status_codes = 429 ∷ 500 ∷ 502 ∷ 503 ∷ 504 ∷ [];
  custom = λ _. false;
}

unfoldable pub not_started : Exc
not_started =
    make_error (other "RuntimeError") ""
      "KafkaPublisher is not started. Call start() before publishing."

-- the refusal, or the run of the retry manager, `none` if its fuel ends
pub data Sent : Type 0 where
  refused : Exc → Sent
  tried : Option {0} (Run {0} Unit) → Sent

-- `broker r k` is what attempt number `k` (from 0) to hand over the record `r` does
unfoldable pub send : KafkaPublisher → (KafkaRecord → ℕ → Outcome {0} Unit) → (ℕ → ℕ) → Event → Sent
send p broker draw e =
    if not p.started || not p.has_producer
    then refused not_started
    else tried (execute_with_retry publish_policy (broker (record_of e)) draw)
