-- ===== src/Publisher/Tests.antt =====
-- A publisher that is started, and a broker that is too slow once.
use llm_service.Prelude.{ℕ, zero, suc, ◌≡◌, refl, ◌⊎◌, true, false, some, [], ◌∷◌}
use llm_service.Errors.{ExceptionClass, make_error}
use llm_service.Retry.{Outcome, returns, raises, Run}
use llm_service.Publisher.{
  init, start, Event, KafkaRecord, record_of, trace_headers, header, correlation_header,
  not_started, refused, tried, send,
}
use llm_service.Publisher.Delivery.{IsTried, created, start_called, send-delivery}

abbrev slow_once : KafkaRecord → ℕ → Outcome {0} Unit
slow_once r zero = raises (make_error ExceptionClass.timeout_error "" "too slow")
slow_once r (suc _) = returns tt

abbrev chunk_event : Event
chunk_event = record {
  topic = "chat.response.chunk";
  key = "u";
  payload = "{}";
  trace_context = some (record { traceparent = "00-1"; tracestate = "" });
  correlation_id = some "m1";
}

record_of-headers :
    (record_of chunk_event).headers ≡ ("traceparent", "00-1") ∷ ("correlation_id", "m1") ∷ []
unfolding record_of trace_headers header correlation_header
record_of-headers = refl

send-delivery_example :
    let p = start (returns tt) (init false) in
    ((p.started ≡ false) × (send p slow_once (λ k. 0) chunk_event ≡ refused not_started))
    ⊎ ((p.started ≡ true)
        × (r : Run {0} Unit) × (send p slow_once (λ k. 0) chunk_event ≡ tried (some r))
        × IsTried (slow_once (record_of chunk_event)) r)
send-delivery_example =
    send-delivery slow_once (λ k. 0) chunk_event (start_called (returns tt) (created false))
