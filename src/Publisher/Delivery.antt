-- ===== src/Publisher/Delivery.antt =====
-- What a publisher that is started does with an event.
use mathlib.Core.Option.{some-injective}
use llm_service.Prelude.{
  ℕ, suc, ◌-◌, ◌≤◌, ◌<◌, ◌≡◌, ◌≢◌, refl, sym, ap, ◌∙◌, ◌⊎◌, inl, inr, Bool, true, false, some,
  arith, Bool-cases,
}
use llm_service.Errors.{Exc}
use llm_service.Retry.{Outcome, returns, raises, Run, is_retriable, execute_with_retry}
use llm_service.Retry.Attempts.{execute_with_retry-fair}
use llm_service.Publisher.{
  KafkaPublisher, init, after_start, start, after_stop, stop, Event, KafkaRecord, record_of,
  publish_policy, not_started, refused, tried, send,
}

-- the publishers that calls of `start` and `stop` make of a new one
pub data Reach : KafkaPublisher → Type 0 where
  created : (given : Bool) → Reach (init given)
  start_called : {p : KafkaPublisher} (answer : Outcome {0} Unit) → Reach p → Reach (start answer p)
  stop_called : {p : KafkaPublisher} (answer : Outcome {0} Unit) → Reach p → Reach (stop answer p)

-- a started publisher has a producer
abbrev HasItsProducer : KafkaPublisher → Type 0
HasItsProducer p = (p.started ≡ false) ⊎ (p.has_producer ≡ true)

start-HasItsProducer :
    (answer : Outcome {0} Unit) (p : KafkaPublisher)
    → HasItsProducer p
    → HasItsProducer (start answer p)
unfolding start after_start
start-HasItsProducer (returns _) p h = ground (arith, h)
start-HasItsProducer (raises _) p h = ground (arith, h)

stop-HasItsProducer :
    (answer : Outcome {0} Unit) (p : KafkaPublisher)
    → HasItsProducer p
    → HasItsProducer (stop answer p)
unfolding stop after_stop
stop-HasItsProducer (returns _) p h = ground (arith, h)
stop-HasItsProducer (raises _) p h = ground (arith, h)

Reach-HasItsProducer : {p : KafkaPublisher} → Reach p → HasItsProducer p
unfolding init
Reach-HasItsProducer (created given) = inl refl
Reach-HasItsProducer (start_called {p} answer r) =
    start-HasItsProducer answer p (Reach-HasItsProducer r)
Reach-HasItsProducer (stop_called {p} answer r) =
    stop-HasItsProducer answer p (Reach-HasItsProducer r)

-- how a run of the retry manager under the publisher's policy ends
abbrev pub IsTried : (ℕ → Outcome {0} Unit) → Run {0} Unit → Type 0
IsTried call r =
    (0 < r.attempts)
    × (r.attempts ≤ 3)
    × (call (r.attempts - 1) ≡ r.outcome)
    × ((r.attempts ≤ 1)
        ⊎ (x : Exc) × (call 0 ≡ raises x) × (is_retriable x (some publish_policy) ≡ true))

call_last :
    (call : ℕ → Outcome {0} Unit) (r : Run {0} Unit)
    → (suc (r.attempts - 1) ≢ r.attempts) ⊎ (call (r.attempts - 1) ≡ r.outcome)
    → 0 < r.attempts
    → call (r.attempts - 1) ≡ r.outcome
call_last call r (inl h) more = elim (h (omega (arith, more))) [ ]
call_last call r (inr h) more = h

execute_with_retry-IsTried :
    (call : ℕ → Outcome {0} Unit) (draw : ℕ → ℕ)
    → (r : Run {0} Unit) × (execute_with_retry publish_policy call draw ≡ some r) × IsTried call r
unfolding publish_policy
execute_with_retry-IsTried call draw =
    let (r, done, more, few, sleeps, retried, last, ends) =
      execute_with_retry-fair publish_policy call draw 0 in
    let (r', done', more', few', sleeps', retried', last', ends') =
      execute_with_retry-fair publish_policy call draw (r.attempts - 1) in
    let same : r ≡ r' = some-injective r r' (sym done ∙ done') in
    (
      r,
      done,
      (
        more,
        ground (arith, few),
        call_last call r
            (elim last' [
              | inl other_count ↦ inl (λ e. other_count (e ∙ ap Run.attempts same))
              | inr ended ↦ inr (ended ∙ ap Run.outcome (sym same))
            ])
            more,
        retried,
      ),
    )

started_send :
    (p : KafkaPublisher) (broker : KafkaRecord → ℕ → Outcome {0} Unit) (draw : ℕ → ℕ) (e : Event)
    (r : Run {0} Unit)
    → p.started ≡ true
    → HasItsProducer p
    → execute_with_retry publish_policy (broker (record_of e)) draw ≡ some r
    → send p broker draw e ≡ tried (some r)
unfolding send
started_send p broker draw e r h (inl stopped) done = ground (arith, h, stopped)
started_send p broker draw e r h (inr given) done = rw (h, given, done) refl

-- A publisher that calls of `start` and `stop` made of a new one refuses an event exactly while it
-- is not started. Else it hands the record of the event to the broker, once at least and at most
-- three times, and the send ends as the last attempt did; it goes on after the first attempt only
-- if that failed with an error that the retry manager retries.
pub send-delivery :
    {p : KafkaPublisher} (broker : KafkaRecord → ℕ → Outcome {0} Unit) (draw : ℕ → ℕ) (e : Event)
    → Reach p
    → ((p.started ≡ false) × (send p broker draw e ≡ refused not_started))
      ⊎ ((p.started ≡ true)
          × (r : Run {0} Unit) × (send p broker draw e ≡ tried (some r))
          × IsTried (broker (record_of e)) r)
unfolding send
send-delivery {p} broker draw e reach =
    let (r, done, fair) = execute_with_retry-IsTried (broker (record_of e)) draw in
    elim (Bool-cases p.started) [
      | inl h ↦ inr (h, r, started_send p broker draw e r h (Reach-HasItsProducer reach) done, fair)
      | inr h ↦ inl (h, rw h refl)
    ]
