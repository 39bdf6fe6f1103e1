-- ===== src/Streaming/Cut.antt =====
-- A run is the run of a publisher that never raises, or is cut off at the call that raised.
use mathlib.Core.Path.{subst}
use llm_service.Prelude.{
  ℕ, suc, ◌+◌, ◌≡◌, refl, ap, ◌∙◌, ◌⊎◌, inl, inr, Bool, Option, none, some, List, [], ◌∷◌, ◌++◌,
  length, arith, Option-cases,
}
use llm_service.Errors.{Exc}
use llm_service.Providers.Deadlines.{End, finished, failed}
use llm_service.Streaming.{
  StreamingEngine, Item, Event, Publisher, State, StreamContext, feed, take_token, should_flush,
  after_flush, StreamResult, raised, StreamRun, publish_next, publish_all, unless_raised,
  after_publish, last_flush, finish, consume, stream, begin, publish_response,
  publish_memory_update, publish_cancellation, join, reason_or_default,
}
use llm_service.Streaming.Reliable

plus_zero : (n : ℕ) → n + 0 ≡ n
plus_zero n = omega arith

count_front : (n k : ℕ) → n + suc k ≡ n + 1 + k
count_front n k = omega arith

module _ (publish : Publisher) where
  -- The run has the result and the events given; or some call raised, after `n` and the run's own
  -- events, which are those given before that call.
  abbrev pub IsCut : ℕ → StreamResult → List Event → StreamRun → Type 0
  IsCut n result events run =
      (run.result ≡ result) × (run.events ≡ events)
      ⊎ (e : Exc) × (call : Event) × (later : List Event) × (publish (n + length run.events) call
          ≡ some e)
        × (run.result ≡ raised e)
        × (events ≡ run.events ++ call ∷ later)

  IsCut-front :
      (n : ℕ) (event : Event) (result : StreamResult) (events : List Event) (run : StreamRun)
      → IsCut (n + 1) result events run
      → IsCut n result (event ∷ events) (record run { events = event ∷ run.events })
  IsCut-front n event result events run (inl (same, all)) = inl (same, ap (event ∷◌) all)
  IsCut-front n event result events run (inr (e, call, later, raises, ends, is)) =
      let count : n + length (event ∷ run.events) ≡ n + 1 + length run.events = omega arith in
      inr (e, call, later, ap (λ m. publish m call) count ∙ raises, ends, ap (event ∷◌) is)

  unless_raised-front :
      (failure : Option Exc) (event : Event) (made : List Event) (ctx : StreamContext)
      (rest : StreamRun)
      → unless_raised failure (event ∷ made) ctx rest
        ≡ record (unless_raised failure made ctx rest) {
          events = event ∷ (unless_raised failure made ctx rest).events;
        }
  unfolding unless_raised
  unless_raised-front none event made ctx rest = refl
  unless_raised-front (some e) event made ctx rest = refl

  after_publish-IsCut :
      (out : List Event) (n m : ℕ) (ctx : StreamContext) (rest : StreamRun) (result : StreamResult)
      (events : List Event)
      → m ≡ n + length out
      → IsCut m result events rest
      → IsCut n result (out ++ events) (after_publish (publish_all publish n out) ctx rest)
  unfolding after_publish publish_all unless_raised publish_next
  after_publish-IsCut [] n m ctx rest result events count h =
      subst (λ k. IsCut k result events rest) (count ∙ plus_zero n) h
  after_publish-IsCut (event ∷ out) n m ctx rest result events count h =
      elim (Option-cases (publish n event)) [
        | inl e ↦
            rw (e, unless_raised-front)
              (IsCut-front n event result (out ++ events)
                (after_publish (publish_all publish (n + 1) out) ctx rest)
                (after_publish-IsCut out (n + 1) m ctx rest result events
                  (count ∙ count_front n (length out)) h))
        | inr (x, e) ↦
            rw e (
              inr
                (x, event, out ++ events, ap (λ k. publish k event) (plus_zero n) ∙ e, refl, refl))
      ]

  module _ (engine : StreamingEngine) (limited : Bool) (now : ℕ) where
    finish-IsCut :
        (n : ℕ) (s : State)
        → IsCut n
            (Reliable.finish now s).result
            (Reliable.finish now s).events
            (finish publish now n s)
    unfolding finish Reliable.finish
    finish-IsCut n s = after_publish-IsCut (last_flush s) n _ _ _ _ _ refl (
        after_publish-IsCut
          (publish_response (join s.full_content)
            ∷ publish_memory_update (join s.full_content)
            ∷ [])
          _ _ _ _ _ [] refl (inl (refl, refl)))

    consume-IsCut :
        (items : List Item) (end : End) (n : ℕ) (s : State)
        → IsCut n
            (Reliable.consume engine limited now items end s).result
            (Reliable.consume engine limited now items end s).events
            (consume publish engine limited now items end n s)
    unfolding consume Reliable.consume feed take_token should_flush after_flush
    consume-IsCut [] finished n s = finish-IsCut n s
    consume-IsCut [] (failed e) n s = inl (refl, refl)
    consume-IsCut (item ∷ items) end n s = elim (Option-cases item.cancelled) [
      | inl e ↦ rw e (
          after_publish-IsCut (feed engine limited item s).1 n _ s.ctx
            (consume publish engine limited now items end
              (n + length (feed engine limited item s).1) (feed engine limited item s).0)
            _ _ refl
            (consume-IsCut items end (n + length (feed engine limited item s).1)
              (feed engine limited item s).0))
      | inr (reason, e) ↦ rw e (
          after_publish-IsCut (publish_cancellation (reason_or_default reason) ∷ []) n _ _ _ _ []
            refl (inl (refl, refl)))
    ]

    -- The run of an engine is that of a publisher that never raises, or stops at the first call that
    -- raises, with its exception.
    pub stream-IsCut :
        (start begun_at : ℕ) (items : List Item) (end : End) (ctx : StreamContext)
        → IsCut 0
            (Reliable.stream engine limited now start begun_at items end ctx).result
            (Reliable.stream engine limited now start begun_at items end ctx).events
            (stream publish engine limited now start begun_at items end ctx)
    unfolding stream Reliable.stream
    stream-IsCut start begun_at items end ctx = consume-IsCut items end 0 (begin start begun_at ctx)
