-- ===== src/Bundle/Retrieval/Calls.antt =====
-- The calls that one retrieval makes.
use llm_service.Prelude.{
  ℕ, ◌*◌, ◌/◌, ◌≡◌, refl, ◌⊎◌, inl, inr, String, Bool, true, false, Option, none, some, List, [],
  ◌∷◌, ◌++◌, if◌then◌else◌, length, ◌==◌, Bool-cases,
}
use llm_service.Bundle.{RetrievalContext}
use llm_service.Bundle.Previous.{Store}
use llm_service.Bundle.Retrieval.{
  Reply, answered, raised, Config, Request, RetrievalClient, RetrievalQuery, Call, document_chunks,
  relevant_chunks, Asked, input_budget_tokens, ask_full_text, full_text_of, try_full_text,
  first_try, search, search_again, search_for, settle, after_full_text, fetch_retrieval,
  is_transient, query_of, previous_of,
}

-- at most one whole text is asked for, and then at most two searches are made, of the same query
-- with the same ids
pub data AreCalls (rq : RetrievalQuery) (previous : List String) : List Call → Type 0 where
  no_call : AreCalls rq previous []
  one_text : (budget : ℕ) → AreCalls rq previous (document_chunks budget ∷ [])
  one_search : AreCalls rq previous (relevant_chunks rq previous ∷ [])
  two_searches :
      AreCalls rq previous (relevant_chunks rq previous ∷ relevant_chunks rq previous ∷ [])
  text_and_search :
      (budget : ℕ)
      → AreCalls rq previous (document_chunks budget ∷ relevant_chunks rq previous ∷ [])
  text_and_searches :
      (budget : ℕ)
      → AreCalls rq previous
          (document_chunks budget ∷ relevant_chunks rq previous ∷ relevant_chunks rq previous ∷ [])

-- what is asked before the search
data AreFirst : List Call → Type 0 where
  nothing : AreFirst []
  text : (budget : ℕ) → AreFirst (document_chunks budget ∷ [])

if-AreFirst :
    (b : Bool) (x y : Asked (Option RetrievalContext))
    → AreFirst x.calls
    → AreFirst y.calls
    → AreFirst (if b then x else y).calls
if-AreFirst true x y hx hy = hx
if-AreFirst false x y hx hy = hy

module _ (cfg : Config) (client : RetrievalClient) where
  ask_full_text-AreFirst : (budget : ℕ) → AreFirst (ask_full_text client budget).calls
  unfolding ask_full_text
  ask_full_text-AreFirst budget = elim (Bool-cases (budget == 0)) [
    | inl e ↦ rw e nothing
    | inr e ↦ rw e (text budget)
  ]

  full_text_of-AreFirst : (tokens : Reply ℕ) → AreFirst (full_text_of cfg client tokens).calls
  unfolding full_text_of
  full_text_of-AreFirst (raised e) = nothing
  full_text_of-AreFirst (answered tokens) =
      ask_full_text-AreFirst (tokens * cfg.retrieval_full_text_share / 1_000)

  first_try-AreFirst : AreFirst (first_try cfg client).calls
  unfolding first_try try_full_text
  first_try-AreFirst =
      if-AreFirst cfg.retrieval_full_text_enabled _ _
        (full_text_of-AreFirst (input_budget_tokens cfg)) nothing

first-AreCalls :
    {calls : List Call} (rq : RetrievalQuery) (previous : List String)
    → AreFirst calls
    → AreCalls rq previous calls
first-AreCalls rq previous nothing = no_call
first-AreCalls rq previous (text budget) = one_text budget

module _ (client : RetrievalClient) (rq : RetrievalQuery) (previous : List String) where
  search_again-AreCalls :
      {calls : List Call} (reply : Reply RetrievalContext)
      → AreFirst calls
      → AreCalls rq previous (calls ++ (search_again client rq previous reply).calls)
  unfolding search_again
  search_again-AreCalls (raised e) nothing = one_search
  search_again-AreCalls (raised e) (text budget) = text_and_search budget
  search_again-AreCalls (answered res) nothing = elim (Bool-cases (is_transient res)) [
    | inl e ↦ rw e two_searches
    | inr e ↦ rw e one_search
  ]
  search_again-AreCalls (answered res) (text budget) = elim (Bool-cases (is_transient res)) [
    | inl e ↦ rw e (text_and_searches budget)
    | inr e ↦ rw e (text_and_search budget)
  ]

settle-calls :
    (cfg : Config) (ctx : Request) (calls : List Call) (store : Store)
    (reply : Reply RetrievalContext)
    → (settle cfg ctx calls store reply).calls ≡ calls
unfolding settle
settle-calls cfg ctx calls store (raised e) = refl
settle-calls cfg ctx calls store (answered res) = refl

after_full_text-AreCalls :
    {calls : List Call} (cfg : Config) (ctx : Request) (client : RetrievalClient) (store : Store)
    (reply : Reply (Option RetrievalContext))
    → AreFirst calls
    → AreCalls
        (query_of cfg ctx)
        (previous_of cfg ctx store).ids
        (after_full_text cfg ctx client store calls reply).calls
unfolding after_full_text search_for search
after_full_text-AreCalls cfg ctx client store (raised e) f = first-AreCalls _ _ f
after_full_text-AreCalls {calls} cfg ctx client store (answered (some res)) f =
    rw (settle-calls cfg ctx calls store (answered res)) (first-AreCalls _ _ f)
after_full_text-AreCalls {calls} cfg ctx client store (answered none) f =
    rw (settle-calls cfg ctx _ _ _)
      (search_again-AreCalls client (query_of cfg ctx) (previous_of cfg ctx store).ids _ f)

-- A retrieval asks at most once for the whole texts and then searches at most twice, both times with
-- the query that the settings choose and the ids shown before; without attached files it makes no
-- call and leaves the store as it is.
pub fetch_retrieval-AreCalls :
    (cfg : Config) (ctx : Request) (client : RetrievalClient) (store : Store)
    → let fetched = fetch_retrieval cfg ctx client store in
      AreCalls (query_of cfg ctx) (previous_of cfg ctx store).ids fetched.calls
      × ((length ctx.file_ids == 0 ≡ false) ⊎ ((fetched.calls ≡ []) × (fetched.store ≡ store)))
unfolding fetch_retrieval
fetch_retrieval-AreCalls cfg ctx client store = elim (Bool-cases (length ctx.file_ids == 0)) [
  | inl e ↦ rw e (no_call, inr (refl, refl))
  | inr e ↦ rw e (
    after_full_text-AreCalls cfg ctx client store (first_try cfg client).reply
        (first_try-AreFirst cfg client),
    inl refl,
  )
]
