-- ===== src/Bundle/Retrieval.antt =====
-- The retrieval of chunks (`_fetch_retrieval` in app/context/collector.py). The replies of the service
-- and of the query rewriter are parameters; `fetch_retrieval` returns, with its reply, the calls that
-- it makes of the retrieval client. The logs and the measured times are left out, and the share of
-- the budget is taken without floating-point error.
pub mod Calls
use llm_service.Prelude.{
  ℕ, ◌*◌, ◌/◌, min, String, Bool, true, false, not, ◌&&◌, ◌||◌, Option, none, some, List, [], ◌∷◌,
  ◌++◌, map, str_eq, if◌then◌else◌, length, ◌==◌, contains,
}
use llm_service.Errors.{Exc, other}
use llm_service.Bundle.{DocumentChunk, RetrievalContext}
use llm_service.Bundle.Previous.{Store, Got, get, record_ids}

pub data Reply (A : Type 0) : Type 0 where
  answered : A → Reply A
  raised : Exc → Reply A

-- the settings that the collector reads; the share of the budget is in thousandths
pub record Config : Type 0 where
  pub retrieval_full_text_enabled : Bool
  pub retrieval_full_text_share : ℕ
  pub retrieval_input_budget_tokens : ℕ
  pub prompt_token_budget : ℕ
  pub context_budget_default_tokens : ℕ
  pub retrieval_query_rewrite_enabled : Bool
  pub retrieval_previous_chunks_enabled : Bool

pub record RetrievalQuery : Type 0 where
  pub query : String
  pub dense_query : Option String

-- `get_document_chunks` of a budget; `get_relevant_chunks` of the attempt, the query and the ids of
-- the chunks shown before
pub record RetrievalClient : Type 0 where
  pub get_document_chunks : ℕ → Reply RetrievalContext
  pub get_relevant_chunks : ℕ → RetrievalQuery → List String → Reply RetrievalContext

-- what `collect` reads of the pipeline's context, and the query rewriter's reply where there is one
pub record Request : Type 0 where
  pub conversation_id : String
  pub user_message : String
  pub file_ids : List String
  pub rewritten : Option (Reply RetrievalQuery)
  pub read_at : ℕ
  pub recorded_at : ℕ

pub data Call : Type 0 where
  document_chunks : ℕ → Call
  relevant_chunks : RetrievalQuery → List String → Call

unfoldable pub is_transient : RetrievalContext → Bool
is_transient res = contains res.status ("UNAVAILABLE" ∷ "TIMEOUT" ∷ [])

-- the error of `min` of nothing
unfoldable pub min_of_nothing : Exc
min_of_nothing = record {
  cls = other "ValueError";
  error_code = "";
  message = "min() iterable argument is empty";
  user_message = "";
  status_code = none;
  grpc_code = none;
}

-- the smaller of the two that is positive
unfoldable pub min_positive : ℕ → ℕ → Reply ℕ
min_positive a b =
    if a == 0
    then (if b == 0 then raised min_of_nothing else answered b)
    else if b == 0
    then answered a
    else answered (min a b)

unfoldable pub input_budget_tokens : Config → Reply ℕ
input_budget_tokens cfg =
    if cfg.retrieval_input_budget_tokens == 0
    then min_positive cfg.prompt_token_budget cfg.context_budget_default_tokens
    else answered cfg.retrieval_input_budget_tokens

-- a reply with the calls made for it
pub record Asked (A : Type 0) : Type 0 where
  pub reply : Reply A
  pub calls : List Call

-- whether the whole text that came can be used
unfoldable pub is_whole : RetrievalContext → Bool
is_whole res = str_eq res.status "OK" && not res.truncated && not (length res.chunks == 0)

unfoldable pub whole_text : Reply RetrievalContext → Option RetrievalContext
whole_text (raised _) = none
whole_text (answered res) = if is_whole res then some res else none

unfoldable pub ask_full_text : RetrievalClient → ℕ → Asked (Option RetrievalContext)
ask_full_text client budget =
    if budget == 0 then record { reply = answered none; calls = [] } else record {
      reply = answered (whole_text (client.get_document_chunks budget));
      calls = document_chunks budget ∷ [];
    }

unfoldable pub full_text_of : Config → RetrievalClient → Reply ℕ → Asked (Option RetrievalContext)
full_text_of cfg client (raised e) = record { reply = raised e; calls = [] }
full_text_of cfg client (answered tokens) =
    ask_full_text client (tokens * cfg.retrieval_full_text_share / 1_000)

unfoldable pub try_full_text : Config → RetrievalClient → Asked (Option RetrievalContext)
try_full_text cfg client = full_text_of cfg client (input_budget_tokens cfg)

-- the whole text where the settings ask for it
unfoldable pub first_try : Config → RetrievalClient → Asked (Option RetrievalContext)
first_try cfg client =
    if cfg.retrieval_full_text_enabled
    then try_full_text cfg client
    else record { reply = answered none; calls = [] }

unfoldable pub raw_query : Request → RetrievalQuery
raw_query ctx = record { query = ctx.user_message; dense_query = none }

unfoldable pub rewritten_query : Request → Option (Reply RetrievalQuery) → RetrievalQuery
rewritten_query ctx (some (answered rq)) = rq
rewritten_query ctx (some (raised _)) = raw_query ctx
rewritten_query ctx none = raw_query ctx

unfoldable pub query_of : Config → Request → RetrievalQuery
query_of cfg ctx =
    if cfg.retrieval_query_rewrite_enabled then rewritten_query ctx ctx.rewritten else raw_query ctx

-- the ids shown before, with the store that reading them leaves
unfoldable pub previous_of : Config → Request → Store → Got
previous_of cfg ctx store =
    if cfg.retrieval_previous_chunks_enabled
    then get ctx.conversation_id ctx.read_at store
    else record { ids = []; store = store }

-- after the first attempt
unfoldable pub search_again :
    RetrievalClient → RetrievalQuery → List String → Reply RetrievalContext → Asked RetrievalContext
search_again client rq previous (raised e) = record {
  reply = raised e;
  calls = relevant_chunks rq previous ∷ [];
}
search_again client rq previous (answered res) =
    if is_transient res
    then record {
      reply = client.get_relevant_chunks 2 rq previous;
      calls = relevant_chunks rq previous ∷ relevant_chunks rq previous ∷ [];
    }
    else record { reply = answered res; calls = relevant_chunks rq previous ∷ [] }

unfoldable pub search : RetrievalClient → RetrievalQuery → List String → Asked RetrievalContext
search client rq previous =
    search_again client rq previous (client.get_relevant_chunks 1 rq previous)

unfoldable pub remember : Config → Request → RetrievalContext → Store → Store
remember cfg ctx res store =
    if cfg.retrieval_previous_chunks_enabled && not (length res.chunks == 0) && not res.full_text
    then record_ids ctx.conversation_id (map (λ c. DocumentChunk.chunk_id c) res.chunks)
        ctx.recorded_at store
    else store

pub record Fetched : Type 0 where
  pub reply : Reply (Option RetrievalContext)
  pub calls : List Call
  pub store : Store

unfoldable pub settle : Config → Request → List Call → Store → Reply RetrievalContext → Fetched
settle cfg ctx calls store (raised e) = record { reply = raised e; calls = calls; store = store }
settle cfg ctx calls store (answered res) = record {
  reply = answered (some res);
  calls = calls;
  store = remember cfg ctx res store;
}

unfoldable pub search_for : Config → Request → RetrievalClient → List Call → Got → Fetched
search_for cfg ctx client calls previous =
    let asked = search client (query_of cfg ctx) previous.ids in
    settle cfg ctx (calls ++ asked.calls) previous.store asked.reply

unfoldable pub after_full_text :
    Config
    → Request
    → RetrievalClient
    → Store
    → List Call
    → Reply (Option RetrievalContext)
    → Fetched
after_full_text cfg ctx client store calls (raised e) = record {
  reply = raised e;
  calls = calls;
  store = store;
}
after_full_text cfg ctx client store calls (answered (some res)) =
    settle cfg ctx calls store (answered res)
after_full_text cfg ctx client store calls (answered none) =
    search_for cfg ctx client calls (previous_of cfg ctx store)

unfoldable pub fetch_retrieval : Config → Request → RetrievalClient → Store → Fetched
fetch_retrieval cfg ctx client store =
    let asked = first_try cfg client in
    if length ctx.file_ids == 0
    then record { reply = answered none; calls = []; store = store }
    else after_full_text cfg ctx client store asked.calls asked.reply
