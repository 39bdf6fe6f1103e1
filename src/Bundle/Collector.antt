-- ===== src/Bundle/Collector.antt =====
-- The collector of the bundle (`collect` in app/context/collector.py). The replies of the services are
-- parameters.
pub mod Collected
use llm_service.Prelude.{String, Option, none, some, List, [], ◌∷◌, ◌++◌, str_eq, if◌then◌else◌}
use llm_service.Bundle.{MemoryContext, GraphContext, RetrievalContext, ContextBundle}
use llm_service.Bundle.Previous.{Store}
use llm_service.Bundle.Merger.{Hasher, merge}
use llm_service.Bundle.Retrieval.{
  Reply, answered, raised, Config, Request, RetrievalClient, Call, fetch_retrieval,
}

-- what the three tasks answer
pub data Answer : Type 0 where
  of_memory : MemoryContext → Answer
  of_graph : GraphContext → Answer
  of_retrieval : RetrievalContext → Answer
  of_none : Answer

pub record Results : Type 0 where
  pub memory_res : Option MemoryContext
  pub graph_res : Option GraphContext
  pub retrieval_res : Option RetrievalContext
  pub missing_sources : List String

unfoldable pub keep : String → Answer → Results → Results
keep name (of_memory m) r = if str_eq name "memory" then record r { memory_res = some m } else r
keep name (of_graph g) r = if str_eq name "graph" then record r { graph_res = some g } else r
keep name (of_retrieval c) r =
    if str_eq name "retrieval" then record r { retrieval_res = some c } else r
keep name of_none r = r

unfoldable pub process_one : String → Reply Answer → Results → Results
process_one name (raised _) r = record r { missing_sources = r.missing_sources ++ name ∷ [] }
process_one name (answered a) r = keep name a r

-- the loop over the sources and their results
unfoldable pub process : List (String × Reply Answer) → Results → Results
process [] r = r
process ((name, reply) ∷ rest) r = process rest (process_one name reply r)

unfoldable pub answer_as : {A : Type 0} → (A → Answer) → Reply A → Reply Answer
answer_as f (raised e) = raised e
answer_as f (answered a) = answered (f a)

unfoldable pub answer_of : Option RetrievalContext → Answer
answer_of none = of_none
answer_of (some res) = of_retrieval res

pub record Collection : Type 0 where
  pub bundle : ContextBundle
  pub calls : List Call
  pub store : Store

unfoldable pub gather :
    Reply MemoryContext → Reply GraphContext → Reply (Option RetrievalContext) → Results
gather memory graph retrieval =
    process
      (("memory", answer_as of_memory memory)
        ∷ ("graph", answer_as of_graph graph)
        ∷ ("retrieval", answer_as answer_of retrieval)
        ∷ [])
      (record { memory_res = none; graph_res = none; retrieval_res = none; missing_sources = [] })

unfoldable pub collect :
    Hasher
    → Config
    → Request
    → Reply MemoryContext
    → Reply GraphContext
    → RetrievalClient
    → Store
    → Collection
collect h cfg ctx memory graph client store =
    let fetched = fetch_retrieval cfg ctx client store in
    let r = gather memory graph fetched.reply in
    record {
      bundle = merge h r.memory_res r.graph_res r.retrieval_res r.missing_sources;
      calls = fetched.calls;
      store = fetched.store;
    }
