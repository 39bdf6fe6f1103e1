-- ===== src/Lib.antt =====
-- Verification of the LLM service: the parts that decide what happens to a message, a stream and a
-- job. A message comes from Kafka to the consumer, which hands it to the pipeline; the pipeline
-- collects what memory, graph and retrieval know, plans the work, runs the tools that the plan and
-- the user name, and sends a prompt, fitted to a context budget, to a chain of providers, each behind
-- a circuit breaker, and the streaming engine turns the tokens into published chunks. Errors on the
-- way are retried or classified by their class. Animations are jobs of a state machine that a worker
-- runs.
--
-- Errors            app/exceptions: the classes, `isinstance` and the text of an exception.
--   Classify        app/utils/error_handler.py: ErrorHandler.classify.
-- Retry             app/utils/retry.py: is_retriable, RetryManager.execute_with_retry.
-- Breaker           app/utils/circuit_breaker.py: CircuitBreaker and its registry; `call` is cut at
--                   its yield into `enter` and `leave`.
-- Cache             app/utils/cache.py: TTLCache.
-- Providers         Deadlines and Router: app/providers/router.py; Chain: app/providers/chain.py.
-- Streaming         app/services/streaming_service.py: StreamingEngine.stream, whose publisher may
--                   raise; Reliable is the run of a publisher that does not, for comparison.
-- Visualization     app/visualization: Policy (policy.py), Jobs (the MemoryJobStore of jobs.py) and
--                   Runner (`_run_job` of runner.py).
-- Consumer          app/consumers/kafka_consumer.py: `_process_single_message` and what it calls.
-- Publisher         app/producers/kafka_producer.py: start, stop and `_send`.
-- Context           BudgetPolicy: app/context_window/budget_policy.py; Tokens: token_counter.py;
--                   Shrink and Trimmer: trimmer.py; Compaction: compaction.py; Manager: manager.py
--                   and budget.py; Fit: fit.py; Compose: app/prompts/compose.py; Sections:
--                   app/prompts/schemas.py.
-- Bundle            app/context: what the services send (schemas.py), Merger (merger.py), Previous
--                   (previous_chunks.py), Retrieval and Collector (collector.py).
-- Tools             app/tools: the registry (registry.py), Execution (executor.py), Dispatch
--                   (dispatcher.py) and Selection (selection.py).
-- Planning          Analyzer: app/request_analyzer/analyzer.py; Modes:
--                   app/workflow_engine/modes.py and mode_dispatcher.py, and how
--                   app/pipeline/request_pipeline.py joins a plan, a mode and the selected calls.
-- Prelude           Boolean tests, lists and dictionaries that the parts share.
--
-- State is a record that an operation takes and gives back; an exception is a value; a clock reading
-- is an argument, in milliseconds unless a file says otherwise. A token stream is a `Source`, with
-- the waiting time of each pull, or a list of items. The retry loop has fuel for one round more than
-- the policy has attempts, and so has the loop over the attempts of a job: the theorems on both say
-- that they end. The prompt is trimmed again at most five times, as the code does.
-- The consumer's attempts and all other loops are by structure.
--
-- What is left out: metrics, logs, spans; parts of the messages of two provider errors; the
-- interleaving of tasks, but for the breaker, whose invariant holds for every order of its steps; the
-- Redis store, which calls a client library; the polling loop of the consumer. Parameters stand for
-- what is not modelled: the lowering, the folding of case and the digest of a text, the replies of
-- the services, the parsing of a message, the handler, the fitter, the renderer, the repair call, the
-- media store, the validation of a specification and the safety margin of the budget, which is
-- floating-point.
pub mod Prelude
pub mod Errors
pub mod Retry
pub mod Breaker
pub mod Cache
pub mod Providers
pub mod Streaming
pub mod Visualization
pub mod Consumer
pub mod Context
pub mod Tools
pub mod Planning
pub mod Bundle
pub mod Publisher
