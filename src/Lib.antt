-- ===== src/Lib.antt =====
-- CareerOps Agent: the runtime that lets a language model call tools on a person's behalf.
--
-- An agent task has a policy that lists the tools it may use. A tool call is a row that moves from
-- proposed through authorized and executing to a final status; external writes wait for a one-time
-- approval by a person; a call with an idempotency key runs once; calls that a stopped process left
-- behind are recovered; a run belongs to one worker at a time by a lease; the context that the model
-- reads is kept within a token budget; what the agent may remember is judged by rules and has
-- versions and an end; what a step reads of memories and job evidence is ranked and selected; a learning
-- plan waits for a person's review; and the loop of a run asks a model, runs the tool that it chose and keeps what
-- was observed, until an answer, the step limit or an exception ends the run.
--
-- Files:
-- Shared: tests, lists and texts over the native numbers, which every part uses.
-- Tool/Rows, Tool/Tests: the rows of app/models.py and tests on them. `Db` is the database and the
--   world outside it; an operation takes a `Db` and returns its result with the `Db` after it.
-- Tool/Registry: app/services/tools.py. A handler changes plan steps and the world outside;
--   `finish` undoes its rows when it raises, as `begin_nested` does.
-- Tool/PlanSteps: the tool `update_plan_step` of app/services/tools.py.
-- Tool/Approval: app/services/tool_approval.py. `claim` is the conditional UPDATE of
--   `consume_matching_tool_approval`: the rows that it hits and the table after it.
-- Tool/Authorization: app/services/authorization.py.
-- Tool/Execution: one attempt of app/services/tool_runtime.py, first or repeated, with the fixture
--   of app/services/replay_fixture.py.
-- Tool/Runtime: `run_tool_call` and the replay of app/services/tool_runtime.py.
-- Tool/Recovery: app/services/tool_recovery.py, with Marks for what it records and Reconcile for
--   its questions to a provider.
-- Run/Rows, Run/Lease: the rows of agent runs and app/services/agent_run_lease.py. A lease statement
--   is an UPDATE on the list of runs.
-- Run/Worker: the failure record and the startup recovery of app/services/agent_run_worker.py.
-- Context/Budget: app/services/token_budget.py.
-- Context/Json, Context/Task, Context/Compaction, Context/Agent:
--   app/services/context_compaction.py.
-- Memory/Rows, Memory/Versioning, Memory/Lifecycle: the rows of memories,
--   app/services/memory_versioning.py and app/services/memory_lifecycle.py.
-- Memory/Candidate, Memory/Promotion, Memory/Rules, Memory/Semantics, Memory/Decision,
--   Memory/Evaluation, Memory/Capture: app/services/memory_evaluator.py, from the candidates that are
--   built from runs, through the rules (`_evaluate_rules`) and the judgment of a language model
--   (`_evaluate_semantics`), to the tables (`evaluate_and_store_candidate`).
-- Memory/Maintenance: app/services/memory_maintenance.py.
-- Memory/Selection: `_select_under_budget` and `resolve_memory_scope` of
--   app/services/memory_runtime.py.
-- Loop/Names: the texts of enumerations.
-- Loop/Model, Loop/Store: the requests and decisions of app/services/agent_loop.py, the tables that
--   the loop works on (`Store`) and what the engine is given (`Engine`).
-- Loop/Request, Loop/Record, Loop/Observe, Loop/Finish: `_build_request`, `_record_model_decision`,
--   `_execute_tool`, and the ends of a run. A method returns a value or an exception, with the store
--   after it; what a rolled-back session wrote is not in that store.
-- Loop/Engine: `turn` is one pass of the `while True` loop of `_run`, `run_engine` is `run`.
-- Loop/Workflow: app/services/agent_workflow.py. The graph library is taken to run the nodes along the
--   declared edges; its snapshots are a parameter. Loop/Workflow/Migration: the history and the
--   migration of checkpoints, where an update as a node is followed by the edges of that node.
-- Checkpoints: app/services/checkpoint_versioning.py, for both graphs.
-- Loop/Resume, Loop/Recovery, Loop/Stale: app/services/agent_run_recovery.py.
-- Retrieval/Scores, Retrieval/Hybrid: app/services/hybrid_retrieval.py. `rank_hybrid_documents` threads
--   the state of the provider of embeddings. Retrieval/Embedding, Retrieval/Similar:
--   app/services/memory_similarity.py. Retrieval/Cache: `CachedRetrievalEmbeddingProvider.embed` of
--   app/services/retrieval_embedding_cache.py, on the rows of the cache. Retrieval/Route:
--   app/services/retrieval_router.py.
-- Memory/Visible, Memory/Context, Memory/Assembly: `assemble_memory_context`, `_rank_channels` and the
--   class `MemoryContext` of app/services/memory_runtime.py.
-- Goal/Rows, Jobs/Rows: the rows of goal contracts, jobs and skills.
-- Jobs/Analytics, Jobs/Templates, Jobs/Criteria, Jobs/Roadmap: app/services/analytics.py and
--   app/services/roadmap.py.
-- Learning/Graph: app/services/learning_graph.py, where the thread of a task is its last snapshot;
--   Learning/Graph/Migration: its migration. Learning/Routes: the routes of app/main.py that run and
--   resume it. Http/Responses: what a route answers.
-- The modules below these hold proofs, as do Tool/Same, Tool/Keys and Tool/Saved; each module Examples
--   holds runs on concrete data, and Tool/Samples the tools and rows of those.
--
-- Parameters: the registered tools, their argument validation (pydantic), handlers and adapters; the
-- digest of a request; the texts of `uuid4`; whether the database is a SQLite file; the token count,
-- `json.dumps` and `trim_messages` of other libraries; `re.search`, `str.casefold` and `str.isalnum`;
-- the language models, the search for similar memories of the evaluator and the tool runner of the
-- loop; what the loop gets of the assembly of memories; floating point numbers (`Floats`), the matches of
-- the patterns for tokens and identifiers, `sha256`, the providers of embeddings and what other sessions
-- commit to their cache; the texts of messages and of times; the saved snapshots of a workflow; and
-- what other sessions commit between the lookup of an idempotency key and the insertion of its row.
--
-- Numbers: ids, seconds and token counts are natural numbers; Python's integers have no bound. A
-- negative token budget is therefore not a value here, and its ValueError has no counterpart.
--
-- Fuel: the compaction loop runs on `3 * length observations + 2` units. An attempt gives up an
-- observation, or the previews, or a summary item, so that is enough whatever is counted. The loop of
-- a run has as much fuel as it has steps left: each pass that goes on records one. The selection of
-- memories has one more than it has candidates: each pass that progresses uses one up.
--
-- Not modelled: durations and the path and digest of fixtures; the text of formatted messages,
-- which are constructors of `Message` with the holes as arguments; the metadata of a trace, but for
-- the ids and the status that it copies; failures of the database other than the unique key of a call;
-- the thread that renews a lease, and other sessions while a run is executed; the timings and token
-- totals of a run; the clients of language models; the history of the learning graph; the metadata of its
-- traces; the evaluator of candidates by a language model; and ingestion, the candidates from free text,
-- governance, and the other routes of the HTTP interface.
pub mod Shared
pub mod Tool
pub mod Run
pub mod Checkpoints
pub mod Loop
pub mod Context
pub mod Memory
pub mod Retrieval
pub mod Goal
pub mod Jobs
pub mod Learning
pub mod Http
