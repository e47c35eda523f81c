-- ===== src/Lib.antt =====
-- Content Chain: a server (apps/api) that takes orders for texts, runs them through pipelines of
-- language-model calls, stops for a human's choice, and keeps the results for a review; and a
-- gateway (apps/ai-provider-gateway) that calls the models.
--
-- Parts of the server, under apps/api/src, and the files that model them:
-- - Shared: packages/shared/src/branded/enums.ts and apps/api/src/shared. A call that may throw
--   returns an `Outcome`; a method of a use case is a function of the `World` (Runs/World), and what
--   it has written before it throws stays written.
-- - Runs/Record, Runs/Status: runs/domain. Identifiers and dates are numbers; a row whose strings are
--   not members of their unions is outside the model, as is the parsing of briefs.
-- - Runs/Prisma is the interface of the database client with the laws of its documentation, and
--   Runs/Repository is runs/infrastructure/persistence/prisma-run.adapter.ts over it, method by
--   method. A conditional update (`updateMany`) is atomic; where a method reads and then updates,
--   the writes of other clients in between are functions of the table, `others`, and `meanwhile` where
--   a method updates twice. A rejected update of a row that is stored, as when the database is lost in
--   between, is outside the laws of the client.
-- - Runs/Lifecycle, Runs/Abort, Runs/Worker: runs/application/lifecycle. The worker's asynchronous
--   code is cut at each await, and its pieces are the steps of a relation.
-- - Runs/Recover, Runs/Cancel, Runs/Review, Runs/StartRun, Runs/ResumeHitl: the use cases in
--   runs/application, from the parsed input on. `now` is the clock at the call; a method that reads
--   the clock more than once gets one time, but for the start of a run, which reads it when it admits
--   the run and again when it gives the admission back.
-- - Guest: runs/application/guest and runs/infrastructure/quota, over Redis as an interface whose
--   commands may fail, on each call in its own way; a failed command is taken to have changed nothing, and no key expires within
--   its day.
-- - Content: content/domain (Types) and content/infrastructure/graph (Drafts and Graph for the nodes,
--   Graph/Walk for the edges). A node is a function of the graph's state, of what is stored for the
--   run, and of the services' state, from which the answers of the language models come; a new
--   identifier is drawn whether or not it is needed.
-- - Content/Facade and Content/Executor: content/application, from a claimed run to its transition.
--   A signal is a test on the services' state, which the services may change while they answer; the
--   message of an error is a function of it. Reads of the stores do not fail. What a pipeline writes of
--   the run beside its results, which is the columns of the row that savePipelineState updates and the
--   entries that the agents and the verifier give to lifecycle.appendLog, is kept by the results and
--   the services while the graph runs; `synced` brings the row, the log and the stream up to it where
--   the execution leaves the graph or moves the run, and nothing reads them before that.
-- - Social: social/domain (Types, with application/coerce-pass-note-verdict.ts), the nodes and edges
--   of social/infrastructure/graph (Graph, Graph/Nodes, Graph/Walk), and social/application (Facade,
--   Executor). The verdict has the shape of that of pages, and the policy of refinements is the same.
-- - Company: company-context/domain and application. `toLowerCase` is a parameter, and so is what the
--   database takes; what is shown to clients is the context with its completeness.
-- - Runs/Executor holds what the two executors share, and the dispatch; Runs/Worker/Execution is the
--   worker's error path around them, for any executor. Content/Executor/Claimed puts them together.
-- - Runs/Hub: runs/infrastructure/sse/run-sse.hub.ts, to which the calls of Runs/Lifecycle are handed.
-- - Shared/Llm: shared/llm. ParseJson reads an answer, a list of UTF-16 code units, with `JSON.parse`
--   and the schema as parameters; Hop asks the gateway.
-- Parts of the gateway:
-- - Gateway/Resilience: chat/resilience and chat/helpers/retry-policy.ts. The provider is a parameter
--   that answers after a time in a state of its own; log entries are left out, and so is the hook
--   validateFallbackChain, which only tests pass.
-- - Gateway/EmbeddingCircuit: cache/semantic/embedding-circuit-breaker.ts.
--
-- Prelude holds the shared helpers, Runs/Rows and Runs/Loops the lemmas on rows and on loops over
-- queries, Tests the theorems at concrete inputs, with a client and a Redis in memory.
--
-- Bounds: the recursion of a claim takes a schedule with one entry for each round. It needs as many
-- as other clients take the candidate away, and one more. The loop of the attempts recurs on the
-- attempts that are left. The graph of a page runs on fuel, one for each verification; 3 is enough,
-- since a draft is refined twice at most, and so for the graph of posts and reels. A hop recurs on
-- the attempts that are left, of three. Nothing else needs fuel.
--
-- Not modelled: the wording of prompts, the queries of the result stores, the start of the worker and
-- the timer of its sweep, the details of refusals, authentication, feedback, edits of results, lists and
-- summaries, and the gateway's caches, rate limits and stream mappers; reports, configuration and
-- user interface.
pub mod Prelude
pub mod Shared
pub mod Guest
pub mod Runs
pub mod Company
pub mod Content
pub mod Social
pub mod Gateway
pub mod Tests
