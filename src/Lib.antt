-- ===== src/Lib.antt =====
-- Verification of DocsMint: the logic of its backend, modelled from the TypeScript sources.
--
-- DocsMint stores Markdown documents, indexes them for search, and shares them. A changed document
-- starts a pipeline run: a job embeds its chunks, a job extracts its graph, a job summarises it, and
-- a last job derives the status of the run. The jobs run concurrently with edits, so that each of
-- them checks again and again that its run is not cancelled and its revision still current. The new
-- embeddings are a candidate generation beside the active one, and replace it in one transaction.
-- The calls of outside providers pass a limiter. A search asks several channels, fuses what they find
-- and may rerank it. Documents lie in folders, which form a tree. A share link opens a document, a folder
-- or a category to whoever has its token. Old versions of a document are pruned.
--
-- Prelude: Boolean tests on the native numbers, lists measured by them, filters, and the sets of
-- visited rows that the walks share; what every other module uses.
--
-- Embedding.Generation: backend/src/embedding/generation.ts and searchable-generation.ts. The state
-- is the three tables that the transactions read and write (documents, document_embeddings and
-- pipeline_runs, with the columns they select), in Generation/Defs. beginEmbeddingGeneration,
-- activateEmbeddingGeneration and failEmbeddingGeneration are begin_generation, activate_generation
-- and fail_generation; a thrown error is a value, and rolls the transaction back (committed). A
-- transaction is one step: its row locks are what makes it so. Identifiers are numbers, a date is a
-- number, and the code of a failure is a list of UTF-16 code units. Invariant has the step relation
-- of the three operations and of the rows that a worker stages.
--
-- Embedding.Chunker: backend/src/embedding/chunker.ts. sanitizeEmbeddingText is Sanitize, whose loop has
-- fuel (a round for every code unit) and returns none only without it; sourceUnits is Units, which steps
-- through the text and through the matches of its regular expression; splitOversizedParagraph is
-- split_oversized and its loop is scan; the loop of chunkText is merge, with currentChunk and its two
-- offsets as a Chunk, and Whole is chunkText. Texts are lists of UTF-16 code units; the class of white
-- space, the two sizes of the configuration and SHA-256 are parameters.
--
-- Folders: backend/src/lib/folder-name.ts (Names), and in Tree and Tree/Routes the routes of
-- backend/src/api/routes/folders.ts that create, change and delete a folder, with
-- resolveFolderEffectiveCategory and isAuthorizedCategory of backend/src/lib/content-access.ts. The state
-- is the folders of one tenant; a transaction is one step, since it holds the tenant's topology lock.
-- The walks and the search for a name have fuel (two rounds more than there are folders, one more than
-- there are siblings), and the operations return none only without it.
--
-- Lifecycle: backend/src/lib/lifecycle-service.ts, the lease of an account's purge: acquireLease,
-- persistStep, and the writes of purgeUserData under a lease, as transactions on one operation's row that
-- workers make in any order.
--
-- Queue: backend/src/queue/stage-policies.ts, workers/graph.worker.ts, workers/finalize.worker.ts,
-- provider-limiter.ts, and backend/src/lib/pipeline-error.ts. A stage is a program over the calls of
-- its dependencies (Queue.Effects): it reads the answers of isCancelled and isCurrent, and whether a call
-- resolves, from sequences that are any at all, and it records its calls with how they ended. Each
-- dependency may reject. Queue.Triples has the rules to reason about such a
-- program. Summary is processSummaryStage, Graph is processGraphJob with processGraphStageFailure, and
-- Status and Final are deriveFinalStatus and the final worker. Summary.Traces and Graph.Traces are the
-- abstract specifications: automata of the calls that a run may make.
-- ProviderLimiter is createProviderLimiter at one key of its maps: Semaphore splits acquire at its
-- await into two steps, so that calls interleave; RateWindow is a round of waitForRateWindow; Retry is
-- the loop of withPermit and its circuit, with the provider's outcomes, the clock and the rounds of the
-- rate window before an attempt as functions of the number of the attempt. The loop has the retries that are left as its measure.
-- Reuse, Prepare and Embed are the workers before them: planEmbeddingReuse and the batches of
-- workers/prepare.worker.ts, processPrepareJob, and processEmbedJob of workers/embed.worker.ts. Both
-- workers are programs over their own calls; a chunk is its index, and what the other dependencies
-- answer is an argument. Prepare.Laws and Embed.Traces have their automata.
-- Enqueue is what comes before them: findOrCreate of backend/src/queue/enqueue.ts on the table of
-- pipeline runs, one step since it holds the document's lock, and enqueueDocumentPipeline over it.
-- Recovery is recoverStalledPipeline of backend/src/queue/recovery.ts: the calls that it makes for a list
-- of candidates, with claimedRuns as an association list and the answers of claimRetry as a function.
-- OwnerSlots is the pair of scripts of backend/src/queue/fair-scheduler.ts, and what callers hold.
--
-- RemoteImage: backend/src/lib/remote-image.ts, the images that the server fetches from other hosts.
-- isPublicAddress is on texts, resolvePublicRemoteTarget and fetchRemoteImage (Fetch) take isIP, the
-- resolver and the servers' answers as functions; a run lists its connections. The loop has the rounds
-- that are left as its measure.
--
-- Search: backend/src/search. Fusion is fuseCandidates of rrf.ts, whose maps are lists in the order of
-- insertion; Confidence is evaluateConfidence, Rerank applyRerankOrder, Retrievers rowsToCandidates, and
-- Filters applySearchFilters on the rows of its queries. Orchestrator is searchDocuments: what its
-- adapters answer, exceptions included, is an argument. Scores are any type with the operations that the
-- code uses, and documents numbers in the order of localeCompare. Prelude has the stable sort.
--
-- Sharing: backend/src/lib/share-access.ts. Climb has the walks up a folder's chain of parents, Spread
-- the walk down from a shared folder, Access the two operations built from them,
-- shareTokenAccessForDocument and resolveShareDocumentScope. A walk has fuel, and returns none only
-- without it: one round more than there are folders is enough going up, two more going down, since a
-- folder is visited once.
--
-- Versions: backend/src/lib/version-prune.ts, maybePruneVersions as a step on the table of versions and
-- the keys of the debounce.
--
-- Not modelled: the parsing of a retry-after header; the scan of a shared document for attachments; the
-- rest of the queue; the SQL of the search's channels, its graph and the analysis of queries; the other
-- HTTP routes, the web client, the editor and the other packages; SQL and Redis beyond the rows and
-- values that the modelled code reads and writes (row-level security is taken to hide nothing that a
-- query asks for);
-- the text of what providers return.
pub mod Prelude
pub mod Embedding
pub mod Folders
pub mod Lifecycle
pub mod Queue
pub mod RemoteImage
pub mod Search
pub mod Sharing
pub mod Versions
