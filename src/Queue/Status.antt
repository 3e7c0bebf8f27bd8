-- ===== src/Queue/Status.antt =====
-- backend/src/queue/stage-policies.ts and workers/finalize.worker.ts: the status of a stage, the
-- identity of a job and of its run, and the final status of a run. UUIDs and hashes are numbers.
use docsmint.Prelude.{
  ℕ, Bool, true, false, not, ◌&&◌, ◌||◌, Option, none, some, ◌==◌, if◌then◌else◌,
}

pub data StageStatus : Type 0 where
  pending processing ready retrying failed skipped cancelled : StageStatus

pub data FinalStatus : Type 0 where
  ready ready_with_warnings failed cancelled : FinalStatus

-- `PipelineJobIdentity`
pub record Identity : Type 0 where
  pub owner : ℕ
  pub document : ℕ
  pub generation : ℕ
  pub revision : ℕ
  pub context_hash : Option ℕ

-- `PipelineRunState`
pub record RunState : Type 0 where
  pub identity : Identity
  pub status : StageStatus
  pub embed : StageStatus
  pub graph : StageStatus
  pub summarize : StageStatus

abbrev pub is_ready : StageStatus → Bool
is_ready ready = true
is_ready _ = false

abbrev pub is_failed : StageStatus → Bool
is_failed failed = true
is_failed _ = false

abbrev pub is_cancelled : StageStatus → Bool
is_cancelled cancelled = true
is_cancelled _ = false

abbrev pub is_skipped : StageStatus → Bool
is_skipped skipped = true
is_skipped _ = false

-- `deriveFinalStatus`
unfoldable pub derive_final_status : RunState → FinalStatus
derive_final_status run =
    if is_cancelled run.status
    then cancelled
    else if is_failed run.embed || is_cancelled run.embed
    then failed
    else if not (is_ready run.embed)
    then failed
    else if is_failed run.graph || is_failed run.summarize
    then ready_with_warnings
    else if (is_ready run.graph || is_skipped run.graph)
        && (is_ready run.summarize || is_skipped run.summarize)
    then ready
    else failed

-- `run.ownerId !== job.ownerId || run.documentId !== job.documentId`
abbrev pub other_owner : Identity → Identity → Bool
other_owner run job = not (run.owner == job.owner) || not (run.document == job.document)

-- `run.generationId !== job.generationId || run.revision !== job.revision`
abbrev pub other_revision : Identity → Identity → Bool
other_revision run job =
    not (run.generation == job.generation) || not (run.revision == job.revision)

-- `job.embeddingContextHash !== undefined && run.embeddingContextHash !== job.embeddingContextHash`
abbrev pub context_differs : Option ℕ → Option ℕ → Bool
context_differs run none = false
context_differs none (some j) = true
context_differs (some r) (some j) = not (r == j)

abbrev pub other_context : Identity → Identity → Bool
other_context run job = context_differs run.context_hash job.context_hash

-- What `createFinalizeWorker` writes: the status of the run, and an error code.
pub data Verdict : Type 0 where
  not_found owner_mismatch : Verdict
  stale_revision : Verdict
  final : FinalStatus → Verdict

-- `processFinalizeJob`
unfoldable pub process_finalize_job : Identity → Option RunState → Verdict
process_finalize_job job none = not_found
process_finalize_job job (some run) =
    if other_owner run.identity job
    then owner_mismatch
    else if other_revision run.identity job
    then stale_revision
    else final (derive_final_status run)
