-- ===== src/Queue/Prepare.antt =====
-- `processPrepareJob` of backend/src/queue/workers/prepare.worker.ts, as a program over the calls of
-- its dependencies, each of which may reject. What `loadDocument`, `prepareRun` and
-- `claimPendingBatches` answer are arguments.
mod Laws
mod Tests
use Prim.Native.String.{String}
use docsmint.Prelude.{
  ℕ, zero, suc, Bool, true, false, not, Option, none, some, List, [], ◌∷◌, map, ◌==◌, if◌then◌else◌,
  length, ◌&&◌, ltb,
}
use docsmint.Queue.Effects.{
  Program, Result, await, throw, other, ◌>>=◌, ◌>>◌, return, act, act_all, is_cancelled,
}
use docsmint.Queue.Reuse.{
  RefreshMode, Provider, PreparedChunk, ReusePlan, EmbeddingRow, plan_embedding_reuse, Batch,
  batches,
}

-- The run that `prepareRun` is given.
pub record PreparedRun : Type 0 where
  pub context_hash : ℕ
  pub total_chunks : ℕ
  pub plan : ReusePlan
  pub batches : List Batch

pub data PrepareCall : Type 0 where
  mark_stale : String → PrepareCall
  prepare_run : PreparedRun → PrepareCall
  complete_empty enqueue_graph : PrepareCall
  claim_pending : ℕ → PrepareCall
  enqueue_embed : ℕ → PrepareCall

-- What `prepareRun` answers.
pub data RunAnswer : Type 0 where
  prepared duplicate stale : RunAnswer

pub data PrepareStatus : Type 0 where
  prepared duplicate stale cancelled : PrepareStatus

-- The status that the worker returns, and the number of batches.
pub record PrepareOutcome : Type 0 where
  pub status : PrepareStatus
  pub batches : ℕ

abbrev pub P : Type 0 → Type 0
P A = Program PrepareCall A

-- The document that was loaded, with the context hash and the chunks that
-- `buildEmbeddingPreparation` makes of it.
pub record Loaded (V : Type 0) : Type 0 where
  pub revision : ℕ
  pub context_hash : ℕ
  pub chunks : List PreparedChunk
  pub provider : Option Provider
  pub active_context_hash : Option ℕ
  pub active_rows : List (EmbeddingRow V)

-- The provider of a document without one; 0 stands for its model "", 1 for its profile "legacy".
abbrev pub provider_or_legacy : Option Provider → Provider
provider_or_legacy none = record { model = 0; profile = 1; dimensions = 1024 }
provider_or_legacy (some p) = p

abbrev outcome : PrepareStatus → ℕ → PrepareOutcome
outcome s n = record { status = s; batches = n }

-- The part for a run with no batch.
finish_empty : P PrepareOutcome
finish_empty = do
  stopped ← is_cancelled
  if stopped then return (outcome PrepareStatus.cancelled 0) else (do
    act complete_empty
    stopped_now ← is_cancelled
    if stopped_now
        then return (outcome PrepareStatus.cancelled 0)
        else (do act enqueue_graph; return (outcome PrepareStatus.prepared 0)))

stale_revision : P PrepareOutcome
stale_revision = do act (mark_stale "stale_revision"); return (outcome PrepareStatus.stale 0)

module _ {V : Type 0} (is_finite is_zero : V → Bool) where
  unfoldable pub prepared_run : RefreshMode → ℕ → Loaded V → PreparedRun
  prepared_run mode size d = record {
    context_hash = d.context_hash;
    total_chunks = length d.chunks;
    plan =
        plan_embedding_reuse is_finite is_zero mode d.context_hash d.active_context_hash
          (provider_or_legacy d.provider) d.chunks d.active_rows;
    batches = batches (length d.chunks) size;
  }

-- The batches of size 0 of a document that has chunks: `Array.from` throws a RangeError.
abbrev pub no_batches : {V : Type 0} → ℕ → Loaded V → Bool
no_batches size d = size == 0 && ltb 0 (length d.chunks)

module _ (claimed : List ℕ) (max_active : ℕ) where
  -- The part for a run with batches.
  start_batches : ℕ → P PrepareOutcome
  start_batches n = do
    act (claim_pending max_active)
    stopped ← is_cancelled
    if stopped
        then return (outcome PrepareStatus.cancelled n)
        else (do act_all (map enqueue_embed claimed); return (outcome PrepareStatus.prepared n))

  -- The part behind the run's preparation.
  after_run : RunAnswer → ℕ → P PrepareOutcome
  after_run stale n = do act (mark_stale "stale_prepare"); return (outcome PrepareStatus.stale n)
  after_run duplicate n = return (outcome PrepareStatus.duplicate n)
  after_run prepared zero = finish_empty
  after_run prepared (suc n) = start_batches (suc n)

  module _ {V : Type 0} (is_finite is_zero : V → Bool) where
    -- The part behind the test of the revision.
    prepare_document : RefreshMode → ℕ → RunAnswer → Loaded V → P PrepareOutcome
    prepare_document mode size answer d = do
      stopped ← is_cancelled
      if stopped then return (outcome PrepareStatus.cancelled 0) else (do
        act (prepare_run (prepared_run is_finite is_zero mode size d))
        after_run answer (length (batches (length d.chunks) size)))

    check_document : ℕ → RefreshMode → ℕ → RunAnswer → Option (Loaded V) → P PrepareOutcome
    check_document revision mode size answer none = stale_revision
    check_document revision mode size answer (some d) =
        if not (d.revision == revision)
        then stale_revision
        else if no_batches size d
        then throw other
        else prepare_document mode size answer d

    -- `processPrepareJob`, of a job for `revision`.
    pub process_prepare_job :
        ℕ → RefreshMode → ℕ → RunAnswer → Result (Option (Loaded V)) → P PrepareOutcome
    process_prepare_job revision mode size answer document = do
      stopped ← is_cancelled
      if stopped
          then return (outcome PrepareStatus.cancelled 0)
          else (do found ← await document; check_document revision mode size answer found)
