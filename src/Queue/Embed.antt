-- ===== src/Queue/Embed.antt =====
-- `processEmbedJob` of backend/src/queue/workers/embed.worker.ts, as a program over the calls of its
-- dependencies, each of which may reject. What `loadDocument`, `getEmbedding`, `storeBatch`,
-- `completeBatch` and `claimPendingBatches` answer are arguments; a chunk is its index.
mod Traces
mod Laws
mod Tests
use Prim.Native.String.{String}
use docsmint.Prelude.{
  has, ℕ, Bool, true, false, not, ◌&&◌, ◌||◌, Option, none, some, List, [], ◌∷◌, map, ◌==◌, ltb,
  if◌then◌else◌, is_id, keep, any,
}
use docsmint.Queue.Effects.{
  Program, Result, await, Failure, other, ◌>>=◌, ◌>>◌, return, throw, act, act_all, is_cancelled,
}
use docsmint.Queue.Reuse.{RefreshMode, full, incremental, Provider}

pub record EmbedJob : Type 0 where
  pub generation : ℕ
  pub revision : ℕ
  pub context_hash : Option ℕ
  pub refresh_mode : RefreshMode
  pub chunk_indexes : List ℕ

-- The document that was loaded; `chunk_count` is the number of chunks that `chunkText` makes of it.
pub record EmbedDocument : Type 0 where
  pub revision : ℕ
  pub pending_generation : Option ℕ
  pub active_generation : Option ℕ
  pub context_hash : Option ℕ
  pub candidate_chunk_indexes : List ℕ
  pub batch_ready : Bool
  pub profile : Option Provider
  pub chunk_count : ℕ

pub record Completion : Type 0 where
  pub all_batches_complete : Bool
  pub total_chunks : ℕ

pub data EmbedCall : Type 0 where
  mark_stale : String → EmbedCall
  get_embedding : ℕ → EmbedCall
  store_batch : List ℕ → Provider → EmbedCall
  complete_batch : Provider → Completion → EmbedCall
  claim_pending : ℕ → EmbedCall
  enqueue_embed : ℕ → EmbedCall
  activate_generation : ℕ → Provider → Option ℕ → EmbedCall
  enqueue_graph : EmbedCall

-- What `storeBatch` answers.
pub data StoreAnswer : Type 0 where
  stored duplicate stale : StoreAnswer

pub data EmbedStatus : Type 0 where
  stored duplicate stale cancelled : EmbedStatus

pub record EmbedOutcome : Type 0 where
  pub status : EmbedStatus
  pub activated : Bool

abbrev pub E : Type 0 → Type 0
E A = Program EmbedCall A

-- What the dependencies answer: the embedding of a chunk is the profile of its result, or a failure.
pub record EmbedAnswers : Type 0 where
  pub embedding : ℕ → Option Provider
  pub store : StoreAnswer
  pub completion : Completion
  pub claimed : List ℕ

abbrev pub outcome : EmbedStatus → Bool → EmbedOutcome
outcome s b = record { status = s; activated = b }

abbrev pub same_provider : Provider → Provider → Bool
same_provider p q = p.model == q.model && p.profile == q.profile && p.dimensions == q.dimensions

-- The profiles of the results, or `none` if one of the embeddings failed.
unfoldable pub results : (ℕ → Option Provider) → List ℕ → Option (List Provider)
results answer [] = some []
results answer (i ∷ is) = elim (answer i) [
  | none ↦ none
  | some p ↦ elim (results answer is) [ none ↦ none | some ps ↦ some (p ∷ ps) ]
]

-- `const profile = first ? … : document.profile`
abbrev pub batch_profile : List Provider → Option Provider → Option Provider
batch_profile [] own = own
batch_profile (p ∷ ps) own = some p

-- The document is not the one that the job is for.
unfoldable pub is_stale_document : EmbedJob → EmbedDocument → Bool
is_stale_document job d =
    not (d.revision == job.revision)
    || (not (is_id d.pending_generation job.generation)
        && not (d.batch_ready && is_id d.active_generation job.generation))

abbrev pub context_differs : Option ℕ → Option ℕ → Bool
context_differs none own = false
context_differs (some h) own = not (is_id own h)

-- `candidateChunkIndexes`
abbrev pub candidates : RefreshMode → List ℕ → List ℕ
candidates full indexes = []
candidates incremental indexes = indexes

-- The indexes of `selected`.
abbrev pub selected : EmbedJob → EmbedDocument → List ℕ
selected job d =
    keep (λ i. not (has (candidates job.refresh_mode d.candidate_chunk_indexes) i))
      job.chunk_indexes

-- The test under which a batch was finished before.
abbrev pub was_finished : EmbedJob → EmbedDocument → Bool
was_finished job d = d.batch_ready && elim job.context_hash [ none ↦ false | some h ↦ true ]

-- The indexes that are embedded.
abbrev pub to_embed : EmbedJob → EmbedDocument → List ℕ
to_embed job d = if was_finished job d then [] else selected job d

-- `job.embeddingContextHash ?? document.embeddingContextHash`
abbrev pub context_of : EmbedJob → EmbedDocument → Option ℕ
context_of job d = elim job.context_hash [ none ↦ d.context_hash | some h ↦ some h ]

stop_stale : String → E EmbedOutcome
stop_stale code = do act (mark_stale code); return (outcome EmbedStatus.stale false)

module _ (answers : EmbedAnswers) (job : EmbedJob) (d : EmbedDocument) where
  -- The part behind `completeBatch`, if batches are left.
  next_batch : E EmbedOutcome
  next_batch = do
    act (claim_pending 1)
    stopped ← is_cancelled
    if stopped then return (outcome EmbedStatus.cancelled false) else (do
      act_all (map enqueue_embed answers.claimed)
      return (outcome EmbedStatus.stored false))

  -- The part behind `completeBatch`, if all batches are complete.
  activate : EmbedStatus → Provider → E EmbedOutcome
  activate status profile = do
    stopped ← is_cancelled
    if stopped then return (outcome EmbedStatus.cancelled false) else (do
      act (activate_generation answers.completion.total_chunks profile (context_of job d))
      stopped_now ← is_cancelled
      if stopped_now
          then return (outcome EmbedStatus.cancelled false)
          else (do act enqueue_graph; return (outcome status true)))

  -- The part behind `storeBatch`.
  complete : EmbedStatus → Provider → E EmbedOutcome
  complete status profile = do
    stopped ← is_cancelled
    if stopped then return (outcome EmbedStatus.cancelled false) else (do
      act (complete_batch profile answers.completion)
      if answers.completion.all_batches_complete then activate status profile else next_batch)

  after_store : StoreAnswer → Provider → E EmbedOutcome
  after_store stale profile = stop_stale "stale_batch"
  after_store stored profile = complete EmbedStatus.stored profile
  after_store duplicate profile = complete EmbedStatus.duplicate profile

  -- The choice of `stored`.
  store : List ℕ → Provider → E EmbedOutcome
  store [] profile =
      complete (if was_finished job d then EmbedStatus.duplicate else EmbedStatus.stored) profile
  store (i ∷ is) profile = do act (store_batch (i ∷ is) profile); after_store answers.store profile

  -- The checks of the results, and the store.
  check_profile : List ℕ → List Provider → Option Provider → E EmbedOutcome
  check_profile indexes found none = throw other
  check_profile indexes found (some profile) =
      if any (λ p. not (same_provider p profile)) found then throw other else (do
        stopped ← is_cancelled
        if stopped then return (outcome EmbedStatus.cancelled false) else store indexes profile)

  check_results : List ℕ → Option (List Provider) → E EmbedOutcome
  check_results indexes none = throw other
  check_results indexes (some found) = check_profile indexes found (batch_profile found d.profile)

  embed_selected : E EmbedOutcome
  embed_selected = do
    act_all (map get_embedding (to_embed job d))
    check_results (to_embed job d) (results answers.embedding (to_embed job d))

  check_embed : E EmbedOutcome
  check_embed =
      if is_stale_document job d
      then stop_stale "stale_revision"
      else if context_differs job.context_hash d.context_hash
      then stop_stale "stale_context"
      else if any (λ i. not (ltb i d.chunk_count)) (selected job d)
      then stop_stale "stale_chunks"
      else embed_selected

check_loaded : EmbedAnswers → EmbedJob → Option EmbedDocument → E EmbedOutcome
check_loaded answers job none = stop_stale "stale_revision"
check_loaded answers job (some d) = check_embed answers job d

-- `processEmbedJob`
pub process_embed_job : EmbedAnswers → EmbedJob → Result (Option EmbedDocument) → E EmbedOutcome
process_embed_job answers job document = do
  stopped ← is_cancelled
  if stopped
      then return (outcome EmbedStatus.cancelled false)
      else (do found ← await document; check_loaded answers job found)
