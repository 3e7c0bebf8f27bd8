-- ===== src/Queue/Enqueue.antt =====
-- backend/src/queue/enqueue.ts: `findOrCreate` of its run store as one step on the table of pipeline
-- runs (it holds the document's pipeline lock), and `enqueueDocumentPipeline` as what it leaves in the
-- table and what it does to the queue of prepare jobs. A thrown error rolls the transaction back.
mod Single
mod Tests
use Prim.Native.String.{String}
use docsmint.Prelude.{
  ℕ, Bool, true, false, not, ◌&&◌, ◌||◌, Option, none, some, List, [], ◌∷◌, ◌++◌, map, ◌==◌,
  if◌then◌else◌, is_id, find?, any,
}

-- `pipelineStatusEnum`
pub data PipelineStatus : Type 0 where
  pending processing ready ready_with_warnings retrying failed skipped cancelled : PipelineStatus

-- The columns of a pipeline run that are read or written here.
pub record Run : Type 0 where
  pub document : ℕ
  pub owner : ℕ
  pub workspace : Option ℕ
  pub generation : ℕ
  pub revision : ℕ
  pub status : PipelineStatus
  pub prepare_status : PipelineStatus
  pub error_code : Option String

pub record Document : Type 0 where
  pub id : ℕ
  pub owner : ℕ
  pub workspace : Option ℕ

-- `EnqueueDocumentPipelineInput`
pub record Request : Type 0 where
  pub document : ℕ
  pub owner : ℕ
  pub workspace : Option ℕ
  pub revision : ℕ
  pub generation : Option ℕ
  pub force_new_generation : Bool

-- `ACTIVE_STATUSES`
abbrev pub is_active : PipelineStatus → Bool
is_active pending = true
is_active processing = true
is_active retrying = true
is_active _ = false

abbrev pub is_pending : PipelineStatus → Bool
is_pending pending = true
is_pending _ = false

-- `ownerBoundary` and `runBoundary`, on the columns of a row.
abbrev pub within_boundary : Option ℕ → ℕ → Option ℕ → ℕ → Bool
within_boundary (some w) owner row_workspace row_owner = is_id row_workspace w
within_boundary none owner none row_owner = row_owner == owner
within_boundary none owner (some v) row_owner = false

-- The run is the request's document's, within its boundary.
abbrev pub is_own : Request → Run → Bool
is_own q r = r.document == q.document && within_boundary q.workspace q.owner r.workspace r.owner

abbrev pub is_exact : Request → ℕ → Run → Bool
is_exact q generation r = is_own q r && r.generation == generation

abbrev pub is_current : Request → Run → Bool
is_current q r = is_own q r && r.revision == q.revision && is_active r.status

-- What `findOrCreate` comes to: its run, whether it was created, and the new table.
pub data Found : Type 0 where
  refused : Found
  found : Run → Bool → List Run → Found

abbrev pub new_run : Request → ℕ → Run
new_run q generation = record {
  document = q.document;
  owner = q.owner;
  workspace = q.workspace;
  generation = generation;
  revision = q.revision;
  status = pending;
  prepare_status = pending;
  error_code = none;
}

-- The insert; the table has at most one run of a document and a generation.
unfoldable pub insert_run : Request → ℕ → List Run → Found
insert_run q generation runs =
    if any (λ r. r.document == q.document && r.generation == generation) runs
    then refused
    else found (new_run q generation) true (runs ++ new_run q generation ∷ [])

abbrev pub supersede : Request → Run → Run
supersede q r =
    if is_own q r && is_active r.status
    then record r { status = cancelled; error_code = some "superseded_by_reindex" }
    else r

unfoldable pub reuse_or_insert : Request → ℕ → List Run → Option Run → Found
reuse_or_insert q generation runs (some existing) = found existing false runs
reuse_or_insert q generation runs none = insert_run q generation runs

unfoldable pub find_or_create : List Document → Request → ℕ → List Run → Found
find_or_create documents q generation runs =
    if not (
      any (λ d. d.id == q.document && within_boundary q.workspace q.owner d.workspace d.owner)
        documents)
    then refused
    else elim (find? (is_exact q generation) runs) [
      | some r ↦ found r false runs
      | none ↦
          if q.force_new_generation
          then insert_run q generation (map (supersede q) runs)
          else reuse_or_insert q generation runs (find? (is_current q) runs)
    ]

-- What is done to the queue: a job is named by its document, generation and workspace.
pub data QueueCall : Type 0 where
  add_prepare : ℕ → ℕ → Option ℕ → QueueCall
  remove_prepare : ℕ → ℕ → Option ℕ → QueueCall

-- What the removal of a job comes to: an error whose message has "locked", "active" or "not found" is
-- `kept`, any other is `broken`.
pub data Removal : Type 0 where
  dropped kept broken : Removal

-- What the request is answered: the generation and whether it was there, or an error.
pub data Answer : Type 0 where
  raised : Answer
  answered : ℕ → Bool → Answer

pub record Enqueued : Type 0 where
  pub runs : List Run
  pub calls : List QueueCall
  pub answer : Answer

-- `shouldQueuePrepare`
abbrev pub should_queue_prepare : Request → Run → Bool → Bool
should_queue_prepare q r created = created || elim q.generation [
  | none ↦ false
  | some g ↦ is_pending r.status && is_pending r.prepare_status
]

abbrev pub removal_answer : Removal → Answer → Answer
removal_answer broken a = raised
removal_answer _ a = a

-- The part behind `findOrCreate`; `stopped` is the answer of `isCancelled` after the job was added.
unfoldable pub queue_prepare : Request → Bool → Removal → List Run → Found → Enqueued
queue_prepare q stopped removal runs refused = record { runs = runs; calls = []; answer = raised }
queue_prepare q stopped removal runs (found r created table) =
    let reply = answered r.generation (not created) in
    let add = add_prepare q.document r.generation q.workspace in
    let remove = remove_prepare q.document r.generation q.workspace in
    if should_queue_prepare q r created
    then (if stopped
        then record {
          runs = table;
          calls = add ∷ remove ∷ [];
          answer = removal_answer removal reply;
        }
        else record { runs = table; calls = add ∷ []; answer = reply })
    else record { runs = table; calls = []; answer = reply }

-- `enqueueDocumentPipeline`; `proposed` is the identifier that it makes if the request has none.
unfoldable pub enqueue_document_pipeline :
    List Document → Request → ℕ → Bool → Removal → List Run → Enqueued
enqueue_document_pipeline documents q proposed stopped removal runs =
    queue_prepare q stopped removal runs
      (find_or_create documents q (elim q.generation [ none ↦ proposed | some g ↦ g ]) runs)
