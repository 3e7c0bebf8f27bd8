-- ===== src/Queue/Embed/Traces.antt =====
-- The calls that a run of the embedding worker may make, and what its outcome says of them.
use docsmint.Prelude.{◌≡◌, ◌⊎◌, Bool, true, false, Option, none, some}
use docsmint.Queue.Effects.{Answers, Result, done, raised, IsThrown, other}
use docsmint.Queue.Embed.{
  EmbedCall, mark_stale, get_embedding, store_batch, complete_batch, claim_pending, enqueue_embed,
  activate_generation, enqueue_graph, EmbedStatus, EmbedOutcome, EmbedDocument,
}

-- `fresh`: nothing called; `asking`: embeddings were asked for; `saved`: the batch is stored;
-- `completed b`: the batch is complete, and `b` tells whether all are; `queueing`: the next batches
-- were claimed; `activated`: the generation is; `closed`: nothing may follow; `queued`: nothing may
-- follow the graph's call.
pub data Phase : Type 0 where
  fresh asking saved queueing activated closed queued : Phase
  completed : Bool → Phase

-- The calls that an embedding worker may make, as an automaton.
abbrev pub next : Phase → EmbedCall → Option Phase
next fresh (mark_stale c) = some closed
next fresh (get_embedding i) = some asking
next asking (get_embedding i) = some asking
next asking (store_batch is p) = some saved
next fresh (complete_batch p c) = some (completed c.all_batches_complete)
next saved (mark_stale c) = some closed
next saved (complete_batch p c) = some (completed c.all_batches_complete)
next (completed false) (claim_pending limit) = some queueing
next (completed true) (activate_generation n p c) = some activated
next queueing (enqueue_embed b) = some queueing
next activated enqueue_graph = some queued
next _ _ = none

-- The phases that the graph's call has not ended, and those before any write.
abbrev pub not_queued : Phase → Bool
not_queued queued = false
not_queued _ = true

abbrev pub only_reads : Phase → Bool
only_reads fresh = true
only_reads asking = true
only_reads _ = false

-- What an outcome says of the calls that were made.
abbrev pub Means : EmbedStatus → Bool → Phase → Type 0
Means EmbedStatus.stored false q = q ≡ queueing
Means EmbedStatus.duplicate false q = ⊥
Means EmbedStatus.stale false q = q ≡ closed
Means EmbedStatus.cancelled false q = not_queued q ≡ true
Means EmbedStatus.stored true q = q ≡ queued
Means EmbedStatus.duplicate true q = q ≡ queued
Means EmbedStatus.stale true q = ⊥
Means EmbedStatus.cancelled true q = ⊥

-- An error is the worker's own, made from the embeddings before any write, or that of a dependency.
abbrev pub Ends : Answers → Result (Option EmbedDocument) → Result EmbedOutcome → Phase → Type 0
Ends env document (done o) q = Means o.status o.activated q
Ends env document (raised e) q =
    ((e ≡ other) × (only_reads q ≡ true)) ⊎ (IsThrown env e ⊎ (document ≡ raised e))
