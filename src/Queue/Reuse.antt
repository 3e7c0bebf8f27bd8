-- ===== src/Queue/Reuse.antt =====
-- `planEmbeddingReuse` and the batches of `processPrepareJob`, in
-- backend/src/queue/workers/prepare.worker.ts: which chunks of a document are embedded again. The
-- numbers of a vector are of any type, with the tests that the code makes on them; hashes, models and
-- profiles are numbers.
mod Sound
mod Batches
mod Tests
use docsmint.Prelude.{
  has, ℕ, zero, suc, ◌+◌, ◌*◌, ◌-◌, ◌/◌, min, Bool, true, false, not, ◌&&◌, ◌||◌, Option, none,
  some, List, [], ◌∷◌, ◌++◌, map, ◌==◌, ltb, if◌then◌else◌, length, keep, any, all, is_id,
}

pub data RefreshMode : Type 0 where
  incremental full : RefreshMode

abbrev pub is_full : RefreshMode → Bool
is_full full = true
is_full incremental = false

pub record Provider : Type 0 where
  pub model : ℕ
  pub profile : ℕ
  pub dimensions : ℕ

-- What the plan reads of a chunk.
pub record PreparedChunk : Type 0 where
  pub index : ℕ
  pub hash : ℕ

pub record ReusePlan : Type 0 where
  pub refresh_mode : RefreshMode
  pub provider_chunk_indexes : List ℕ
  pub reusable_chunk_indexes : List ℕ

-- `ReusableEmbeddingRow`, with vectors of numbers of the type `V`.
pub record EmbeddingRow (V : Type 0) : Type 0 where
  pub chunk_index : ℕ
  pub chunk_hash : Option ℕ
  pub embedding : Option (List V)
  pub model : ℕ
  pub profile : ℕ
  pub dimensions : ℕ
  pub is_valid : Bool

module _ {V : Type 0} where
  -- `rowsByIndex.get(index)`: of two rows with one index, the map holds the later.
  unfoldable pub row_at : ℕ → List (EmbeddingRow V) → Option (EmbeddingRow V)
  row_at n [] = none
  row_at n (r ∷ rs) = elim (row_at n rs) [
    | some later ↦ some later
    | none ↦ if r.chunk_index == n then some r else none
  ]

  abbrev pub other_provider : Provider → EmbeddingRow V → Bool
  other_provider p r =
      not (r.model == p.model) || not (r.profile == p.profile) || not (r.dimensions == p.dimensions)

  abbrev pub is_empty : List (EmbeddingRow V) → Bool
  is_empty [] = true
  is_empty (r ∷ rs) = false

  -- `forceFull`; a hash is never the empty text.
  unfoldable pub force_full : RefreshMode → ℕ → Option ℕ → Provider → List (EmbeddingRow V) → Bool
  force_full mode hash active p rows =
      is_full mode
      || not (is_id active hash)
      || (not (is_empty rows) && all (other_provider p) rows)

-- The indexes that the second loop adds for one changed index; `n` is the number of chunks.
unfoldable pub spread_of : ℕ → ℕ → List ℕ
spread_of n zero = 0 ∷ (if ltb 1 n then 1 ∷ [] else [])
spread_of n (suc i) = suc i ∷ i ∷ (if ltb (suc i + 1) n then (suc i + 1) ∷ [] else [])

unfoldable pub affected_by : ℕ → List PreparedChunk → List ℕ
affected_by n [] = []
affected_by n (c ∷ cs) = spread_of n c.index ++ affected_by n cs

-- The tests of a vector's numbers.
module _ {V : Type 0} (is_finite is_zero : V → Bool) where
  abbrev pub usable_vector : ℕ → Option (List V) → Bool
  usable_vector n none = false
  usable_vector n (some v) = length v == n && all is_finite v && any (λ x. not (is_zero x)) v

  -- `rowIsReusable`, of a row that was found.
  unfoldable pub row_is_reusable : Provider → EmbeddingRow V → Bool
  row_is_reusable p r =
      r.is_valid
      && usable_vector p.dimensions r.embedding
      && r.model == p.model
      && r.profile == p.profile
      && r.dimensions == p.dimensions

  -- The negation of the test of the first loop: the row of the chunk serves again.
  unfoldable pub row_serves : Provider → PreparedChunk → Option (EmbeddingRow V) → Bool
  row_serves p c none = false
  row_serves p c (some r) = row_is_reusable p r && is_id r.chunk_hash c.hash

  unfoldable pub is_changed : Provider → List (EmbeddingRow V) → PreparedChunk → Bool
  is_changed p rows c = not (row_serves p c (row_at c.index rows))

  unfoldable pub affected : Provider → List (EmbeddingRow V) → List PreparedChunk → List ℕ
  affected p rows chunks = affected_by (length chunks) (keep (is_changed p rows) chunks)

  -- `planEmbeddingReuse`
  unfoldable pub plan_embedding_reuse :
      RefreshMode → ℕ → Option ℕ → Provider → List PreparedChunk → List (EmbeddingRow V) → ReusePlan
  plan_embedding_reuse mode hash active p chunks rows =
      let indexes = map (λ c. c.index) chunks in
      if force_full mode hash active p rows
      then record {
        refresh_mode = full;
        provider_chunk_indexes = indexes;
        reusable_chunk_indexes = [];
      }
      else record {
        refresh_mode = incremental;
        provider_chunk_indexes = keep (λ i. has (affected p rows chunks) i) indexes;
        reusable_chunk_indexes = keep (λ i. not (has (affected p rows chunks) i)) indexes;
      }

pub record Batch : Type 0 where
  pub batch_index : ℕ
  pub chunk_start : ℕ
  pub chunk_end : ℕ

-- `Array.from({ length }, …)`, from the batch `k` on with `left` batches to make; `n` is the number of
-- chunks.
unfoldable pub batches_from : ℕ → ℕ → ℕ → ℕ → List Batch
batches_from n size k zero = []
batches_from n size k (suc left) =
    record { batch_index = k; chunk_start = k * size; chunk_end = min n ((k + 1) * size) }
    ∷ batches_from n size (k + 1) left

-- The batches of `n` chunks; a size of 0, with which the source throws, is excluded by its lemmas.
unfoldable pub batches : ℕ → ℕ → List Batch
batches n size = batches_from n size 0 ((n + size - 1) / size)
