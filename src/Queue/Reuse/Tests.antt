-- ===== src/Queue/Reuse/Tests.antt =====
-- Four chunks of which the third changed, and seven chunks in batches of three.
use docsmint.Prelude.{ℕ, ◌+◌, ◌≡◌, refl, Bool, true, some, List, [], ◌∷◌, arith, ◌==◌}
use docsmint.Queue.Reuse.{
  incremental, Provider, PreparedChunk, EmbeddingRow, row_at, force_full, spread_of, affected_by,
  row_is_reusable, row_serves, is_changed, affected, plan_embedding_reuse, batches_from, batches,
}
use docsmint.Queue.Reuse.Sound.{IsSound, plan-IsSound}

abbrev provider : Provider
provider = record { model = 4; profile = 5; dimensions = 2 }

abbrev chunk : ℕ → PreparedChunk
chunk n = record { index = n; hash = 10 + n }

abbrev chunks : List PreparedChunk
chunks = chunk 0 ∷ chunk 1 ∷ chunk 2 ∷ chunk 3 ∷ []

abbrev row : ℕ → ℕ → EmbeddingRow ℕ
row n hash = record {
  chunk_index = n;
  chunk_hash = some hash;
  embedding = some (1 ∷ 0 ∷ []);
  model = 4;
  profile = 5;
  dimensions = 2;
  is_valid = true;
}

abbrev rows : List (EmbeddingRow ℕ)
rows = row 0 10 ∷ row 1 11 ∷ row 2 99 ∷ row 3 13 ∷ []

abbrev finite : ℕ → Bool
finite x = true

abbrev is_null : ℕ → Bool
is_null x = x == 0

test-plan :
    plan_embedding_reuse finite is_null incremental 8 (some 8) provider chunks rows ≡ record {
      refresh_mode = incremental;
      provider_chunk_indexes = 1 ∷ 2 ∷ 3 ∷ [];
      reusable_chunk_indexes = 0 ∷ [];
    }
unfolding plan_embedding_reuse force_full affected affected_by is_changed row_serves row_is_reusable
    row_at spread_of
test-plan = refl

plan-IsSound_example :
    IsSound finite is_null incremental 8
      (some 8)
      provider
      chunks
      rows
      (plan_embedding_reuse finite is_null incremental 8 (some 8) provider chunks rows)
plan-IsSound_example =
    plan-IsSound finite is_null incremental 8 (some 8) provider chunks rows (omega arith)

test-batches :
    batches 7 3
    ≡ record { batch_index = 0; chunk_start = 0; chunk_end = 3 }
      ∷ record { batch_index = 1; chunk_start = 3; chunk_end = 6 }
      ∷ record { batch_index = 2; chunk_start = 6; chunk_end = 7 }
      ∷ []
unfolding batches batches_from
test-batches = refl
