-- ===== src/Embedding/Chunker/Whole.antt =====
-- `chunkText`: a text is sanitized and cut into paragraphs, and their units are merged into chunks.
-- The hash of lib/chunk-hash.ts is SHA-256, a parameter.
pub mod Complete
use mathlib.Core.Option
use docsmint.Prelude.{ℕ, Bool, true, ◌||◌, Option, none, some, List, [], ◌∷◌, map, if◌then◌else◌}
use docsmint.Embedding.Chunker.{Chunk, is_blank, is_empty, chunk_paragraphs}
use docsmint.Embedding.Chunker.Units.{source_units}
use docsmint.Embedding.Chunker.Sanitize.{sanitize_embedding_text}

-- `ChunkResult`
pub record ChunkResult (H : Type 0) : Type 0 where
  pub text : List ℕ
  pub hash : H
  pub char_start : ℕ
  pub char_end : ℕ

module _ (H : Type 0) (chunk_hash : List ℕ → H) where
  abbrev pub with_hash : Chunk → ChunkResult H
  with_hash c = record {
    text = c.text;
    hash = chunk_hash c.text;
    char_start = c.char_start;
    char_end = c.char_end;
  }

  module _ (is_space : ℕ → Bool) (target overlap : ℕ) where
    -- What is done with the sanitized text.
    unfoldable pub chunk_sanitized : List ℕ → List (ChunkResult H)
    chunk_sanitized semantic_text = map with_hash (
        chunk_paragraphs target overlap semantic_text is_space
          (source_units is_space semantic_text))

    unfoldable pub chunk_text : List ℕ → Option (List (ChunkResult H))
    chunk_text text =
        if is_empty text || is_blank is_space text
        then some []
        else Option.map chunk_sanitized (sanitize_embedding_text text)
