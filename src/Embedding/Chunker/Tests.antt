-- ===== src/Embedding/Chunker/Tests.antt =====
-- A text with a data URL, a blank line and an oversized paragraph, cut into chunks of four.
use mathlib.Core.Option
use docsmint.Prelude.{
  starts_with, ℕ, ◌≡◌, refl, Bool, true, ◌||◌, some, List, [], ◌∷◌, ◌++◌, ◌==◌, length, map, arith,
}
use docsmint.Embedding.Chunker.{
  SourceUnit, Chunk, is_blank, part_at, scan, split_oversized, split_all, merge, begin_chunk,
  join_chunk, chunk_paragraphs,
}
use docsmint.Embedding.Chunker.Units.{last_newline, unit_scan, source_units}
use docsmint.Embedding.Chunker.Units.Rejoin.{joined, Laid, source_units-Rejoin}
use docsmint.Embedding.Chunker.Sanitize.{
  index_of_data, comma_in, valid_header, after_payload, sanitize, sanitize_embedding_text,
}
use docsmint.Embedding.Chunker.Sanitize.Urls.{Sanitizes, sanitize_embedding_text-Sanitizes}
use docsmint.Embedding.Chunker.Whole.{with_hash, chunk_text}
use docsmint.Embedding.Chunker.Whole.Complete.{IsComplete, chunk_text-IsComplete}

abbrev is_space : ℕ → Bool
is_space c = c == 32 || c == 10

-- "abc.    xyz"
abbrev source : List ℕ
source = 97 ∷ 98 ∷ 99 ∷ 46 ∷ 32 ∷ 32 ∷ 32 ∷ 32 ∷ 120 ∷ 121 ∷ 122 ∷ []

abbrev paragraphs : List SourceUnit
paragraphs = record { text = source; char_start = 0; separator_before = [] } ∷ []

-- The second chunk is ".xyz", but its offsets delimit ".    xyz".
test-chunks :
    chunk_paragraphs 4 1 source is_space paragraphs
    ≡ record { text = 97 ∷ 98 ∷ 99 ∷ 46 ∷ []; char_start = 0; char_end = 4 }
      ∷ record { text = 46 ∷ 120 ∷ 121 ∷ 122 ∷ []; char_start = 3; char_end = 11 }
      ∷ []
unfolding chunk_paragraphs split_all split_oversized scan part_at merge begin_chunk join_chunk
test-chunks = refl

-- "\n\na\n \nb\n"
abbrev two_lines : List ℕ
two_lines = 10 ∷ 10 ∷ 97 ∷ 10 ∷ 32 ∷ 10 ∷ 98 ∷ 10 ∷ []

test-units :
    source_units is_space two_lines
    ≡ record { text = 97 ∷ []; char_start = 2; separator_before = 10 ∷ 10 ∷ [] }
      ∷ record { text = 98 ∷ 10 ∷ []; char_start = 6; separator_before = 10 ∷ 32 ∷ 10 ∷ [] }
      ∷ []
unfolding source_units unit_scan last_newline part_at
test-units = refl

-- "(data:a,bc) data: x"
abbrev two_urls : List ℕ
two_urls =
    40 ∷ 100 ∷ 97 ∷ 116 ∷ 97 ∷ 58 ∷ 97 ∷ 44 ∷ 98 ∷ 99 ∷ 41 ∷ 32 ∷ 100 ∷ 97 ∷ 116 ∷ 97 ∷ 58 ∷ 32
    ∷ 120 ∷ []

-- "([inline binary asset omitted]) data: x"
test-sanitize : Option.map length (sanitize_embedding_text two_urls) ≡ some 39
unfolding sanitize_embedding_text sanitize index_of_data starts_with comma_in valid_header
    after_payload
test-sanitize = refl

source_units-Rejoin_example :
    (lead trail : List ℕ) × (is_blank is_space lead ≡ true)
    × (is_blank is_space trail ≡ true)
    × (two_lines ≡ lead ++ (joined (source_units is_space two_lines) ++ trail))
    × Laid is_space (length lead) (source_units is_space two_lines)
source_units-Rejoin_example = source_units-Rejoin is_space refl two_lines

sanitize_embedding_text-Sanitizes_example :
    (output : List ℕ) × (sanitize_embedding_text two_urls ≡ some output) × Sanitizes two_urls output
sanitize_embedding_text-Sanitizes_example = sanitize_embedding_text-Sanitizes two_urls

chunk_text-IsComplete_example :
    (output : List ℕ) × (chunks : List Chunk) × Sanitizes two_urls output
    × (chunk_text ℕ length is_space 4 1 two_urls ≡ some (map (with_hash ℕ length) chunks))
    × IsComplete is_space 4 1 output chunks
chunk_text-IsComplete_example =
    chunk_text-IsComplete is_space 4 ℕ length 1 refl (omega arith) two_urls refl
