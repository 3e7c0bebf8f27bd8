-- ===== src/Embedding/Chunker.antt =====
-- backend/src/embedding/chunker.ts from the paragraphs on: oversized paragraphs are split, and the
-- units merged into chunks. A text is the list of its UTF-16 code units; which of them are white
-- space, and the two sizes of the configuration, are parameters.
mod Slices
mod Split
mod Units
mod Sanitize
mod Whole
mod Merge
mod Covers
mod Tests
use docsmint.Prelude.{
  ℕ, zero, suc, ◌+◌, ◌-◌, max, Bool, true, false, ◌&&◌, ◌||◌, not, List, [], ◌∷◌, ◌++◌, ◌==◌,
  if◌then◌else◌, ltb, leb, length, take, drop, all,
}

-- `SourceUnit`
pub record SourceUnit : Type 0 where
  pub text : List ℕ
  pub char_start : ℕ
  pub separator_before : List ℕ

pub record Chunk : Type 0 where
  pub text : List ℕ
  pub char_start : ℕ
  pub char_end : ℕ

-- `text.slice(start, end)` for `start` up to `end`.
abbrev pub slice : ℕ → ℕ → List ℕ → List ℕ
slice start end text = take (end - start) (drop start text)

-- The end of a sentence: `!`, `.` and `?`.
abbrev pub is_stop : ℕ → Bool
is_stop c = c == 33 || c == 46 || c == 63

abbrev pub is_empty : List ℕ → Bool
is_empty [] = true
is_empty (c ∷ cs) = false

module _ (is_space : ℕ → Bool) where
  -- `!text.trim()`
  abbrev pub is_blank : List ℕ → Bool
  is_blank text = all is_space text

  -- The part that is pushed, unless it is blank, and the separator of the next one.
  unfoldable pub part_at : ℕ → List ℕ → List ℕ → List SourceUnit
  part_at char_start separator text =
      if is_blank text
      then []
      else record { text = text; char_start = char_start; separator_before = separator } ∷ []

  abbrev pub separator_after : List ℕ → List ℕ → List ℕ
  separator_after separator text = if is_blank text then separator else []

-- Where a part of an oversized paragraph ends; `seen` is `lastSentenceEnd`, with 0 for -1.
abbrev pub part_end : ℕ → ℕ → ℕ → ℕ
part_end cursor start seen = if ltb start seen then seen else cursor + 1

module _ (is_space : ℕ → Bool) (target : ℕ) where
  -- The loop of `splitOversizedParagraph` and the part after it.
  unfoldable pub scan : SourceUnit → List ℕ → ℕ → ℕ → ℕ → List ℕ → List SourceUnit
  scan p [] cursor start last separator =
      part_at is_space (p.char_start + start) separator (drop start p.text)
  scan p (c ∷ rest) cursor start last separator =
      let seen = if is_stop c then cursor + 1 else last in
      let full = not (ltb (cursor + 1 - start) target) in
      let end = part_end cursor start seen in
      let text = slice start end p.text in
      (if full then part_at is_space (p.char_start + start) separator text else [])
      ++ scan p rest (cursor + 1) (if full then end else start) (if full then 0 else seen)
          (if full then separator_after is_space separator text else separator)

  unfoldable pub split_oversized : SourceUnit → List SourceUnit
  split_oversized p =
      if leb (length p.text) target then p ∷ [] else scan p p.text 0 0 0 p.separator_before

  unfoldable pub split_all : List SourceUnit → List SourceUnit
  split_all [] = []
  split_all (p ∷ ps) = split_oversized p ++ split_all ps

-- A current chunk: `currentChunk`, `currentChunkStart` and `currentChunkEnd`; none is the empty text.
abbrev pub prefix_of : Chunk → SourceUnit → List ℕ
prefix_of c u = if is_empty c.text then [] else u.separator_before

abbrev pub candidate : Chunk → SourceUnit → List ℕ
candidate c u = if is_empty c.text then u.text else c.text ++ prefix_of c u ++ u.text

-- Whether the unit joins the current chunk.
abbrev pub joins : ℕ → Chunk → SourceUnit → Bool
joins target c u =
    leb (length (candidate c u)) target
    && (is_empty c.text || c.char_end + length (prefix_of c u) == u.char_start)

unfoldable pub join_chunk : Chunk → SourceUnit → Chunk
join_chunk c u = record {
  text = candidate c u;
  char_start = if is_empty c.text then u.char_start else c.char_start;
  char_end = u.char_start + length u.text;
}

abbrev pub no_chunk : Chunk
no_chunk = record { text = []; char_start = 0; char_end = 0 }

abbrev pub flushed : Chunk → List Chunk
flushed c = if is_empty c.text then [] else c ∷ []

module _ (target overlap : ℕ) (source : List ℕ) where
  abbrev pub overlap_start : Chunk → ℕ
  overlap_start c = max (c.char_end - overlap) c.char_start

  abbrev pub overlapped : Chunk → SourceUnit → List ℕ
  overlapped c u = slice (overlap_start c) c.char_end source ++ prefix_of c u ++ u.text

  -- The chunk that is begun with the unit.
  unfoldable pub begin_chunk : Chunk → SourceUnit → Chunk
  begin_chunk c u =
      if (ltb 0 overlap && not (is_empty c.text)) && leb (length (overlapped c u)) target
      then record {
        text = overlapped c u;
        char_start = overlap_start c;
        char_end = u.char_start + length u.text;
      }
      else record {
        text = u.text;
        char_start = u.char_start;
        char_end = u.char_start + length u.text;
      }

  abbrev pub next_chunk : Chunk → SourceUnit → Chunk
  next_chunk c u = if joins target c u then join_chunk c u else begin_chunk c u

  module _ (is_space : ℕ → Bool) where
    -- The loop over the units, and the flush after it.
    unfoldable pub merge : Chunk → List SourceUnit → List Chunk
    merge c [] = if is_blank is_space c.text then [] else c ∷ []
    merge c (u ∷ us) = (if joins target c u then [] else flushed c) ++ merge (next_chunk c u) us

    -- `chunkText` from its paragraphs on, without the hashes.
    unfoldable pub chunk_paragraphs : List SourceUnit → List Chunk
    chunk_paragraphs ps = merge no_chunk (split_all is_space target ps)
