-- ===== src/Embedding/Chunker/Merge.antt =====
-- The merge of units into chunks: chunks are short.
use docsmint.Prelude.{
  ℕ, ◌≤◌, ◌<◌, ◌≡◌, inl, inr, Bool, true, false, not, ◌&&◌, List, [], ◌∷◌, if◌then◌else◌, ltb, leb,
  length, All, All-append, Bool-cases, arith, and-eq-true, leb→le,
}
use docsmint.Embedding.Chunker.{
  SourceUnit, Chunk, is_blank, split_all, is_empty, candidate, joins, join_chunk, flushed,
  overlapped, begin_chunk, next_chunk, merge, no_chunk, chunk_paragraphs,
}
use docsmint.Embedding.Chunker.Split.{Fits, split_all-Fits}

module _ (target overlap : ℕ) (source : List ℕ) where
  abbrev pub IsShort : Chunk → Type 0
  IsShort c = length c.text ≤ target

  joined-fits :
      (c : Chunk) (u : SourceUnit) → joins target c u ≡ true → length (candidate c u) ≤ target
  joined-fits c u h =
      let (short, _) = and-eq-true (leb (length (candidate c u)) target) _ h in
      leb→le (length (candidate c u)) target short

  begin_chunk-IsShort :
      (c : Chunk) (u : SourceUnit) → Fits target u → IsShort (begin_chunk target overlap source c u)
  unfolding begin_chunk
  begin_chunk-IsShort c u f =
      elim (Bool-cases (
        (ltb 0 overlap && not (is_empty c.text))
        && leb (length (overlapped target overlap source c u)) target)) [
          | inl room ↦
              let (_, short) = and-eq-true (ltb 0 overlap && not (is_empty c.text)) _ room in
              simp room (leb→le (length (overlapped target overlap source c u)) target short)
          | inr none_left ↦ simp none_left f
        ]

  flushed-IsShort : (c : Chunk) (b : Bool) → IsShort c → All IsShort (if b then [] else flushed c)
  flushed-IsShort c true h = tt
  flushed-IsShort c false h = elim (Bool-cases (is_empty c.text)) [
    | inl nothing ↦ simp nothing tt
    | inr something ↦ simp something (h, tt)
  ]

  next_chunk-IsShort :
      (c : Chunk) (u : SourceUnit) → Fits target u → IsShort (next_chunk target overlap source c u)
  unfolding join_chunk begin_chunk
  next_chunk-IsShort c u f = elim (Bool-cases (joins target c u)) [
    | inl joined ↦ simp joined (joined-fits c u joined)
    | inr parted ↦ simp parted (begin_chunk-IsShort c u f)
  ]

  module _ (is_space : ℕ → Bool) where
    merge-IsShort :
        (c : Chunk) (us : List SourceUnit)
        → IsShort c
        → All (Fits target) us
        → All IsShort (merge target overlap source is_space c us)
    unfolding merge
    merge-IsShort c [] h a = elim (Bool-cases (is_blank is_space c.text)) [
      | inl blank ↦ simp blank tt
      | inr filled ↦ simp filled (h, tt)
    ]
    merge-IsShort c (u ∷ us) h (f, a) =
        All-append IsShort _ _ (flushed-IsShort c (joins target c u) h)
          (merge-IsShort (next_chunk target overlap source c u) us (next_chunk-IsShort c u f) a)

    -- If the target size is positive, no chunk is longer than it.
    pub chunk_paragraphs-IsShort :
        (ps : List SourceUnit)
        → 0 < target
        → All IsShort (chunk_paragraphs target overlap source is_space ps)
    unfolding chunk_paragraphs
    chunk_paragraphs-IsShort ps pos =
        merge-IsShort no_chunk (split_all is_space target ps) (omega arith)
          (split_all-Fits is_space target pos ps)
