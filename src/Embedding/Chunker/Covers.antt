-- ===== src/Embedding/Chunker/Covers.antt =====
-- The merge of units into chunks loses no unit.
use mathlib.Core.List.{append-nil, append_assoc}
use docsmint.Prelude.{
  ℕ, ◌≡◌, ◌⊎◌, inl, inr, refl, ap, sym, ◌∙◌, Bool, true, false, not, ◌&&◌, List, [], ◌∷◌, ◌++◌,
  if◌then◌else◌, ltb, leb, length, All, all-append, All-append, Bool-cases, arith,
}
use docsmint.Embedding.Chunker.{
  SourceUnit, Chunk, slice, is_blank, part_at, scan, split_oversized, split_all, is_empty,
  prefix_of, candidate, joins, join_chunk, overlapped, overlap_start, begin_chunk, next_chunk,
  merge, no_chunk, chunk_paragraphs,
}

-- The text `t` stands in `whole`.
abbrev pub IsInside : List ℕ → List ℕ → Type 0
IsInside t whole = (before after : List ℕ) × (whole ≡ before ++ t ++ after)

-- The text `t` stands in one of the chunks.
abbrev pub IsHeld : List ℕ → List Chunk → Type 0
IsHeld t [] = ⊥
IsHeld t (c ∷ cs) = IsInside t c.text ⊎ IsHeld t cs

IsHeld-append : (t : List ℕ) (xs ys : List Chunk) → IsHeld t ys → IsHeld t (xs ++ ys)
IsHeld-append t [] ys h = h
IsHeld-append t (x ∷ xs) ys h = inr (IsHeld-append t xs ys h)

end-IsInside : (before t : List ℕ) → IsInside t (before ++ t)
end-IsInside before t = (before, [], sym (append-nil (before ++ t)))

more-IsInside : (t whole rest : List ℕ) → IsInside t whole → IsInside t (whole ++ rest)
more-IsInside t whole rest (before, after, e) =
    (before, after ++ rest, ap (λ w. w ++ rest) e ∙ append_assoc (before ++ t) after rest)

module _ (is_space : ℕ → Bool) where
  blank-IsInside :
      (t whole : List ℕ)
      → IsInside t whole
      → is_blank is_space t ≡ false
      → is_blank is_space whole ≡ false
  blank-IsInside t whole (before, after, e) h =
      rw e (ground (arith, all-append is_space (before ++ t) after, all-append is_space before t))

  pub empty-is_blank : (t : List ℕ) → is_blank is_space t ≡ false → is_empty t ≡ false
  empty-is_blank [] h = absurd (ground arith)
  empty-is_blank (c ∷ cs) h = refl

  module _ (target overlap : ℕ) (source : List ℕ) where
    candidate-IsInside : (c : Chunk) (u : SourceUnit) → IsInside u.text (candidate c u)
    candidate-IsInside c u = elim (Bool-cases (is_empty c.text)) [
      | inl first ↦ simp first (end-IsInside [] u.text)
      | inr later ↦ simp later (end-IsInside (c.text ++ u.separator_before) u.text)
    ]

    begin_chunk-IsInside :
        (c : Chunk) (u : SourceUnit) → IsInside u.text (begin_chunk target overlap source c u).text
    unfolding begin_chunk
    begin_chunk-IsInside c u =
        elim (Bool-cases (
          (ltb 0 overlap && not (is_empty c.text))
          && leb (length (overlapped target overlap source c u)) target)) [
            | inl room ↦ simp room (
                end-IsInside
                  (slice (overlap_start target overlap source c) c.char_end source ++ prefix_of c u)
                  u.text)
            | inr none_left ↦ simp none_left (end-IsInside [] u.text)
          ]

    next_chunk-IsInside :
        (c : Chunk) (u : SourceUnit) → IsInside u.text (next_chunk target overlap source c u).text
    unfolding join_chunk
    next_chunk-IsInside c u = elim (Bool-cases (joins target c u)) [
      | inl joined ↦ simp joined (candidate-IsInside c u)
      | inr parted ↦ simp parted (begin_chunk-IsInside c u)
    ]

    -- A text of the current chunk that is not blank ends up in a chunk.
    merge-current :
        (t : List ℕ) (c : Chunk) (us : List SourceUnit)
        → is_blank is_space t ≡ false
        → IsInside t c.text
        → IsHeld t (merge target overlap source is_space c us)
    unfolding merge
    merge-current t c [] h i = simp (blank-IsInside t c.text i h) (inl i)
    merge-current t c (u ∷ us) h i =
        let filled = empty-is_blank c.text (blank-IsInside t c.text i h) in
        elim (Bool-cases (joins target c u)) [
          | inl joined ↦ simp joined (
              merge-current t (join_chunk c u) us h (
                unfold join_chunk in
                simp filled (
                  more-IsInside t (c.text ++ u.separator_before) u.text
                    (more-IsInside t c.text u.separator_before i))))
          | inr parted ↦ simp parted (simp filled (inl i))
        ]

    merge-IsHeld :
        (c : Chunk) (us : List SourceUnit)
        → All (λ u. is_blank is_space u.text ≡ false) us
        → All (λ u. IsHeld u.text (merge target overlap source is_space c us)) us
    unfolding merge
    merge-IsHeld c [] a = tt
    merge-IsHeld c (u ∷ us) (h, a) = (
      IsHeld-append u.text _ _ (
          merge-current u.text (next_chunk target overlap source c u) us h
            (next_chunk-IsInside c u)),
      weaken us (merge-IsHeld (next_chunk target overlap source c u) us a),
    )
      where
        weaken :
            (vs : List SourceUnit)
            → All
                (λ v.
                  IsHeld v.text (
                    merge target overlap source is_space (next_chunk target overlap source c u) us))
                vs
            → All (λ v. IsHeld v.text (merge target overlap source is_space c (u ∷ us))) vs
        weaken [] k = tt
        weaken (v ∷ vs) (k, ks) = (IsHeld-append v.text _ _ k, weaken vs ks)

    abbrev IsFilled : SourceUnit → Type 0
    IsFilled u = is_blank is_space u.text ≡ false

    part_at-IsFilled :
        (n : ℕ) (separator text : List ℕ) → All IsFilled (part_at is_space n separator text)
    unfolding part_at
    part_at-IsFilled n separator text = elim (Bool-cases (is_blank is_space text)) [
      | inl blank ↦ simp blank tt
      | inr filled ↦ simp filled (refl, tt)
    ]

    full_part-IsFilled :
        (b : Bool) (n : ℕ) (separator text : List ℕ)
        → All IsFilled (if b then part_at is_space n separator text else [])
    full_part-IsFilled true n separator text = part_at-IsFilled n separator text
    full_part-IsFilled false n separator text = tt

    scan-IsFilled :
        (p : SourceUnit) (rest : List ℕ) (cursor start last : ℕ) (separator : List ℕ)
        → All IsFilled (scan is_space target p rest cursor start last separator)
    unfolding scan
    scan-IsFilled p [] cursor start last separator = part_at-IsFilled _ _ _
    scan-IsFilled p (c ∷ rest) cursor start last separator =
        All-append IsFilled _ _ (full_part-IsFilled _ _ _ _) (scan-IsFilled p rest _ _ _ _)

    split_all-IsFilled :
        (ps : List SourceUnit) → All IsFilled ps → All IsFilled (split_all is_space target ps)
    unfolding split_all split_oversized
    split_all-IsFilled [] a = tt
    split_all-IsFilled (p ∷ ps) (h, a) = elim (Bool-cases (leb (length p.text) target)) [
      | inl small ↦ simp small (h, split_all-IsFilled ps a)
      | inr big ↦ simp big (
          All-append IsFilled _ _ (scan-IsFilled p p.text 0 0 0 p.separator_before)
            (split_all-IsFilled ps a))
    ]

    -- If no paragraph is blank, every unit that the split makes of them stands in a chunk.
    pub chunk_paragraphs-IsHeld :
        (ps : List SourceUnit)
        → All (λ p. is_blank is_space p.text ≡ false) ps
        → All
            (λ u. IsHeld u.text (chunk_paragraphs target overlap source is_space ps))
            (split_all is_space target ps)
    unfolding chunk_paragraphs
    chunk_paragraphs-IsHeld ps a =
        merge-IsHeld no_chunk (split_all is_space target ps) (split_all-IsFilled ps a)
