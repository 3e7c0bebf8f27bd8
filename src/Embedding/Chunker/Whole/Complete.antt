-- ===== src/Embedding/Chunker/Whole/Complete.antt =====
-- The chunks of a whole text.
use mathlib.Core.List.{append-nil}
use docsmint.Prelude.{
  ℕ, ◌+◌, ◌<◌, ◌≡◌, refl, ap, sym, ◌∙◌, Bool, true, false, not, some, List, [], ◌∷◌, ◌++◌, map,
  length, All, keep-append,
}
use docsmint.Embedding.Chunker.{SourceUnit, Chunk, is_blank, split_all, chunk_paragraphs}
use docsmint.Embedding.Chunker.Split.{letters, letters-blank, texts, split_all-letters}
use docsmint.Embedding.Chunker.Merge.{IsShort, chunk_paragraphs-IsShort}
use docsmint.Embedding.Chunker.Covers.{IsHeld, empty-is_blank, chunk_paragraphs-IsHeld}
use docsmint.Embedding.Chunker.Units.{source_units}
use docsmint.Embedding.Chunker.Units.Rejoin.{joined, Laid, source_units-Rejoin}
use docsmint.Embedding.Chunker.Sanitize.Urls.{Sanitizes, sanitize_embedding_text-Sanitizes}
use docsmint.Embedding.Chunker.Whole.{with_hash, chunk_sanitized, chunk_text}

module _ (is_space : ℕ → Bool) (target : ℕ) where
  -- The units of a text.
  abbrev pub units_of : List ℕ → List SourceUnit
  units_of text = split_all is_space target (source_units is_space text)

  letters-append :
      (a b : List ℕ)
      → letters is_space target (a ++ b) ≡ letters is_space target a ++ letters is_space target b
  letters-append = keep-append (λ c. not (is_space c))

  joined-letters :
      (offset : ℕ) (us : List SourceUnit)
      → Laid is_space offset us
      → letters is_space target (joined us) ≡ letters is_space target (texts is_space target us)
  joined-letters offset [] h = refl
  joined-letters offset (u ∷ us) (e, s, f, laid) =
      letters-append u.separator_before (u.text ++ joined us)
      ∙ ap (λ l. l ++ letters is_space target (u.text ++ joined us))
          (letters-blank is_space target u.separator_before s)
      ∙ letters-append u.text (joined us)
      ∙ ap (λ l. letters is_space target u.text ++ l)
          (joined-letters (u.char_start + length u.text) us laid)
      ∙ sym (letters-append u.text (texts is_space target us))

  Laid-filled :
      (offset : ℕ) (us : List SourceUnit)
      → Laid is_space offset us
      → All (λ u. is_blank is_space u.text ≡ false) us
  Laid-filled offset [] h = tt
  Laid-filled offset (u ∷ us) (e, s, f, laid) =
      (f, Laid-filled (u.char_start + length u.text) us laid)

  source_units-letters :
      is_space 10 ≡ true
      → (source : List ℕ)
      → letters is_space target source
        ≡ letters is_space target (texts is_space target (source_units is_space source))
  source_units-letters w source =
      let (lead, trail, hl, ht, e, laid) = source_units-Rejoin is_space w source in
      let us = source_units is_space source in
      ap (letters is_space target) e
      ∙ letters-append lead (joined us ++ trail)
      ∙ ap (λ l. l ++ letters is_space target (joined us ++ trail))
          (letters-blank is_space target lead hl)
      ∙ letters-append (joined us) trail
      ∙ ap (λ l. letters is_space target (joined us) ++ l) (letters-blank is_space target trail ht)
      ∙ append-nil (letters is_space target (joined us))
      ∙ joined-letters (length lead) us laid

  units_of-letters :
      is_space 10 ≡ true
      → 0 < target
      → (source : List ℕ)
      → letters is_space target (texts is_space target (units_of source))
        ≡ letters is_space target source
  units_of-letters w pos source =
      split_all-letters is_space target (source_units is_space source) pos
      ∙ sym (source_units-letters w source)

  -- What the chunks of a sanitized text hold.
  abbrev pub IsComplete : ℕ → List ℕ → List Chunk → Type 0
  IsComplete overlap output chunks =
      (letters is_space target (texts is_space target (units_of output))
        ≡ letters is_space target output)
      × All (λ u. IsHeld u.text chunks) (units_of output)
      × All (IsShort target overlap output) chunks

  -- If the target size is positive, the newline is white space and the text is not blank, chunkText
  -- returns chunks of its sanitized form, each with the hash of its text: they have at most the target
  -- size, and hold every unit; the units have what is not white space, in its order and once.
  pub chunk_text-IsComplete :
      (H : Type 0) (chunk_hash : List ℕ → H) (overlap : ℕ)
      → is_space 10 ≡ true
      → 0 < target
      → (text : List ℕ) → is_blank is_space text ≡ false
      → (output : List ℕ) × (chunks : List Chunk) × Sanitizes text output
        × (chunk_text H chunk_hash is_space target overlap text
            ≡ some (map (with_hash H chunk_hash) chunks))
        × IsComplete overlap output chunks
  unfolding chunk_text chunk_sanitized
  chunk_text-IsComplete H chunk_hash overlap w pos text h =
      let (output, done, s) = sanitize_embedding_text-Sanitizes text in
      let (lead, trail, hl, ht, e, laid) = source_units-Rejoin is_space w output in
      (
        output,
        chunk_paragraphs target overlap output is_space (source_units is_space output),
        s,
        rw (empty-is_blank is_space text h) (rw h (rw done refl)),
        (
          units_of-letters w pos output,
          chunk_paragraphs-IsHeld is_space target overlap output (source_units is_space output)
              (Laid-filled (length lead) (source_units is_space output) laid),
          chunk_paragraphs-IsShort target overlap output is_space (source_units is_space output)
              pos,
        ),
      )
