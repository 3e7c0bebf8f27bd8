-- ===== src/Embedding/Chunker/Split.antt =====
-- The split of oversized paragraphs: its parts are short, and together they hold the paragraph.
use mathlib.Core.List.{append-nil, append_assoc}
use docsmint.Prelude.{
  ℕ, ◌+◌, ◌-◌, ◌≤◌, ◌<◌, ◌≡◌, inl, inr, refl, ap, sym, ◌∙◌, Bool, true, not, List, [], ◌∷◌, ◌++◌,
  if◌then◌else◌, ltb, leb, length, drop, all, keep, All, All-append, length-drop, keep-append,
  Bool-cases, arith,
}
use docsmint.Embedding.Chunker.Slices.{length-slice, slice-drop}
use docsmint.Embedding.Chunker.{
  SourceUnit, slice, is_stop, is_blank, part_at, part_end, separator_after, scan, split_oversized,
  split_all,
}

-- A unit of at most `target` code units.
abbrev pub Fits : ℕ → SourceUnit → Type 0
Fits target u = length u.text ≤ target

seen_le :
    (c cursor last : ℕ) → last ≤ cursor → (if is_stop c then cursor + 1 else last) ≤ cursor + 1
seen_le c cursor last l = elim (Bool-cases (is_stop c)) [
  | inl stop ↦ simp stop (omega arith)
  | inr other ↦ simp other (omega arith)
]

part_end-bounds :
    (target cursor start seen : ℕ)
    → 0 < target
    → start ≤ cursor
    → cursor - start < target
    → seen ≤ cursor + 1
    → (start < part_end cursor start seen)
      × (part_end cursor start seen ≤ cursor + 1)
      × (part_end cursor start seen - start ≤ target)
      × (cursor + 1 - part_end cursor start seen < target)
part_end-bounds target cursor start seen pos s h l = elim (Bool-cases (ltb start seen)) [
  | inl late ↦ simp late (ground arith, l, omega arith, ground arith)
  | inr early ↦ simp early (omega arith, omega arith, omega arith, omega arith)
]

module _ (is_space : ℕ → Bool) (target : ℕ) where
  part_at-Fits :
      (char_start : ℕ) (separator text : List ℕ)
      → length text ≤ target
      → All (Fits target) (part_at is_space char_start separator text)
  unfolding part_at
  part_at-Fits char_start separator text h = elim (Bool-cases (is_blank is_space text)) [
    | inl blank ↦ simp blank tt
    | inr filled ↦ simp filled (h, tt)
  ]

  scan-Fits :
      (p : SourceUnit) (rest : List ℕ) (cursor start last : ℕ) (separator : List ℕ)
      → 0 < target
      → cursor + length rest ≡ length p.text
      → start ≤ cursor
      → cursor - start < target
      → last ≤ cursor
      → All (Fits target) (scan is_space target p rest cursor start last separator)
  unfolding scan
  scan-Fits p [] cursor start last separator pos len s h l =
      part_at-Fits (p.char_start + start) separator (drop start p.text)
        (omega (arith, length-drop start p.text))
  scan-Fits p (c ∷ rest) cursor start last separator pos len s h l =
      let seen : ℕ = if is_stop c then cursor + 1 else last in
      let early : seen ≤ cursor + 1 = seen_le c cursor last l in
      let end : ℕ = part_end cursor start seen in
      let (_, inside, short, next) = part_end-bounds target cursor start seen pos s h early in
      elim (Bool-cases (ltb (cursor + 1 - start) target)) [
        | inl more ↦ simp more (
            scan-Fits p rest (cursor + 1) start seen separator pos (omega (arith, len))
              (omega arith) (ground arith) early)
        | inr full ↦ simp full (
            All-append (Fits target) _ _
              (part_at-Fits (p.char_start + start) separator (slice start end p.text)
                (omega (arith, length-slice start end p.text, short)))
              (scan-Fits p rest (cursor + 1) end 0 _ pos (omega (arith, len)) inside next
                (omega arith)))
      ]

  pub split_all-Fits :
      0 < target → (ps : List SourceUnit) → All (Fits target) (split_all is_space target ps)
  unfolding split_all split_oversized
  split_all-Fits pos [] = tt
  split_all-Fits pos (p ∷ ps) = elim (Bool-cases (leb (length p.text) target)) [
    | inl small ↦ simp small (ground arith, split_all-Fits pos ps)
    | inr big ↦ simp big (
        All-append (Fits target) _ _
          (scan-Fits p p.text 0 0 0 p.separator_before pos (omega arith) (omega arith) (omega arith)
            (omega arith))
          (split_all-Fits pos ps))
  ]

  -- What is not white space.
  abbrev pub letters : List ℕ → List ℕ
  letters text = keep (λ c. not (is_space c)) text

  abbrev pub texts : List SourceUnit → List ℕ
  texts [] = []
  texts (u ∷ us) = u.text ++ texts us

  pub letters-blank : (text : List ℕ) → all is_space text ≡ true → letters text ≡ []
  letters-blank [] h = refl
  letters-blank (c ∷ cs) h = ground (arith, letters-blank cs)

  part_at-letters :
      (n : ℕ) (separator text : List ℕ)
      → letters (texts (part_at is_space n separator text)) ≡ letters text
  unfolding part_at
  part_at-letters n separator text = elim (Bool-cases (is_blank is_space text)) [
    | inl blank ↦ simp blank (sym (letters-blank text blank))
    | inr filled ↦ simp filled (ap letters (append-nil text))
  ]

  texts-append : (us vs : List SourceUnit) → texts (us ++ vs) ≡ texts us ++ texts vs
  texts-append [] vs = refl
  texts-append (u ∷ us) vs =
      ap (λ l. u.text ++ l) (texts-append us vs) ∙ sym (append_assoc u.text (texts us) (texts vs))

  letters-append :
      (us vs : List SourceUnit)
      → letters (texts (us ++ vs)) ≡ letters (texts us) ++ letters (texts vs)
  letters-append us vs =
      ap letters (texts-append us vs) ∙ keep-append (λ c. not (is_space c)) (texts us) (texts vs)

  letters-parts :
      (us vs : List SourceUnit) (a b whole : List ℕ)
      → letters (texts us) ≡ letters a
      → letters (texts vs) ≡ letters b
      → a ++ b ≡ whole
      → letters (texts (us ++ vs)) ≡ letters whole
  letters-parts us vs a b whole e f g =
      letters-append us vs
      ∙ ap (λ l. l ++ letters (texts vs)) e
      ∙ ap (λ l. letters a ++ l) f
      ∙ sym (keep-append (λ c. not (is_space c)) a b)
      ∙ ap letters g

  scan-letters :
      (p : SourceUnit) (rest : List ℕ) (cursor start last : ℕ) (separator : List ℕ)
      → 0 < target
      → start ≤ cursor
      → cursor - start < target
      → last ≤ cursor
      → letters (texts (scan is_space target p rest cursor start last separator))
        ≡ letters (drop start p.text)
  unfolding scan
  scan-letters p [] cursor start last separator pos s h l = part_at-letters _ _ _
  scan-letters p (c ∷ rest) cursor start last separator pos s h l =
      let seen : ℕ = if is_stop c then cursor + 1 else last in
      let early : seen ≤ cursor + 1 = seen_le c cursor last l in
      let end : ℕ = part_end cursor start seen in
      let (forward, inside, short, next) = part_end-bounds target cursor start seen pos s h early in
      elim (Bool-cases (ltb (cursor + 1 - start) target)) [
        | inl more ↦ simp more (
            scan-letters p rest (cursor + 1) start seen separator pos (omega arith) (ground arith)
              early)
        | inr full ↦ simp full (
            letters-parts
              (part_at is_space (p.char_start + start) separator (slice start end p.text))
              (scan is_space target p rest (cursor + 1) end 0
                (separator_after is_space separator (slice start end p.text)))
              (slice start end p.text) (drop end p.text) (drop start p.text)
              (part_at-letters (p.char_start + start) separator (slice start end p.text))
              (scan-letters p rest (cursor + 1) end 0
                (separator_after is_space separator (slice start end p.text)) pos inside next
                (omega arith))
              (slice-drop start end p.text (omega (arith, forward))))
      ]

  split_oversized-letters :
      (p : SourceUnit)
      → 0 < target
      → letters (texts (split_oversized is_space target p)) ≡ letters p.text
  unfolding split_oversized
  split_oversized-letters p pos = elim (Bool-cases (leb (length p.text) target)) [
    | inl small ↦ simp small (ap letters (append-nil p.text))
    | inr big ↦ simp big (
        scan-letters p p.text 0 0 0 p.separator_before pos (omega arith) (omega arith)
          (omega arith))
  ]

  -- If the target size is positive, the units hold what is not white space in the paragraphs, in its
  -- order, and each of them once.
  pub split_all-letters :
      (ps : List SourceUnit)
      → 0 < target
      → letters (texts (split_all is_space target ps)) ≡ letters (texts ps)
  unfolding split_all
  split_all-letters [] pos = refl
  split_all-letters (p ∷ ps) pos =
      letters-parts (split_oversized is_space target p) (split_all is_space target ps) p.text
        (texts ps) (p.text ++ texts ps) (split_oversized-letters p pos) (split_all-letters ps pos)
        refl
