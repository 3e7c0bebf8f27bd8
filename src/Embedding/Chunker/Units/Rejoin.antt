-- ===== src/Embedding/Chunker/Units/Rejoin.antt =====
-- The paragraphs and the separators before them make up the text.
use mathlib.Core.List.{append-nil, append_assoc}
use docsmint.Prelude.{
  ℕ, zero, suc, ◌+◌, ◌≤◌, ◌≡◌, ◌⊎◌, inl, inr, refl, ap, subst, sym, ◌∙◌, Bool, true, false, List,
  [], ◌∷◌, ◌++◌, ◌==◌, if◌then◌else◌, length, take, drop, all, length-append, all-append,
  Bool-cases, ==_iff, arith,
}
use docsmint.Embedding.Chunker.{SourceUnit, slice, is_blank, part_at}
use docsmint.Embedding.Chunker.Slices.{slice-drop, slice-snoc, length-slice_inside, drop-step}
use docsmint.Embedding.Chunker.Units.{last_newline, match_length, unit_scan, source_units}

-- The units, each behind its separator.
abbrev pub joined : List SourceUnit → List ℕ
joined [] = []
joined (u ∷ us) = u.separator_before ++ (u.text ++ joined us)

module _ (is_space : ℕ → Bool) where
  -- The units stand one behind the other, the first separator at the offset; the separators are
  -- blank, and the texts are not.
  abbrev pub Laid : ℕ → List SourceUnit → Type 0
  Laid offset [] = Unit
  Laid offset (u ∷ us) =
      (u.char_start ≡ offset + length u.separator_before)
      × (is_blank is_space u.separator_before ≡ true)
      × (is_blank is_space u.text ≡ false)
      × Laid (u.char_start + length u.text) us

  -- No newline stands in the white space that the text begins with.
  abbrev clear : List ℕ → Bool
  clear [] = true
  clear (c ∷ cs) = if c == 10 then false else if is_space c then clear cs else true

  -- Where the white space has its last newline.
  abbrev EndsWhite : ℕ → ℕ → List ℕ → Type 0
  EndsWhite n best xs =
      ((last_newline is_space n best xs ≡ best) × (clear xs ≡ true))
      ⊎ ((k : ℕ) × (last_newline is_space n best xs ≡ n + suc k)
          × (all is_space (take (suc k) xs) ≡ true)
          × (clear (drop (suc k) xs) ≡ true)
          × (suc k ≤ length xs))

  last_newline-EndsWhite : is_space 10 ≡ true → (n best : ℕ) (xs : List ℕ) → EndsWhite n best xs
  unfolding last_newline
  last_newline-EndsWhite w n best [] = inl (refl, refl)
  last_newline-EndsWhite w n best (c ∷ cs) = elim (Bool-cases (c == 10)) [
    | inl newline ↦
        let same : c ≡ 10 = (==_iff c 10).0 newline in
        let blank : is_space c ≡ true = rw same w in
        elim (last_newline-EndsWhite w (n + 1) (n + 1) cs) [
          | inl (e, k) ↦ inr (0, simp newline (e ∙ omega arith), simp blank refl, k, omega arith)
          | inr (j, e, a, k, l) ↦
              inr (suc j, simp newline (e ∙ omega arith), simp blank a, k, omega (arith, l))
        ]
    | inr other ↦ elim (Bool-cases (is_space c)) [
      | inl blank ↦ elim (last_newline-EndsWhite w (n + 1) best cs) [
        | inl (e, k) ↦ inl (simp other (simp blank e), simp other (simp blank k))
        | inr (j, e, a, k, l) ↦
            inr
              (suc j, simp other (simp blank (e ∙ omega arith)), simp blank a, k, omega (arith, l))
      ]
      | inr filled ↦ inl (simp other (simp filled refl), simp other (simp filled refl))
    ]
  ]

  -- The white space of a match, and what follows it.
  abbrev Splits : List ℕ → Type 0
  Splits xs =
      (match_length is_space xs ≡ 0)
      ⊎ ((m : ℕ) × (match_length is_space xs ≡ suc m)
          × (all is_space (take (suc m) xs) ≡ true)
          × (clear (drop (suc m) xs) ≡ true)
          × (suc m ≤ length xs)
          × (clear xs ≡ false))

  match_length-Splits : is_space 10 ≡ true → (xs : List ℕ) → Splits xs
  match_length-Splits w [] = inl refl
  match_length-Splits w (c ∷ cs) = elim (Bool-cases (c == 10)) [
    | inl newline ↦
        let same : c ≡ 10 = (==_iff c 10).0 newline in
        let blank : is_space c ≡ true = rw same w in
        elim (last_newline-EndsWhite w 1 0 cs) [
          | inl (e, k) ↦ inl (simp newline e)
          | inr (j, e, a, k, l) ↦ inr (
            suc j,
            simp newline (e ∙ omega arith),
            simp blank a,
            k,
            omega (arith, l),
            simp newline refl,
          )
        ]
    | inr other ↦ inl (simp other refl)
  ]

  -- What was passed since the cursor has a letter, or no separator can begin before one.
  abbrev Apart : List ℕ → ℕ → ℕ → List ℕ → Type 0
  Apart source cursor index rest =
      (is_blank is_space (slice cursor index source) ≡ false) ⊎ (clear rest ≡ true)

  Apart-step :
      (source : List ℕ) (cursor index c : ℕ) (rest : List ℕ)
      → cursor ≤ index
      → drop index source ≡ c ∷ rest
      → Apart source cursor index (c ∷ rest)
      → Apart source cursor (index + 1) rest
  Apart-step source cursor index c rest l e (inl filled) = inl (
      rw (slice-snoc cursor index source c rest l e)
        (ground (arith, all-append is_space (slice cursor index source) (c ∷ []))))
  Apart-step source cursor index c rest l e (inr k) = elim (Bool-cases (is_space c)) [
    | inl blank ↦ inr (ground arith)
    | inr filled ↦ inl (
        rw (slice-snoc cursor index source c rest l e)
          (ground (arith, all-append is_space (slice cursor index source) (c ∷ []))))
  ]

  -- The units and two blank ends make up the text, the first one empty if `b` says so.
  abbrev Made : Bool → ℕ → List ℕ → List SourceUnit → Type 0
  Made b offset whole us =
      (lead trail : List ℕ) × (is_blank is_space lead ≡ true)
      × (is_blank is_space trail ≡ true)
      × (whole ≡ lead ++ (joined us ++ trail))
      × Laid (offset + length lead) us
      × (b ≡ true → lead ≡ [])

  -- The part before a match, in front of what the match and the text after it make.
  part_at-Made :
      (b : Bool) (offset cursor index : ℕ) (separator part rest whole : List ℕ)
      (us : List SourceUnit)
      → part ++ rest ≡ whole
      → is_blank is_space separator ≡ true
      → offset + length separator ≡ cursor
      → cursor + length part ≡ index
      → (b ≡ true → is_blank is_space part ≡ false)
      → Made true index rest us
      → Made b offset (separator ++ whole) (part_at is_space cursor separator part ++ us)
  unfolding part_at
  part_at-Made b offset cursor index separator part rest whole us q s o l g
        (lead, trail, hl, ht, e, laid, k) =
      let e2 : rest ≡ joined us ++ trail = e ∙ ap (λ w. w ++ (joined us ++ trail)) (k refl) in
      let laid2 : Laid index us =
        subst (λ n. Laid n us) (ap (λ w. index + length w) (k refl) ∙ omega arith) laid in
      elim (Bool-cases (is_blank is_space part)) [
        | inl blank ↦ simp blank (
          separator ++ part,
          trail,
          ground (arith, all-append is_space separator part),
          ht,
          ap (λ w. separator ++ w) (sym q)
              ∙ ap (λ w. separator ++ (part ++ w)) e2
              ∙ sym (append_assoc separator part (joined us ++ trail)),
          subst (λ n. Laid n us) (omega (arith, o, l, length-append separator part)) laid2,
          λ h. absurd (ground (arith, g h)),
        )
        | inr filled ↦ simp filled (
          [],
          trail,
          refl,
          ht,
          ap (λ w. separator ++ w) (sym q)
              ∙ ap (λ w. separator ++ (part ++ w)) e2
              ∙ ap (λ w. separator ++ w) (sym (append_assoc part (joined us) trail))
              ∙ sym (append_assoc separator (part ++ joined us) trail),
          (omega (arith, o), s, refl, subst (λ n. Laid n us) (omega (arith, l)) laid2),
          λ h. refl,
        )
      ]

  last_part-Made :
      (b : Bool) (offset cursor : ℕ) (separator part : List ℕ)
      → is_blank is_space separator ≡ true
      → offset + length separator ≡ cursor
      → Made b offset (separator ++ part) (part_at is_space cursor separator part)
  unfolding part_at
  last_part-Made b offset cursor separator part s o = elim (Bool-cases (is_blank is_space part)) [
    | inl blank ↦ simp blank (
      [],
      separator ++ part,
      refl,
      ground (arith, all-append is_space separator part),
      refl,
      tt,
      λ h. refl,
    )
    | inr filled ↦ simp filled (
      [],
      [],
      refl,
      refl,
      ap (λ w. separator ++ w) (sym (append-nil part))
          ∙ sym (append-nil (separator ++ (part ++ []))),
      (omega (arith, o), s, refl, tt),
      λ h. refl,
    )
  ]

  match-blank :
      (source rest : List ℕ) (index m : ℕ)
      → drop index source ≡ rest
      → all is_space (take m rest) ≡ true
      → is_blank is_space (slice index (index + m) source) ≡ true
  match-blank source rest index m e a =
      ap (λ n. all is_space (take n (drop index source))) (omega arith)
      ∙ ap (λ l. all is_space (take m l)) e
      ∙ a

  -- Where a match begins, a letter was passed since the cursor.
  Apart-match :
      (source : List ℕ) (cursor index : ℕ) (rest : List ℕ)
      → clear rest ≡ false
      → Apart source cursor index rest
      → is_blank is_space (slice cursor index source) ≡ false
  Apart-match source cursor index rest h (inl filled) = filled
  Apart-match source cursor index rest h (inr k) = absurd (ground arith)

  scan-Made :
      (w : is_space 10 ≡ true) (b : Bool) (source rest : List ℕ) (skip index cursor offset : ℕ)
      (separator : List ℕ)
      → drop index source ≡ rest
      → index + length rest ≡ length source
      → skip ≤ length rest
      → cursor ≤ index + skip
      → offset + length separator ≡ cursor
      → is_blank is_space separator ≡ true
      → (b ≡ true → Apart source cursor (index + skip) (drop skip rest))
      → Made b offset
          (separator ++ drop cursor source)
          (unit_scan is_space source rest skip index cursor separator)
  unfolding unit_scan
  scan-Made w b source [] skip index cursor offset separator e len inside l o s g =
      last_part-Made b offset cursor separator (drop cursor source) s o
  scan-Made w b source (c ∷ rest) (suc skip) index cursor offset separator e len inside l o s g =
      scan-Made w b source rest skip (index + 1) cursor offset separator
        (drop-step index source c rest e) (omega (arith, len)) (omega (arith, inside))
        (omega (arith, l)) o s
        (λ h. subst (λ n. Apart source cursor n (drop skip rest)) (omega arith) (g h))
  scan-Made w b source (c ∷ rest) zero index cursor offset separator e len inside l o s g =
      elim (match_length-Splits w (c ∷ rest)) [
        | inl none_here ↦ rw none_here (
            scan-Made w b source rest 0 (index + 1) cursor offset separator
              (drop-step index source c rest e) (omega (arith, len)) (omega arith)
              (omega (arith, l)) o s
              (λ h.
                subst (λ n. Apart source cursor n rest) (omega arith)
                  (Apart-step source cursor index c rest (omega (arith, l)) e
                    (subst (λ n. Apart source cursor n (c ∷ rest)) (omega arith) (g h)))))
        | inr (m, found, blank, apart, short, unclear) ↦ rw found (
            part_at-Made b offset cursor index separator (slice cursor index source)
              (drop index source) (drop cursor source) _
              (slice-drop cursor index source (omega (arith, l))) s o
              (omega (
                arith,
                l,
                len,
                length-slice_inside cursor index source (omega (arith, l)) (omega (arith, len)),
              ))
              (λ h.
                Apart-match source cursor index (c ∷ rest) unclear
                  (subst (λ n. Apart source cursor n (c ∷ rest)) (omega arith) (g h)))
              (subst
                (λ whole. Made true index whole (
                  unit_scan is_space source rest m (index + 1) (index + suc m)
                    (slice index (index + suc m) source)))
                (slice-drop index (index + suc m) source (omega arith))
                (scan-Made w true source rest m (index + 1) (index + suc m) index
                  (slice index (index + suc m) source) (drop-step index source c rest e)
                  (omega (arith, len)) (omega (arith, short)) (omega arith)
                  (omega (
                    arith,
                    len,
                    short,
                    length-slice_inside index (index + suc m) source (omega arith)
                        (omega (arith, len, short)),
                  ))
                  (match-blank source (c ∷ rest) index (suc m) e blank) (λ h. inr apart))))
      ]

  -- If the newline is white space, the paragraphs, each behind its separator and from its own index
  -- on, make up the text but for a blank text before them and another after them; no paragraph is
  -- blank, and every separator is.
  pub source_units-Rejoin :
      is_space 10 ≡ true
      → (source : List ℕ)
      → (lead trail : List ℕ) × (is_blank is_space lead ≡ true)
        × (is_blank is_space trail ≡ true)
        × (source ≡ lead ++ (joined (source_units is_space source) ++ trail))
        × Laid (length lead) (source_units is_space source)
  unfolding source_units
  source_units-Rejoin w source =
      let (lead, trail, hl, ht, e, laid, k) =
        scan-Made w false source source 0 0 0 0 [] refl (omega arith) (omega arith) (omega arith)
          (omega arith) refl (λ h. absurd (ground arith)) in
      (
        lead,
        trail,
        hl,
        ht,
        e,
        subst (λ n. Laid n (source_units is_space source)) (omega arith) laid,
      )
