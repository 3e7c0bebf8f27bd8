-- ===== src/Search/Confidence/Evidence.antt =====
-- The evidence that makes the fast pass confident.
use docsmint.Prelude.{
  ℕ, ◌≤◌, ◌≡◌, ◌↔◌, refl, inl, inr, ◌⊎◌, ◌||◌, ◌&&◌, Bool-cases, Bool, true, false, not, Option,
  none, some, List, [], ◌∷◌, ◌++◌, length, any, leb, arith,
}
use docsmint.Search.{Channel, same_channel, Scoring, Candidate}
use docsmint.Search.Confidence.{
  Reason, is_lexical, agreements, minimum_agreement, reason_if, best_vector, is_low, higher,
  with_score, evaluate_confidence,
}
use docsmint.Search.Confidence.Agreements.{direct_channels, agreements_iff}

module _ (F : Scoring) where
  -- The numbers that are scores: smaller is transitive, and each score is above or below a gap.
  pub record IsOrdered : Type 0 where
    pub trans : (r s t : F.Score) → F.below r s ≡ true → F.below s t ≡ true → F.below r t ≡ true
    pub compares :
        (r s t : F.Score) → F.below r t ≡ true → (F.below r s ≡ true) ⊎ (F.below s t ≡ true)

  -- A candidate of the vector channel whose score is a number not below the threshold.
  abbrev reaches : Option F.Score → Bool
  reaches none = false
  reaches (some s) = not (F.below s F.vector_minimum)

  abbrev pub is_similar : Candidate F.Score → Bool
  is_similar c = same_channel c.channel Channel.vector && reaches c.raw_score

  -- Enough evidence: a lexical match, a document that so many direct channels found, a vector score that
  -- is not low, and no mismatch of the languages.
  abbrev pub HasEvidence : Option ℕ → Bool → List (Candidate F.Score) → Type 0
  HasEvidence agreement mismatch cs =
      (any (λ x. is_lexical x.channel) cs ≡ true)
      × ((d : ℕ) × (minimum_agreement agreement ≤ direct_channels d cs))
      × (any is_similar cs ≡ true)
      × (mismatch ≡ false)

  minimum_pos : (o : Option ℕ) → 1 ≤ minimum_agreement o
  minimum_pos none = omega arith
  minimum_pos (some n) = omega arith

  -- The reasons are none exactly if all four tests pass.
  no_reasons :
      (a b c d : Bool) (r s t u : Reason)
      → ((reason_if a r ++ (reason_if b s ++ (reason_if c t ++ reason_if d u))) ≡ [])
        ↔ ((a ≡ false) × (b ≡ false) × (c ≡ false) × (d ≡ false))
  no_reasons true b c d r s t u = (λ h. absurd (ground arith), λ h. absurd (ground arith))
  no_reasons false true c d r s t u = (λ h. absurd (ground arith), λ h. absurd (ground arith))
  no_reasons false false true d r s t u = (λ h. absurd (ground arith), λ h. absurd (ground arith))
  no_reasons false false false true r s t u =
      (λ h. absurd (ground arith), λ h. absurd (ground arith))
  no_reasons false false false false r s t u = (λ h. (refl, refl, refl, refl), λ h. refl)

  module _ (o : IsOrdered) where
    -- The better of two scores is low exactly if both are.
    is_low-higher :
        (s : F.Score) (best : Option F.Score)
        → not (is_low F (higher F s best)) ≡ reaches (some s) || not (is_low F best)
    is_low-higher s none = elim (Bool-cases (F.below s F.vector_minimum)) [
      | inl e ↦ rw e refl
      | inr e ↦ rw e refl
    ]
    is_low-higher s (some t) = elim (Bool-cases (F.below t s)) [
      | inl e ↦ rw e (elim (Bool-cases (F.below s F.vector_minimum)) [
        | inl low ↦ rw (low, o.trans t s F.vector_minimum e low) refl
        | inr high ↦ rw high refl
      ])
      | inr e ↦ rw e (elim (Bool-cases (F.below t F.vector_minimum)) [
        | inl low ↦ elim (o.compares t s F.vector_minimum low) [
          | inl below ↦ absurd (ground (arith, e, below))
          | inr below ↦ rw (low, below) refl
        ]
        | inr high ↦ elim (Bool-cases (F.below s F.vector_minimum)) [
          | inl low ↦ rw (high, low) refl
          | inr good ↦ rw (high, good) refl
        ]
      ])
    ]

    is_low-with_score :
        (vector : Bool) (score best : Option F.Score)
        → not (is_low F (with_score F vector score best))
          ≡ (vector && reaches score) || not (is_low F best)
    is_low-with_score false score best = refl
    is_low-with_score true none best = refl
    is_low-with_score true (some s) best = is_low-higher s best

    best_vector-similar :
        (cs : List (Candidate F.Score)) → not (is_low F (best_vector F cs)) ≡ any is_similar cs
    unfolding best_vector
    best_vector-similar [] = refl
    best_vector-similar (c ∷ cs) =
        rw
          (
            is_low-with_score (same_channel c.channel Channel.vector) c.raw_score
                (best_vector F cs),
            best_vector-similar cs,
          )
          refl

  -- If the scores are ordered, there is no reason to expand the query exactly if a lexical channel found
  -- something, some document was found by as many direct channels as are asked for, some candidate of
  -- the vector channel has a score that is a number and not below the threshold, and the languages do
  -- not differ.
  pub evaluate_confidence_iff :
      (o : IsOrdered) (agreement : Option ℕ) (mismatch : Bool) (cs : List (Candidate F.Score))
      → (evaluate_confidence F agreement mismatch cs ≡ []) ↔ HasEvidence agreement mismatch cs
  unfolding evaluate_confidence
  evaluate_confidence_iff o agreement mismatch [] =
      (λ h. absurd (ground arith), λ (h, more, low, match). absurd (ground arith))
  evaluate_confidence_iff o agreement mismatch (c ∷ cs) =
      let m = minimum_agreement agreement in
      let lexical = any (λ x. is_lexical x.channel) (c ∷ cs) in
      let agreed = any (λ a. leb m (length a.channels)) (agreements [] (c ∷ cs)) in
      let similar = best_vector-similar o (c ∷ cs) in
      let both = agreements_iff m (c ∷ cs) (minimum_pos agreement) in
      let tests =
        no_reasons (not lexical) (not agreed) (is_low F (best_vector F (c ∷ cs))) mismatch _ _ _
          _ in
      (
        λ h.
            let (a, b, low, match) = tests.0 h in
            (ground arith, both.0 (ground arith), ground (arith, low, similar), match),
        λ (a, b, low, match).
            let found = both.1 b in
            tests.1 (ground arith, ground arith, ground (arith, low, similar), match),
      )
