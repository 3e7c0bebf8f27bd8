-- ===== src/Search/Fusion/Counts.antt =====
-- Which documents the fusion returns.
use docsmint.Prelude.{
  ℕ, suc, ◌≤◌, ◌≡◌, refl, ◌∙◌, inl, inr, Bool, true, false, ◌&&◌, List, [], ◌∷◌, map, length, keep,
  any, ◌==◌, if◌then◌else◌, Bool-cases, ==_iff, keep-sort_by, arith,
}
use docsmint.Search.{Scoring, Candidate, Ranked}
use docsmint.Search.Fusion.{
  Group, put_candidate, accepts, collect, result_of, ranked_after, fuse_candidates,
}

module _ (F : Scoring) (d : ℕ) where
  -- The number of the groups of the document.
  abbrev pub groups : List (Group F.Score) → ℕ
  groups gs = length (keep (λ g. g.document == d) gs)

  abbrev pub results : List (Ranked F.Score) → ℕ
  results rs = length (keep (λ r. r.document == d) rs)

  -- A candidate of the document that the loop does not skip.
  abbrev pub is_hit : Candidate F.Score → Bool
  is_hit c = accepts F c && c.document == d

  put_candidate-other :
      (c : Candidate F.Score) (gs : List (Group F.Score))
      → (c.document == d) ≡ false
      → groups (put_candidate c gs) ≡ groups gs
  unfolding put_candidate
  put_candidate-other c [] h = simp h refl
  put_candidate-other c (g ∷ gs) h = elim (Bool-cases (g.document == c.document)) [
    | inl same ↦
        let e : g.document ≡ c.document = (==_iff g.document c.document).0 same in
        let other : (g.document == d) ≡ false = rw e h in simp same (simp other refl)
    | inr apart ↦ let rest = put_candidate-other c gs h in simp apart (ground arith)
  ]

  put_candidate-same :
      (c : Candidate F.Score) (gs : List (Group F.Score))
      → (c.document == d) ≡ true
      → groups gs ≤ 1
      → groups (put_candidate c gs) ≡ 1
  unfolding put_candidate
  put_candidate-same c [] h l = simp h refl
  put_candidate-same c (g ∷ gs) h l = elim (Bool-cases (g.document == c.document)) [
    | inl same ↦
        let e : g.document ≡ c.document = (==_iff g.document c.document).0 same in
        let here : (g.document == d) ≡ true = rw e h in
        let less : suc (groups gs) ≤ 1 = simp here at l in simp same (simp here (omega arith))
    | inr apart ↦
        let e : c.document ≡ d = (==_iff c.document d).0 h in
        let other : (g.document == d) ≡ false = rw e at apart in
        let less : groups gs ≤ 1 = simp other at l in
        simp apart (simp other (put_candidate-same c gs h less))
  ]

  pub collect-groups :
      (gs : List (Group F.Score)) (cs : List (Candidate F.Score))
      → groups gs ≤ 1
      → groups (collect F gs cs) ≡ (if any is_hit cs then 1 else groups gs)
  unfolding collect
  collect-groups gs [] l = refl
  collect-groups gs (c ∷ cs) l = elim (Bool-cases (accepts F c)) [
    | inr skipped ↦ simp skipped (collect-groups gs cs l)
    | inl taken ↦ elim (Bool-cases (c.document == d)) [
      | inl same ↦
          let one = put_candidate-same c gs same l in
          let rest = collect-groups (put_candidate c gs) cs (omega (arith, one)) in
          simp taken (simp same (ground arith))
      | inr other ↦
          let kept = put_candidate-other c gs other in
          let rest = collect-groups (put_candidate c gs) cs (omega (arith, kept)) in
          simp taken (simp other (ground arith))
    ]
  ]

  results-map : (gs : List (Group F.Score)) → results (map (result_of F) gs) ≡ groups gs
  unfolding result_of
  results-map [] = refl
  results-map (g ∷ gs) = let rest = results-map gs in ground arith

  -- A document is among the results if a candidate of it is not skipped, and then once.
  pub fuse_candidates-counts :
      (cs : List (Candidate F.Score))
      → results (fuse_candidates F cs) ≡ (if any is_hit cs then 1 else 0)
  unfolding fuse_candidates
  fuse_candidates-counts cs =
      keep-sort_by (ranked_after F) (λ r. r.document == d) (map (result_of F) (collect F [] cs))
      ∙ results-map (collect F [] cs)
      ∙ collect-groups [] cs (omega arith)
