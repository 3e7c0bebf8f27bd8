-- ===== src/Search/Fusion/Best.antt =====
-- What the fusion keeps of a document's candidates: the best one of each channel.
use mathlib.Core.List.{Mem, mem-cons_self, mem-cons_of_mem}
use docsmint.Prelude.{
  ℕ, ◌≤◌, ◌≡◌, refl, ap, subst, sym, ◌∙◌, inl, inr, true, false, List, [], ◌∷◌, map, length, keep,
  find?, All, ◌==◌, if◌then◌else◌, ltb, Bool-cases, ==_iff, ==_refl, some, sort_by-All, arith,
}
use docsmint.Search.{Channel, place, same_channel, Scoring, Candidate, Ranked}
use docsmint.Search.Fusion.{
  Group, put_best, put_candidate, accepts, collect, result_of, ranked_after, fuse_candidates,
}
use docsmint.Search.Fusion.Counts.{groups, is_hit, collect-groups}

module _ (F : Scoring) (d : ℕ) where
  -- The best candidates of the document, from its own ones only.
  unfoldable pub fold_best :
      List (Candidate F.Score) → List (Candidate F.Score) → List (Candidate F.Score)
  fold_best best [] = best
  fold_best best (c ∷ cs) = fold_best (if is_hit F d c then put_best c best else best) cs

  abbrev best_of : List (Group F.Score) → List (Candidate F.Score)
  best_of [] = []
  best_of (g ∷ gs) = if g.document == d then g.best else best_of gs

  best_of-put :
      (c : Candidate F.Score) (gs : List (Group F.Score))
      → best_of (put_candidate c gs)
        ≡ (if c.document == d then put_best c (best_of gs) else best_of gs)
  unfolding put_candidate put_best
  best_of-put c [] = refl
  best_of-put c (g ∷ gs) = elim (Bool-cases (g.document == c.document)) [
    | inl same ↦
        let e : g.document ≡ c.document = (==_iff g.document c.document).0 same in
        rw same (elim (Bool-cases (c.document == d)) [
          | inl here ↦ let there : (g.document == d) ≡ true = rw e here in rw here (rw there refl)
          | inr other ↦
              let there : (g.document == d) ≡ false = rw e other in rw other (rw there refl)
        ])
    | inr apart ↦ rw apart (elim (Bool-cases (g.document == d)) [
      | inl here ↦
          let e : g.document ≡ d = (==_iff g.document d).0 here in
          let other : (c.document == d) ≡ false = ground arith in rw here (rw other refl)
      | inr there ↦ rw there (best_of-put c gs)
    ])
  ]

  best_of-collect :
      (gs : List (Group F.Score)) (cs : List (Candidate F.Score))
      → best_of (collect F gs cs) ≡ fold_best (best_of gs) cs
  unfolding collect fold_best
  best_of-collect gs [] = refl
  best_of-collect gs (c ∷ cs) = elim (Bool-cases (accepts F c)) [
    | inr skipped ↦ rw skipped (best_of-collect gs cs)
    | inl taken ↦ rw taken (
        best_of-collect (put_candidate c gs) cs ∙ ap (λ best. fold_best best cs) (best_of-put c gs))
  ]

-- The list has a candidate of the channel of `c`, whose rank is not above that of `c`.
abbrev pub Kept : {S : Type 0} → Candidate S → List (Candidate S) → Type 0
Kept {S} c best =
    (b : Candidate S) × (find? (λ x. same_channel x.channel c.channel) best ≡ some b)
    × (b.rank ≤ c.rank)

-- The number of the candidates of a channel.
abbrev pub of_channel : {S : Type 0} → Channel → List (Candidate S) → ℕ
of_channel ch best = length (keep (λ b. same_channel b.channel ch) best)

module _ {S : Type 0} where
  put_best-Kept : (c : Candidate S) (best : List (Candidate S)) → Kept c (put_best c best)
  unfolding put_best
  put_best-Kept c [] = rw (==_refl (place c.channel)) (c, refl, omega arith)
  put_best-Kept c (p ∷ ps) = elim (Bool-cases (same_channel p.channel c.channel)) [
    | inl same ↦ rw same (elim (Bool-cases (ltb c.rank p.rank)) [
      | inl less ↦ rw less (rw (==_refl (place c.channel)) (c, refl, omega arith))
      | inr more ↦ rw more (rw same (p, refl, ground arith))
    ])
    | inr apart ↦ rw apart (rw apart (put_best-Kept c ps))
  ]

  put_best-keeps :
      (x c : Candidate S) (best : List (Candidate S)) → Kept c best → Kept c (put_best x best)
  unfolding put_best
  put_best-keeps x c [] (b, e, l) = absurd (ground arith)
  put_best-keeps x c (p ∷ ps) (b, e, l) = elim (Bool-cases (same_channel p.channel c.channel)) [
    | inl here ↦
        let first : p ≡ b = (let t = simp here at e in ground arith) in
        let le : p.rank ≤ c.rank = rw first l in
        elim (Bool-cases (same_channel p.channel x.channel)) [
          | inl same ↦ rw same (elim (Bool-cases (ltb x.rank p.rank)) [
            | inl less ↦
                let also : same_channel x.channel c.channel ≡ true = ground arith in
                rw less (rw also (x, refl, ground arith))
            | inr more ↦ rw more (rw here (p, refl, le))
          ])
          | inr apart ↦ rw apart (rw here (p, refl, le))
        ]
    | inr there ↦
        let later = simp there at e in
        elim (Bool-cases (same_channel p.channel x.channel)) [
          | inl same ↦
              let also : same_channel x.channel c.channel ≡ false = ground arith in
              rw same (elim (Bool-cases (ltb x.rank p.rank)) [
                | inl less ↦ rw less (rw also (b, later, l))
                | inr more ↦ rw more (rw there (b, later, l))
              ])
          | inr apart ↦ rw apart (rw there (put_best-keeps x c ps (b, later, l)))
        ]
  ]

  put_best-other :
      (ch : Channel) (c : Candidate S) (best : List (Candidate S))
      → same_channel c.channel ch ≡ false
      → of_channel ch (put_best c best) ≡ of_channel ch best
  unfolding put_best
  put_best-other ch c [] h = simp h refl
  put_best-other ch c (p ∷ ps) h = elim (Bool-cases (same_channel p.channel c.channel)) [
    | inl same ↦
        let also : same_channel p.channel ch ≡ false = ground arith in
        rw same (elim (Bool-cases (ltb c.rank p.rank)) [
          | inl less ↦ rw less (rw h (rw also refl))
          | inr more ↦ rw more refl
        ])
    | inr apart ↦ let rest = put_best-other ch c ps h in rw apart (ground arith)
  ]

  put_best-few :
      (ch : Channel) (c : Candidate S) (best : List (Candidate S))
      → of_channel ch best ≤ 1
      → of_channel ch (put_best c best) ≤ 1
  unfolding put_best
  put_best-few ch c [] l = ground arith
  put_best-few ch c (p ∷ ps) l = elim (Bool-cases (same_channel p.channel c.channel)) [
    | inl same ↦ rw same (elim (Bool-cases (ltb c.rank p.rank)) [
      | inl less ↦ rw less (ground arith)
      | inr more ↦ rw more l
    ])
    | inr apart ↦ rw apart (elim (Bool-cases (same_channel p.channel ch)) [
      | inl here ↦
          let other : same_channel c.channel ch ≡ false = ground arith in
          let rest = put_best-other ch c ps other in
          let few = simp here at l in rw here (omega (arith, few, rest))
      | inr there ↦ rw there (put_best-few ch c ps (simp there at l))
    ])
  ]

  put_best-All {κ} :
      (P : Candidate S → Type κ) (c : Candidate S) (best : List (Candidate S))
      → P c
      → All P best
      → All P (put_best c best)
  unfolding put_best
  put_best-All P c [] h a = (h, tt)
  put_best-All P c (p ∷ ps) h (q, a) = elim (Bool-cases (same_channel p.channel c.channel)) [
    | inl same ↦ rw same (elim (Bool-cases (ltb c.rank p.rank)) [
      | inl less ↦ rw less (h, a)
      | inr more ↦ rw more (q, a)
    ])
    | inr apart ↦ rw apart (q, put_best-All P c ps h a)
  ]

module _ (F : Scoring) (d : ℕ) where
  -- What the fusion keeps for a document: candidates of it that are not skipped, one at most of each
  -- channel, and for each channel that has a candidate one with its smallest rank.
  abbrev pub IsChosen : List (Candidate F.Score) → List (Candidate F.Score) → Type 0
  IsChosen cs best =
      All (λ b. (is_hit F d b ≡ true) × Mem b cs) best
      × All (λ c. is_hit F d c ≡ true → Kept c best) cs
      × ((ch : Channel) → of_channel ch best ≤ 1)

  fold_best-All :
      (P : Candidate F.Score → Type 0) (best cs : List (Candidate F.Score))
      → All P best
      → All (λ c. is_hit F d c ≡ true → P c) cs
      → All P (fold_best F d best cs)
  unfolding fold_best
  fold_best-All P best [] a k = a
  fold_best-All P best (c ∷ cs) a (k, ks) = elim (Bool-cases (is_hit F d c)) [
    | inl hit ↦ rw hit (fold_best-All P (put_best c best) cs (put_best-All P c best (k hit) a) ks)
    | inr missed ↦ rw missed (fold_best-All P best cs a ks)
  ]

  fold_best-few :
      (ch : Channel) (best cs : List (Candidate F.Score))
      → of_channel ch best ≤ 1
      → of_channel ch (fold_best F d best cs) ≤ 1
  unfolding fold_best
  fold_best-few ch best [] l = l
  fold_best-few ch best (c ∷ cs) l = elim (Bool-cases (is_hit F d c)) [
    | inl hit ↦ rw hit (fold_best-few ch (put_best c best) cs (put_best-few ch c best l))
    | inr missed ↦ rw missed (fold_best-few ch best cs l)
  ]

  fold_best-keeps :
      (x : Candidate F.Score) (best cs : List (Candidate F.Score))
      → Kept x best
      → Kept x (fold_best F d best cs)
  unfolding fold_best
  fold_best-keeps x best [] k = k
  fold_best-keeps x best (c ∷ cs) k = elim (Bool-cases (is_hit F d c)) [
    | inl hit ↦ rw hit (fold_best-keeps x (put_best c best) cs (put_best-keeps c x best k))
    | inr missed ↦ rw missed (fold_best-keeps x best cs k)
  ]

  fold_best-Kept :
      (best cs final : List (Candidate F.Score))
      → fold_best F d best cs ≡ final
      → All (λ c. is_hit F d c ≡ true → Kept c final) cs
  unfolding fold_best
  fold_best-Kept best [] final e = tt
  fold_best-Kept best (c ∷ cs) final e = elim (Bool-cases (is_hit F d c)) [
    | inl hit ↦
        let rest : fold_best F d (put_best c best) cs ≡ final = simp hit at e in
        (
          λ h. subst (Kept c) rest (fold_best-keeps c (put_best c best) cs (put_best-Kept c best)),
          fold_best-Kept (put_best c best) cs final rest,
        )
    | inr missed ↦ ((λ h. absurd (ground arith)), fold_best-Kept best cs final (simp missed at e))
  ]

  All-Mem :
      (cs whole : List (Candidate F.Score))
      → ((c : Candidate F.Score) → Mem c cs → Mem c whole)
      → All (λ c. is_hit F d c ≡ true → (is_hit F d c ≡ true) × Mem c whole) cs
  All-Mem [] whole h = tt
  All-Mem (c ∷ cs) whole h =
      ((λ k. (k, h c mem-cons_self)), All-Mem cs whole (λ x m. h x (mem-cons_of_mem c m)))

  fold_best-IsChosen : (cs : List (Candidate F.Score)) → IsChosen cs (fold_best F d [] cs)
  fold_best-IsChosen cs = (
    fold_best-All (λ b. (is_hit F d b ≡ true) × Mem b cs) [] cs tt (All-Mem cs cs (λ c m. m)),
    fold_best-Kept [] cs (fold_best F d [] cs) refl,
    λ ch. fold_best-few ch [] cs (omega arith),
  )

module _ (F : Scoring) where
  keyed :
      (gs whole : List (Group F.Score))
      → ((d : ℕ) → groups F d gs ≤ 1)
      → ((d : ℕ) → (groups F d gs ≡ 1) → best_of F d whole ≡ best_of F d gs)
      → All (λ g. best_of F g.document whole ≡ g.best) gs
  keyed [] whole few same = tt
  keyed (g ∷ gs) whole few same =
      let here : (g.document == g.document) ≡ true = ==_refl g.document in
      let alone : groups F g.document (g ∷ gs) ≡ 1 =
        (let t = few g.document in simp here (omega (arith, simp here at t))) in
      (
        same g.document alone ∙ rw here refl,
        keyed gs whole (λ d. let t = few d in ground (arith, t)) later,
      )
    where
      later : (d : ℕ) → (groups F d gs ≡ 1) → best_of F d whole ≡ best_of F d gs
      later d e = elim (Bool-cases (g.document == d)) [
        | inl this ↦ absurd (let t = few d in let u = simp this at t in omega (arith, e, u))
        | inr other ↦ same d (simp other e) ∙ rw other refl
      ]

  -- A result of the fusion: its document's candidates are chosen, and it is made of them.
  abbrev pub IsFused : List (Candidate F.Score) → Ranked F.Score → Type 0
  IsFused cs r =
      (best : List (Candidate F.Score)) × IsChosen F r.document cs best
      × (r ≡ result_of F (record { document = r.document; best = best }))

  All-map-IsFused :
      (cs : List (Candidate F.Score)) (gs whole : List (Group F.Score))
      → ((d : ℕ) → best_of F d whole ≡ fold_best F d [] cs)
      → All (λ g. best_of F g.document whole ≡ g.best) gs
      → All (IsFused cs) (map (result_of F) gs)
  unfolding result_of
  All-map-IsFused cs [] whole h k = tt
  All-map-IsFused cs (g ∷ gs) whole h (e, k) = (
    (
      g.best,
      subst (IsChosen F g.document cs) (sym (h g.document) ∙ e)
          (fold_best-IsChosen F g.document cs),
      refl,
    ),
    All-map-IsFused cs gs whole h k,
  )

  -- Each result of the fusion is made of the candidates of its document that are not skipped, one at
  -- most of each channel, and for each channel that has one of the smallest rank.
  pub fuse_candidates-IsFused :
      (cs : List (Candidate F.Score)) → All (IsFused cs) (fuse_candidates F cs)
  unfolding fuse_candidates
  fuse_candidates-IsFused cs =
      let gs = collect F [] cs in
      sort_by-All (ranked_after F) (IsFused cs) (map (result_of F) gs) (
        All-map-IsFused cs gs gs (λ d. best_of-collect F d [] cs)
          (keyed gs gs (λ d. groups-le d) (λ d e. refl)))
    where
      groups-le : (d : ℕ) → groups F d (collect F [] cs) ≤ 1
      groups-le d = ground (arith, collect-groups F d [] cs)
