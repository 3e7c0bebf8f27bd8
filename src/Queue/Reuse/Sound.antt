-- ===== src/Queue/Reuse/Sound.antt =====
-- What a plan of reuse leaves to the stored rows, and that it forgets no chunk.
use docsmint.Prelude.{
  has, ℕ, zero, suc, ◌+◌, ◌<◌, ◌≡◌, ◌⊎◌, inl, inr, refl, ap, subst, ◌∙◌, Bool, true, false, not,
  ◌&&◌, ◌||◌, Option, none, some, List, [], ◌∷◌, ◌++◌, map, ◌==◌, length, keep, All, Bool-cases,
  arith, is_id, ==_iff,
}
use docsmint.Queue.Reuse.{
  RefreshMode, incremental, full, is_full, Provider, PreparedChunk, ReusePlan, EmbeddingRow, row_at,
  force_full, spread_of, affected_by, row_serves, is_changed, affected, plan_embedding_reuse,
}

-- The chunk stands in the list.
abbrev pub In : PreparedChunk → List PreparedChunk → Type 0
In c [] = ⊥
In c (x ∷ xs) = (x ≡ c) ⊎ In c xs

-- The two indexes are equal or neighbours.
abbrev pub IsNear : ℕ → ℕ → Type 0
IsNear i j = (i ≡ j) ⊎ ((i + 1 ≡ j) ⊎ (j + 1 ≡ i))

has-append : (xs ys : List ℕ) (i : ℕ) → has (xs ++ ys) i ≡ (has xs i || has ys i)
has-append [] ys i = refl
has-append (x ∷ xs) ys i = ground (arith, has-append xs ys i)

has-keep : (q : ℕ → Bool) (xs : List ℕ) (i : ℕ) → has (keep q xs) i ≡ (has xs i && q i)
has-keep q [] i = refl
has-keep q (x ∷ xs) i = elim (Bool-cases (x == i)) [
  | inl met ↦
      let same : x ≡ i = ground arith in
      let alike : q x ≡ q i = ap q same in ground (arith, has-keep q xs i)
  | inr other ↦ ground (arith, has-keep q xs i)
]

In-keep :
    (p : PreparedChunk → Bool) (c : PreparedChunk) (cs : List PreparedChunk)
    → In c cs
    → p c ≡ true
    → In c (keep p cs)
In-keep p c [] i h = i
In-keep p c (x ∷ xs) (inl e) h = let own : p x ≡ true = ap p e ∙ h in simp own (inl e)
In-keep p c (x ∷ xs) (inr i) h =
    let rest = In-keep p c xs i h in
    elim (Bool-cases (p x)) [ inl kept ↦ simp kept (inr rest) | inr gone ↦ simp gone rest ]

In-has :
    (c : PreparedChunk) (cs : List PreparedChunk)
    → In c cs
    → has (map (λ x. x.index) cs) c.index ≡ true
In-has c [] i = absurd i
In-has c (x ∷ xs) (inl e) =
    let same : x.index ≡ c.index = ap (λ (y : PreparedChunk). y.index) e in
    let met : (x.index == c.index) ≡ true = ground arith in simp met refl
In-has c (x ∷ xs) (inr i) = ground (arith, In-has c xs i)

In-All :
    (P : PreparedChunk → Type 0) (c : PreparedChunk) (cs : List PreparedChunk)
    → In c cs
    → All P cs
    → P c
In-All P c [] i a = absurd i
In-All P c (x ∷ xs) (inl e) (h, a) = subst P e h
In-All P c (x ∷ xs) (inr i) (h, a) = In-All P c xs i a

has-spread_of : (n i j : ℕ) → i < n → IsNear i j → has (spread_of n j) i ≡ true
unfolding spread_of
has-spread_of n i zero l (inl e) = ground arith
has-spread_of n i zero l (inr (inl e)) = absurd (omega (arith, e))
has-spread_of n i zero l (inr (inr e)) = ground arith
has-spread_of n i (suc j) l (inl e) = ground arith
has-spread_of n i (suc j) l (inr (inl e)) = ground arith
has-spread_of n i (suc j) l (inr (inr e)) = ground arith

has-affected_by :
    (n i : ℕ) (c : PreparedChunk) (cs : List PreparedChunk)
    → In c cs
    → has (spread_of n c.index) i ≡ true
    → has (affected_by n cs) i ≡ true
unfolding affected_by
has-affected_by n i c [] m h = absurd m
has-affected_by n i c (x ∷ xs) (inl e) h =
    let own : has (spread_of n x.index) i ≡ true =
      ap (λ (y : PreparedChunk). has (spread_of n y.index) i) e ∙ h in
    has-append (spread_of n x.index) (affected_by n xs) i ∙ simp own refl
has-affected_by n i c (x ∷ xs) (inr m) h =
    let rest = has-affected_by n i c xs m h in
    has-append (spread_of n x.index) (affected_by n xs) i ∙ ground (arith, rest)

module _ {V : Type 0} (is_finite is_zero : V → Bool) where
  -- A chunk whose index is reusable was not changed, nor was a neighbour of it.
  unaffected-serves :
      (p : Provider) (rows : List (EmbeddingRow V)) (chunks : List PreparedChunk)
      (c d : PreparedChunk)
      → All (λ x. x.index < length chunks) chunks
      → In c chunks
      → In d chunks
      → IsNear c.index d.index
      → has (affected is_finite is_zero p rows chunks) c.index ≡ false
      → row_serves is_finite is_zero p d (row_at d.index rows) ≡ true
  unfolding affected is_changed
  unaffected-serves p rows chunks c d below ic id near free =
      elim (Bool-cases (row_serves is_finite is_zero p d (row_at d.index rows))) [
        | inl serves ↦ serves
        | inr changed ↦
            let marked : not (row_serves is_finite is_zero p d (row_at d.index rows)) ≡ true =
              simp changed refl in
            let hit =
              has-affected_by (length chunks) c.index d
                (keep (is_changed is_finite is_zero p rows) chunks)
                (In-keep (is_changed is_finite is_zero p rows) d chunks id marked)
                (has-spread_of (length chunks) c.index d.index
                  (In-All (λ x. x.index < length chunks) c chunks ic below) near) in
            absurd (ground (arith, free, hit))
      ]

  module _ (mode : RefreshMode) (hash : ℕ) (active : Option ℕ) (p : Provider)
      (chunks : List PreparedChunk) (rows : List (EmbeddingRow V)) where
    -- Every chunk is either sent to the provider or reused; a reused one stays in its context, and
    -- its row and the rows of its neighbours still serve.
    pub record IsSound (plan : ReusePlan) : Type 0 where
      pub parted :
          (c : PreparedChunk)
          → In c chunks
          → has plan.provider_chunk_indexes c.index ≡ not (has plan.reusable_chunk_indexes c.index)
      pub reused :
          (c d : PreparedChunk)
          → In c chunks
          → In d chunks
          → IsNear c.index d.index
          → has plan.reusable_chunk_indexes c.index ≡ true
          → (mode ≡ incremental)
            × (active ≡ some hash)
            × (row_serves is_finite is_zero p d (row_at d.index rows) ≡ true)

    is_id-some : (o : Option ℕ) (n : ℕ) → is_id o n ≡ true → o ≡ some n
    is_id-some none n h = absurd (ground arith)
    is_id-some (some m) n h = ap some ((==_iff m n).0 h)

    not_full : (m : RefreshMode) → is_full m ≡ false → m ≡ incremental
    not_full incremental h = refl
    not_full full h = absurd (ground arith)

    not_forced :
        force_full mode hash active p rows ≡ false → (mode ≡ incremental) × (active ≡ some hash)
    unfolding force_full
    not_forced h = (not_full mode (ground arith), is_id-some active hash (ground arith))

    -- If the indexes of the chunks are below their number: every chunk is either sent to the provider
    -- or reused; and if one is reused, then the refresh is incremental, the context of the active
    -- generation is that of the run, and its row and those of its neighbours are valid, are the
    -- provider's, and have the hashes of their chunks.
    pub plan-IsSound :
        All (λ c. c.index < length chunks) chunks
        → IsSound (plan_embedding_reuse is_finite is_zero mode hash active p chunks rows)
    unfolding plan_embedding_reuse
    plan-IsSound below = elim (Bool-cases (force_full mode hash active p rows)) [
      | inl forced ↦ simp forced (record {
        parted = λ c i. In-has c chunks i;
        reused = λ c d i j n h. absurd (ground arith);
      })
      | inr free ↦ simp free (record { parted = apart; reused = kept free })
    ]
      where
        indexes : List ℕ
        indexes = map (λ c. c.index) chunks

        marked : List ℕ
        marked = affected is_finite is_zero p rows chunks

        apart :
            (c : PreparedChunk)
            → In c chunks
            → has (keep (λ i. has marked i) indexes) c.index
              ≡ not (has (keep (λ i. not (has marked i)) indexes) c.index)
        apart c i =
            let listed = In-has c chunks i in
            ground (
              arith,
              listed,
              has-keep (λ i. has marked i) indexes c.index,
              has-keep (λ i. not (has marked i)) indexes c.index,
            )

        kept :
            force_full mode hash active p rows ≡ false
            → (c d : PreparedChunk) → In c chunks
            → In d chunks
            → IsNear c.index d.index
            → has (keep (λ i. not (has marked i)) indexes) c.index ≡ true
            → (mode ≡ incremental)
              × (active ≡ some hash)
              × (row_serves is_finite is_zero p d (row_at d.index rows) ≡ true)
        kept free c d ic id near h =
            let (m, a) = not_forced free in
            let untouched : has marked c.index ≡ false =
              ground (arith, h, has-keep (λ i. not (has marked i)) indexes c.index) in
            (m, a, unaffected-serves p rows chunks c d below ic id near untouched)
