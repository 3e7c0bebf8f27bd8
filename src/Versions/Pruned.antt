-- ===== src/Versions/Pruned.antt =====
-- What is pruned, and what is left.
use mathlib.Core.List.{Perm}
use docsmint.Prelude.{
  ℕ, zero, suc, ◌+◌, ◌-◌, ◌≤◌, ◌≡◌, refl, ap, subst, sym, ◌∙◌, inl, inr, Bool, true, false, not,
  ◌&&◌, List, [], ◌∷◌, ◌++◌, length, take, drop, keep, has, All, ◌==◌, leb, min, Bool-cases,
  ==_refl, keep_agree, keep_fuse, keep-append, length-append, length-drop, take-drop, sort_by,
  sort_by-Perm, sort_by-IsOrdered, IsOrdered, keep-sort_by, arith,
}
use docsmint.Versions.{
  Version, is_auto_saved, auto_saved, listed_after, ids_of, stale_versions, prune_rows,
}

-- The number of the rows with an identifier.
abbrev pub with_id : ℕ → List Version → ℕ
with_id n vs = length (keep (λ v. v.id == n) vs)

-- The identifiers are the table's key.
abbrev pub IsKeyed : List Version → Type 0
IsKeyed rows = (n : ℕ) → with_id n rows ≤ 1

-- The first of an ordered list is listed after none of the others.
ordered-first :
    (x y : Version) (ys : List Version)
    → listed_after x y ≡ false
    → IsOrdered listed_after (y ∷ ys)
    → All (λ v. listed_after x v ≡ false) (y ∷ ys)
ordered-first x y [] h o = (h, tt)
ordered-first x y (z ∷ zs) h (k, o) = (h, ordered-first x z zs (ground arith) o)

-- No version of the front of an ordered list is listed after one behind it.
ordered-parts :
    (n : ℕ) (vs : List Version)
    → IsOrdered listed_after vs
    → All (λ w. All (λ v. listed_after w v ≡ false) (drop n vs)) (take n vs)
ordered-parts zero vs o = tt
ordered-parts (suc n) [] o = tt
ordered-parts (suc n) (x ∷ []) o = (nothing n, ordered-parts n [] tt)
  where
    nothing : (n : ℕ) → All (λ v. listed_after x v ≡ false) (drop n [])
    nothing zero = tt
    nothing (suc n) = tt
ordered-parts (suc n) (x ∷ y ∷ ys) (h, o) =
    (behind n (y ∷ ys) (ordered-first x y ys h o), ordered-parts n (y ∷ ys) o)
  where
    behind :
        (n : ℕ) (vs : List Version)
        → All (λ v. listed_after x v ≡ false) vs
        → All (λ v. listed_after x v ≡ false) (drop n vs)
    behind zero vs a = a
    behind (suc n) [] a = tt
    behind (suc n) (v ∷ vs) (k, a) = behind n vs a

with_id-append : (n : ℕ) (xs ys : List Version) → with_id n (xs ++ ys) ≡ with_id n xs + with_id n ys
with_id-append n xs ys =
    ap length (keep-append (λ v. v.id == n) xs ys)
    ∙ length-append (keep (λ v. v.id == n) xs) (keep (λ v. v.id == n) ys)

has-with_id : (n : ℕ) (vs : List Version) → has (ids_of vs) n ≡ true → 1 ≤ with_id n vs
has-with_id n [] h = absurd (ground arith)
has-with_id n (v ∷ vs) h = let rest = has-with_id n vs in ground arith

abbrev stays : List Version → Version → Bool
stays gone v = not (has (ids_of gone) v.id)

-- Every version of a list is among its identifiers.
stays-none :
    (gone vs : List Version)
    → ((n : ℕ) → 1 ≤ with_id n vs → has (ids_of gone) n ≡ true)
    → keep (stays gone) vs ≡ []
stays-none gone [] h = refl
stays-none gone (v ∷ vs) h =
    let own = ==_refl v.id in
    let here : has (ids_of gone) v.id ≡ true = h v.id (rw own (omega arith)) in
    rw here (stays-none gone vs (λ n l. h n (ground arith)))

with_id-has : (n : ℕ) (vs : List Version) → 1 ≤ with_id n vs → has (ids_of vs) n ≡ true
with_id-has n [] l = absurd (omega (arith, l))
with_id-has n (v ∷ vs) l = let rest = with_id-has n vs in ground arith

stays-all :
    (gone vs : List Version)
    → ((n : ℕ) → with_id n gone + with_id n vs ≤ 1)
    → keep (stays gone) vs ≡ vs
stays-all gone [] h = refl
stays-all gone (v ∷ vs) h = elim (Bool-cases (has (ids_of gone) v.id)) [
  | inl there ↦
      let one = has-with_id v.id gone there in
      let two = h v.id in absurd (let t = rw (==_refl v.id) at two in omega (arith, one, t))
  | inr other ↦
      rw other (ap (λ l. v ∷ l) (stays-all gone vs (λ n. let t = h n in ground (arith, t))))
]

abbrev pub other_rows : ℕ → List Version → List Version
other_rows d rows = keep (λ v. not (is_auto_saved d v)) rows

with_id-parts :
    (n d : ℕ) (rows : List Version)
    → with_id n rows ≡ with_id n (auto_saved d rows) + with_id n (other_rows d rows)
with_id-parts n d [] = refl
with_id-parts n d (v ∷ vs) = elim (Bool-cases (is_auto_saved d v)) [
  | inl own ↦ rw own (let rest = with_id-parts n d vs in ground arith)
  | inr other ↦ rw other (let rest = with_id-parts n d vs in ground arith)
]

-- The rows that are not the document's auto-saved ones keep their identifiers to themselves.
others-stay :
    (d : ℕ) (gone vs : List Version)
    → ((n : ℕ) → with_id n gone + with_id n (other_rows d vs) ≤ 1)
    → All (λ v. not (is_auto_saved d v) ≡ true → stays gone v ≡ true) vs
others-stay d gone [] h = tt
others-stay d gone (v ∷ vs) h = elim (Bool-cases (is_auto_saved d v)) [
  | inl own ↦
      ((λ k. absurd (ground arith)), others-stay d gone vs (λ n. let t = h n in simp own at t))
  | inr other ↦ (
    (λ k. free (has (ids_of gone) v.id) refl other),
    others-stay d gone vs (λ n. let t = h n in let u = simp other at t in ground (arith, u)),
  )
]
  where
    free : (b : Bool) → has (ids_of gone) v.id ≡ b → is_auto_saved d v ≡ false → not b ≡ true
    free false e other = refl
    free true e other =
        let one = has-with_id v.id gone e in
        let two = h v.id in
        let t = simp other at two in
        let u = rw (==_refl v.id) at t in absurd (omega (arith, one, u))

module _ (retention d : ℕ) (rows : List Version) where
  abbrev own : List Version
  own = auto_saved d rows

  abbrev sorted : List Version
  sorted = sort_by listed_after own

  abbrev surplus : ℕ
  surplus = length own - retention

  stale-eq : stale_versions retention d rows ≡ take surplus sorted
  unfolding stale_versions
  stale-eq = elim (Bool-cases (leb (length own) retention)) [
    | inl few ↦ let nothing : length own - retention ≡ 0 = ground arith in rw few (rw nothing refl)
    | inr many ↦ rw many refl
  ]

  with_id-sorted :
      (n : ℕ) → with_id n (take surplus sorted) + with_id n (drop surplus sorted) ≡ with_id n own
  with_id-sorted n =
      sym (with_id-append n (take surplus sorted) (drop surplus sorted))
      ∙ ap (with_id n) (take-drop surplus sorted)
      ∙ keep-sort_by listed_after (λ v. v.id == n) own

  kept-own :
      keep (is_auto_saved d) (prune_rows retention d rows) ≡ keep (stays (take surplus sorted)) own
  unfolding prune_rows
  kept-own = rw stale-eq (
      keep_fuse (is_auto_saved d) (stays (take surplus sorted))
        (λ v. stays (take surplus sorted) v && is_auto_saved d v) rows (λ v. refl)
      ∙ sym (
          keep_fuse (stays (take surplus sorted)) (is_auto_saved d)
            (λ v. stays (take surplus sorted) v && is_auto_saved d v) rows
            (λ v. swapped (is_auto_saved d v) (stays (take surplus sorted) v))))
    where
      swapped : (a b : Bool) → (a && b) ≡ (b && a)
      swapped a b = ground arith

  kept-length :
      IsKeyed rows → length (keep (stays (take surplus sorted)) own) ≡ length (drop surplus sorted)
  kept-length k =
      let older = take surplus sorted in
      let newer = drop surplus sorted in
      sym (keep-sort_by listed_after (stays older) own)
      ∙ ap (λ l. length (keep (stays older) l)) (sym (take-drop surplus sorted))
      ∙ ap length (keep-append (stays older) older newer)
      ∙ ap (λ l. length (l ++ keep (stays older) newer))
          (stays-none older older (λ n l. with_id-has n older l))
      ∙ ap length (
          stays-all older newer
            (λ n. let all = k n in omega (arith, all, with_id-sorted n, with_id-parts n d rows)))

  -- What pruning does: it divides the document's auto-saved versions into older and newer ones, as many
  -- newer ones as the retention allows, and keeps those.
  abbrev pub IsPruned : List Version → Type 0
  IsPruned result =
      (older newer : List Version) × Perm (older ++ newer) (auto_saved d rows)
      × (length newer ≡ min retention (length (auto_saved d rows)))
      × All (λ w. All (λ v. listed_after w v ≡ false) newer) older
      × (result ≡ keep (λ v. not (has (ids_of older) v.id)) rows)
      × (length (auto_saved d result) ≡ length newer)
      × (other_rows d result ≡ other_rows d rows)

  others-kept : IsKeyed rows → other_rows d (prune_rows retention d rows) ≡ other_rows d rows
  unfolding prune_rows
  others-kept k = rw stale-eq (
      keep_agree (λ v. not (is_auto_saved d v)) (stays (take surplus sorted)) rows
        (others-stay d (take surplus sorted) rows
          (λ n. let all = k n in omega (arith, all, with_id-sorted n, with_id-parts n d rows))))

  -- If identifiers are unique, pruning keeps the newest auto-saved versions of the document, as many as
  -- the retention allows, deletes its other auto-saved ones, none of which is newer than one that is
  -- kept, and leaves its snapshots and all versions of other documents.
  pub prune_rows-IsPruned : IsKeyed rows → IsPruned (prune_rows retention d rows)
  prune_rows-IsPruned k = (
    take surplus sorted,
    drop surplus sorted,
    subst (λ l. Perm l own) (sym (take-drop surplus sorted)) (sort_by-Perm listed_after own),
    newer-length,
    ordered-parts surplus sorted (sort_by-IsOrdered listed_after (λ a b h. ground arith) own),
    (unfold prune_rows in rw stale-eq refl),
    ap length kept-own ∙ kept-length k,
    others-kept k,
  )
    where
      newer-length : length (drop surplus sorted) ≡ min retention (length own)
      newer-length = omega (arith, length-drop surplus sorted, length-sorted)
        where
          length-sorted : length sorted ≡ length own
          length-sorted = keep-all sorted own (keep-sort_by listed_after (λ v. true) own)
            where
              keep-true : (vs : List Version) → keep (λ v. true) vs ≡ vs
              keep-true [] = refl
              keep-true (v ∷ vs) = ap (λ l. v ∷ l) (keep-true vs)

              keep-all :
                  (xs ys : List Version)
                  → length (keep (λ v. true) xs) ≡ length (keep (λ v. true) ys)
                  → length xs ≡ length ys
              keep-all xs ys e = ap length (sym (keep-true xs)) ∙ e ∙ ap length (keep-true ys)
