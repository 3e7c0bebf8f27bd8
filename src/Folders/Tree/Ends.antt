-- ===== src/Folders/Tree/Ends.antt =====
-- In a forest, the walks up the chain of parents end within the fuel that they are given.
use docsmint.Prelude.{
  remaining, remaining-visit, remaining_le, has, ℕ, zero, suc, ◌+◌, ◌≤◌, ◌<◌, ◌≡◌, inl, inr, refl,
  Bool, true, false, ap, ◌∙◌, subst, Option, none, some, List, [], ◌∷◌, ◌==◌, arith, Bool-cases,
  Option-cases,
}
use docsmint.Folders.Tree.{
  Folder, find_folder, parent_of, row_parent, ancestors, with_row, category_of, first_category,
  effective_category, finds_above, rounds,
}
use docsmint.Folders.Tree.Forest.{
  ends, EndsExactly, ends_exactly, EndsExactly-up, Longer, Longer-new, Longer-less, ends-none,
  IsForest,
}

-- The number of folders that were not visited.
abbrev unvisited : List ℕ → List Folder → ℕ
unvisited = remaining (λ (f : Folder). f.id)

module _ (folders : List Folder) where
  parent_of-missing : (c : ℕ) → find_folder folders c ≡ none → parent_of folders c ≡ none
  unfolding parent_of
  parent_of-missing c h = ap row_parent h

  -- No chain that ends is longer than the rows that were not visited, and one step.
  chain_le :
      (n : ℕ) (visited : List ℕ) (current : Option ℕ)
      → EndsExactly (parent_of folders) n current
      → Longer folders n visited
      → n ≤ unvisited visited folders + 1
  unfolding ends
  chain_le zero visited current x l = omega arith
  chain_le (suc n) visited none x l = let t = x.not_sooner n refl in absurd (ground arith)
  chain_le (suc n) visited (some c) x l = elim (Option-cases (find_folder folders c)) [
    | inl gone ↦ short n (
        subst (λ o. (m : ℕ) → n ≡ suc m → ends (parent_of folders) m o ≡ false)
          (parent_of-missing c gone) (EndsExactly-up (parent_of folders) n c x).not_sooner)
    | inr (f, found) ↦
        let up =
          chain_le n (c ∷ visited) (parent_of folders c) (EndsExactly-up (parent_of folders) n c x)
            (x.not_sooner n refl, Longer-less folders n visited l) in
        omega (
          arith,
          up,
          remaining-visit (λ (f : Folder). f.id) c visited folders f
              (Longer-new folders (suc n) c visited x.within l) found,
        )
  ]
    where
      short :
          (n : ℕ)
          → ((m : ℕ) → n ≡ suc m → ends (parent_of folders) m none ≡ false)
          → suc n ≤ unvisited visited folders + 1
      short zero h = omega arith
      short (suc m) h =
          absurd (let t = h m refl in let u = ends-none (parent_of folders) m in ground arith)

  ancestors-ends :
      (fuel n : ℕ) (current : Option ℕ)
      → ends (parent_of folders) n current ≡ true
      → n < fuel
      → (fs : List Folder) × (ancestors folders fuel current ≡ some fs)
  unfolding ancestors ends
  ancestors-ends zero n current e h = absurd (omega arith)
  ancestors-ends (suc fuel) n none e h = ([], refl)
  ancestors-ends (suc fuel) zero (some c) e h = absurd (ground arith)
  ancestors-ends (suc fuel) (suc n) (some c) e h =
      let (fs, k) = ancestors-ends fuel n (parent_of folders c) e (omega arith) in
      let (gs, t) = whole (find_folder folders c) fs in
      (gs, ap (with_row (find_folder folders c)) k ∙ t)
    where
      whole :
          (o : Option Folder) (fs : List Folder)
          → (gs : List Folder) × (with_row o (some fs) ≡ some gs)
      whole none fs = ([], refl)
      whole (some f) fs = (f ∷ fs, refl)

  finds_above-ends :
      (fuel id n : ℕ) (visited : List ℕ) (current : Option ℕ)
      → ends (parent_of folders) n current ≡ true
      → n < fuel
      → (b : Bool) × (finds_above folders fuel id visited current ≡ some b)
  unfolding finds_above ends
  finds_above-ends zero id n visited current e h = absurd (omega arith)
  finds_above-ends (suc fuel) id n visited none e h = (false, refl)
  finds_above-ends (suc fuel) id zero visited (some c) e h = absurd (ground arith)
  finds_above-ends (suc fuel) id (suc n) visited (some c) e h =
      let (b, k) = finds_above-ends fuel id n (c ∷ visited) (parent_of folders c) e (omega arith) in
      elim (Bool-cases (has visited c)) [
        | inl old ↦ (false, simp old refl)
        | inr new ↦ elim (Bool-cases (c == id)) [
          | inl here ↦ (true, simp (new, here) refl)
          | inr other ↦ (b, simp (new, other) k)
        ]
      ]

  module _ (forest : IsForest folders) where
    -- In a forest, a chain ends within the fuel of the walks.
    pub ends_soon :
        (c : ℕ) → (n : ℕ) × (n < rounds folders) × EndsExactly (parent_of folders) n (some c)
    ends_soon c =
        let (m, h) = forest.grounded c in
        let (n, _, x) = ends_exactly (parent_of folders) m (some c) h in
        (
          n,
          omega
              (arith, chain_le n [] (some c) x tt, remaining_le (λ (f : Folder). f.id) [] folders),
          x,
        )

    pub effective_category_ends :
        (c : ℕ) → (k : Option ℕ) × (effective_category folders (some c) ≡ some k)
    unfolding effective_category
    effective_category_ends c =
        let (n, h, x) = ends_soon c in
        let (fs, e) = ancestors-ends (rounds folders) n (some c) x.within h in
        (first_category fs, ap category_of e)

    pub finds_above_ends :
        (id c : ℕ) → (b : Bool) × (finds_above folders (rounds folders) id [] (some c) ≡ some b)
    finds_above_ends id c =
        let (n, h, x) = ends_soon c in finds_above-ends (rounds folders) id n [] (some c) x.within h
