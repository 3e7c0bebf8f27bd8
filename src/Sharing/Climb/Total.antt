-- ===== src/Sharing/Climb/Total.antt =====
-- The walks end: what a round visits was not visited before.
use docsmint.Prelude.{
  remaining, remaining-visit, has, ℕ, zero, suc, ◌<◌, ◌≡◌, inl, inr, refl, Bool, true, false,
  Option, none, some, List, ◌∷◌, ◌==◌, arith, Bool-cases, Option-cases,
}
use docsmint.Sharing.Tables.{Folder, find_folder}
use docsmint.Sharing.Climb.{climb, folder_category}

-- The number of folders that were not visited.
abbrev pub unvisited : List ℕ → List Folder → ℕ
unvisited = remaining (λ (f : Folder). f.id)

module _ (folders : List Folder) where
  -- With more rounds than unvisited folders, each of the three walks returns.
  pub climb-ends :
      (root n : ℕ) (visited : List ℕ) (current : Option ℕ)
      → unvisited visited folders < n
      → (b : Bool) × (climb folders root n visited current ≡ some b)
  unfolding climb
  climb-ends root zero visited current h = absurd (omega arith)
  climb-ends root (suc n) visited none h = (false, refl)
  climb-ends root (suc n) visited (some c) h = elim (Bool-cases (c == root)) [
    | inl top ↦ (true, simp top refl)
    | inr below ↦ elim (Bool-cases (has visited c)) [
      | inl again ↦ (false, simp (below, again) refl)
      | inr new ↦ elim (Option-cases (find_folder folders c)) [
        | inl gone ↦ (false, simp (below, new, gone) refl)
        | inr (f, found) ↦
            let (b, e) = climb-ends root n (c ∷ visited) f.parent (
              omega
                (arith, remaining-visit (λ (f : Folder). f.id) c visited folders f new found)) in
            (b, simp (below, new, found) e)
      ]
    ]
  ]

  pub folder_category-ends :
      (n : ℕ) (visited : List ℕ) (current : Option ℕ)
      → unvisited visited folders < n
      → (k : Option ℕ) × (folder_category folders n visited current ≡ some k)
  unfolding folder_category
  folder_category-ends zero visited current h = absurd (omega arith)
  folder_category-ends (suc n) visited none h = (none, refl)
  folder_category-ends (suc n) visited (some c) h = elim (Bool-cases (has visited c)) [
    | inl again ↦ (none, simp again refl)
    | inr new ↦ elim (Option-cases (find_folder folders c)) [
      | inl gone ↦ (none, simp (new, gone) refl)
      | inr (f, found) ↦ elim (Option-cases f.category) [
        | inl absent ↦
            let (k, e) = folder_category-ends n (c ∷ visited) f.parent (
              omega
                (arith, remaining-visit (λ (f : Folder). f.id) c visited folders f new found)) in
            (k, simp (new, found, absent) e)
        | inr (k, present) ↦ (some k, simp (new, found, present) refl)
      ]
    ]
  ]
