-- ===== src/Sharing/Climb/Category.antt =====
-- The two walks that look for a document's category give the same answer.
use docsmint.Prelude.{
  remaining_le, has, ℕ, zero, suc, ◌≡◌, inl, inr, Option, none, some, List, [], ◌∷◌, arith,
  Bool-cases, Option-cases,
}
use docsmint.Sharing.Tables.{Folder, find_folder}
use docsmint.Sharing.Climb.{inherit, folder_category, rounds}
use docsmint.Sharing.Climb.Total.{folder_category-ends}

module _ (folders : List Folder) where
  inherit-folder_category :
      (n : ℕ) (visited : List ℕ) (current k : Option ℕ)
      → folder_category folders n visited current ≡ some k
      → inherit folders (suc n) visited none current ≡ some k
  unfolding inherit folder_category
  inherit-folder_category zero visited current k h = absurd (ground arith)
  inherit-folder_category (suc n) visited none k h = h
  inherit-folder_category (suc n) visited (some c) k h = elim (Bool-cases (has visited c)) [
    | inl again ↦ simp again (simp again at h)
    | inr new ↦ elim (Option-cases (find_folder folders c)) [
      | inl gone ↦ simp (new, gone) (simp (new, gone) at h)
      | inr (f, found) ↦ elim (Option-cases f.category) [
        | inl absent ↦
            simp (new, found, absent)
              (inherit-folder_category n (c ∷ visited) f.parent k (simp (new, found, absent) at h))
        | inr (m, present) ↦ simp (new, found, present) (simp (new, found, present) at h)
      ]
    ]
  ]

  -- Both loops find a category, and the same one: what the folder chain of a document inherits.
  pub inherit_agrees :
      (current : Option ℕ)
      → (k : Option ℕ) × (folder_category folders (rounds folders) [] current ≡ some k)
        × (inherit folders (suc (rounds folders)) [] none current ≡ some k)
  inherit_agrees current =
      let (k, e) =
        folder_category-ends folders (rounds folders) [] current
          (omega (arith, remaining_le (λ (f : Folder). f.id) [] folders)) in
      (k, e, inherit-folder_category (rounds folders) [] current k e)
