-- ===== src/Sharing/Climb.antt =====
-- The walks up a folder's parent chain. A walk has fuel, and returns `none` only if that runs out;
-- each round visits a folder of the table that was not visited, so that one more than the number of
-- folders is enough.
mod Total
pub mod Under
pub mod Category
use docsmint.Prelude.{
  has, ℕ, zero, suc, ◌+◌, Bool, true, false, Option, none, some, List, [], ◌∷◌, ◌==◌, if◌then◌else◌,
  length,
}
use docsmint.Sharing.Tables.{Folder, find_folder}

module _ (folders : List Folder) where
  -- Enough rounds for every walk.
  abbrev pub rounds : ℕ
  rounds = length folders + 1

  -- The loop of `isFolderDescendant`.
  unfoldable pub climb : ℕ → ℕ → List ℕ → Option ℕ → Option Bool
  climb root zero visited current = none
  climb root (suc n) visited none = some false
  climb root (suc n) visited (some c) =
      if c == root
      then some true
      else if has visited c
      then some false
      else elim (find_folder folders c) [
        | none ↦ some false
        | some f ↦ climb root n (c ∷ visited) f.parent
      ]

  unfoldable pub is_folder_descendant : ℕ → ℕ → Option Bool
  is_folder_descendant target root =
      if target == root then some true else climb root rounds [] (some target)

  -- The loop of `shareTokenAccessForDocument` that looks for the category of a document.
  unfoldable pub inherit : ℕ → List ℕ → Option ℕ → Option ℕ → Option (Option ℕ)
  inherit zero visited category current = none
  inherit (suc n) visited (some k) current = some (some k)
  inherit (suc n) visited none none = some none
  inherit (suc n) visited none (some c) =
      if has visited c then some none else elim (find_folder folders c) [
        | none ↦ some none
        | some f ↦ inherit n (c ∷ visited) f.category f.parent
      ]

  -- The loop of `effectiveFolderCategory`; identifiers are a key, so that `foldersById` finds the row
  -- that `find_folder` finds.
  unfoldable pub folder_category : ℕ → List ℕ → Option ℕ → Option (Option ℕ)
  folder_category zero visited current = none
  folder_category (suc n) visited none = some none
  folder_category (suc n) visited (some c) =
      if has visited c then some none else elim (find_folder folders c) [
        | none ↦ some none
        | some f ↦ elim f.category [
          | some k ↦ some (some k)
          | none ↦ folder_category n (c ∷ visited) f.parent
        ]
      ]
