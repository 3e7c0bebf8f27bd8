-- ===== src/Sharing/Spread.antt =====
-- The walk of `resolveShareDocumentScope` down from a shared folder: `byParent`, the stack `pending`
-- and the set `folderIds`. Each round pops one identifier, and a folder is pushed once at most, when
-- its parent is visited, so that two more rounds than there are folders are enough.
pub mod Reached
use docsmint.Prelude.{
  has, ℕ, zero, suc, ◌+◌, Bool, true, false, Option, none, some, List, [], ◌∷◌, ◌==◌, if◌then◌else◌,
  length, map, keep, is_id,
}
use docsmint.Sharing.Tables.{Folder}

-- `pending.push(...ids)`, with the top of the stack first.
unfoldable pub push_all : List ℕ → List ℕ → List ℕ
push_all [] pending = pending
push_all (x ∷ xs) pending = push_all xs (x ∷ pending)

module _ (folders : List Folder) where
  -- `byParent.get(current) ?? []`
  abbrev pub children : ℕ → List ℕ
  children c = map (λ f. f.id) (keep (λ f. is_id f.parent c) folders)

  -- The loop; `none` if the rounds run out.
  unfoldable pub spread : ℕ → List ℕ → List ℕ → Option (List ℕ)
  spread zero pending visited = none
  spread (suc n) [] visited = some visited
  spread (suc n) (c ∷ pending) visited =
      let skipped = spread n pending visited in
      let entered = spread n (push_all (children c) pending) (c ∷ visited) in
      if has visited c then skipped else entered

  -- `folderIds`
  unfoldable pub folder_ids : Option ℕ → Option (List ℕ)
  folder_ids none = some []
  folder_ids (some root) = spread (length folders + 2) (root ∷ []) []
