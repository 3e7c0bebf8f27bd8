-- ===== src/Folders/Tree/Routes.antt =====
-- The routes of backend/src/api/routes/folders.ts that create, change and delete a folder, with the
-- checks that they make in their transaction.
use docsmint.Prelude.{
  has, ℕ, Bool, true, false, not, ◌&&◌, ◌||◌, Option, none, some, List, [], ◌∷◌, ◌++◌, ◌==◌,
  if◌then◌else◌,
}
use docsmint.Folders.Names.{Name, next_available_folder_name}
use docsmint.Folders.Tree.{
  Folder, Access, NewFolder, Changes, empty_changes, not_found, forbidden, self_parent,
  parent_missing, cycle, category_missing, Outcome, refused, changed, is_given, exists_folder,
  is_authorized, rounds, effective_category, finds_above, sibling_names, new_row, update_rows,
  delete_row, metadata_changed,
}

-- The operations, for a tenant with these categories; an operation returns `none` only if the fuel of
-- one of its walks runs out.
module _ (access : Access) (categories : List ℕ) where
  -- The part behind the checks, with the name that was allocated.
  unfoldable pub insert_row : ℕ → Option ℕ → Option ℕ → Option Name → List Folder → Option Outcome
  insert_row id parent category none folders = none
  insert_row id parent category (some name) folders =
      some (changed (folders ++ new_row id parent category name ∷ []) false)

  unfoldable pub check_new :
      ℕ → NewFolder → Option ℕ → List Folder → Option (Option ℕ) → Option Outcome
  check_new id input category folders none = none
  check_new id input category folders (some effective) =
      if not (is_authorized access effective)
      then some (refused forbidden)
      else if elim input.parent [ none ↦ false | some p ↦ not (exists_folder folders p) ]
      then some (refused parent_missing)
      else if elim category [ none ↦ false | some k ↦ not (has categories k) ]
      then some (refused category_missing)
      else insert_row id input.parent category
          (next_available_folder_name input.name (sibling_names input.parent category folders))
          folders

  -- The place of a new folder: below a parent, or at the top with a category.
  unfoldable pub create_in : ℕ → NewFolder → List Folder → Option ℕ → Option Outcome
  create_in id input folders (some p) =
      check_new id input none folders (effective_category folders (some p))
  create_in id input folders none = check_new id input input.category folders (some input.category)

  -- The route that creates a folder; `id` is the identifier that the database chooses.
  unfoldable pub create_folder : ℕ → NewFolder → List Folder → Option Outcome
  create_folder id input folders = create_in id input folders input.parent

  unfoldable pub write_changes : ℕ → Changes → List Folder → Option Outcome
  write_changes id c folders = some (changed (update_rows id c folders) (metadata_changed c))

  -- What the walk above the new parent found.
  unfoldable pub check_cycle : ℕ → Changes → List Folder → Option Bool → Option Outcome
  check_cycle id c folders none = none
  check_cycle id c folders (some true) = some (refused cycle)
  check_cycle id c folders (some false) = write_changes id c folders

  -- The tests of the new parent, or of the category of a folder that is put at the top.
  unfoldable pub check_parent : ℕ → Changes → List Folder → Option (Option ℕ) → Option Outcome
  check_parent id c folders none = write_changes id c folders
  check_parent id c folders (some none) =
      if elim c.category [ some (some k) ↦ not (has categories k) | _ ↦ false ]
      then some (refused category_missing)
      else write_changes id c folders
  check_parent id c folders (some (some p)) =
      if p == id
      then some (refused self_parent)
      else if not (exists_folder folders p)
      then some (refused parent_missing)
      else check_cycle id c folders (finds_above folders (rounds folders) id [] (some p))

  -- `destinationCategory`; without a new parent and a new category it is the old one.
  unfoldable pub destination :
      Changes → List Folder → Option ℕ → Option (Option ℕ) → Option (Option ℕ)
  destination c folders source (some (some p)) = effective_category folders (some p)
  destination c folders source _ = elim c.category [ none ↦ some source | some k ↦ some k ]

  unfoldable pub check_destination : ℕ → Changes → List Folder → Option (Option ℕ) → Option Outcome
  check_destination id c folders none = none
  check_destination id c folders (some target) =
      if (is_given c.parent || is_given c.category) && not (is_authorized access target)
      then some (refused forbidden)
      else check_parent id c folders c.parent

  unfoldable pub check_source : ℕ → Changes → List Folder → Option (Option ℕ) → Option Outcome
  check_source id c folders none = none
  check_source id c folders (some source) =
      if not (is_authorized access source)
      then some (refused forbidden)
      else check_destination id c folders (destination c folders source c.parent)

  -- The route that changes a folder.
  unfoldable pub update_folder : ℕ → Changes → List Folder → Option Outcome
  update_folder id c folders =
      if not (metadata_changed c) && not (is_given c.order)
      then some (refused empty_changes)
      else if not (exists_folder folders id)
      then some (refused not_found)
      else check_source id c folders (effective_category folders (some id))

  unfoldable pub check_delete : ℕ → List Folder → Option (Option ℕ) → Option Outcome
  check_delete id folders none = none
  check_delete id folders (some category) =
      if not (is_authorized access category)
      then some (refused forbidden)
      else if not (exists_folder folders id)
      then some (refused not_found)
      else some (changed (delete_row id folders) true)

  -- The route that deletes a folder.
  unfoldable pub delete_folder : ℕ → List Folder → Option Outcome
  delete_folder id folders = check_delete id folders (effective_category folders (some id))
