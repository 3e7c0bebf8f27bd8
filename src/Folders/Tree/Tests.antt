-- ===== src/Folders/Tree/Tests.antt =====
-- Two folders, the second below the first, and an attempt to move the first below the second.
use docsmint.Prelude.{◌≡◌, refl, false, none, some, List, [], ◌∷◌}
use docsmint.Folders.Names.{next_available_folder_name}
use docsmint.Folders.Tree.{
  Folder, Access, NewFolder, Changes, Outcome, refused, cycle, changed, new_row, parent_of,
  ancestors, effective_category, finds_above, sibling_names, changed_row, update_rows,
}
use docsmint.Folders.Tree.Routes.{
  create_folder, update_folder, delete_folder, insert_row, check_new, create_in, write_changes,
  check_cycle, check_parent, destination, check_destination, check_source,
}
use docsmint.Folders.Tree.Forest.{IsForest}
use docsmint.Folders.Tree.Histories.{
  Reach, start, next, created, Reach-IsForest, operations_end, nothing-IsForest,
}

abbrev owner : Access
owner = record { is_external = false; is_restricted = false; category = none }

abbrev notes : NewFolder
notes = record { name = 110 ∷ []; parent = none; category = none }

abbrev drafts : NewFolder
drafts = record { name = 100 ∷ []; parent = some 1; category = none }

abbrev one : List Folder
one = new_row 1 none none (110 ∷ []) ∷ []

abbrev two : List Folder
two = new_row 1 none none (110 ∷ []) ∷ new_row 2 (some 1) none (100 ∷ []) ∷ []

abbrev below_drafts : Changes
below_drafts = record { name = none; parent = some (some 2); category = none; order = none }

unfoldable operations : Unit {0}
unfolding parent_of ancestors effective_category finds_above sibling_names changed_row update_rows
    insert_row check_new create_in create_folder write_changes check_cycle check_parent destination
    check_destination check_source update_folder next_available_folder_name
operations = tt

create-notes : create_folder owner [] 1 notes [] ≡ some (changed one false)
unfolding operations
create-notes = refl

create-drafts : create_folder owner [] 2 drafts one ≡ some (changed two false)
unfolding operations
create-drafts = refl

test-cycle : update_folder owner [] 1 below_drafts two ≡ some (refused cycle)
unfolding operations
test-cycle = refl

history : Reach [] two
history =
    next (next start (created owner [] 1 notes false refl create-notes))
      (created owner [] 2 drafts false refl create-drafts)

Reach-IsForest_example : IsForest two
Reach-IsForest_example = Reach-IsForest [] two nothing-IsForest history

operations_end_example :
    ((a : Outcome) × (create_folder owner [] 3 notes two ≡ some a))
    × ((a : Outcome) × (update_folder owner [] 1 below_drafts two ≡ some a))
    × ((a : Outcome) × (delete_folder owner [] 1 two ≡ some a))
operations_end_example = operations_end two owner [] 1 3 notes below_drafts history refl
