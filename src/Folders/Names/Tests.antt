-- ===== src/Folders/Names/Tests.antt =====
-- The name "a" beside siblings "a" and "a 2".
use docsmint.Prelude.{◌≡◌, refl, some, List, [], ◌∷◌}
use docsmint.Folders.Names.{
  Name, next_available_folder_name, suffix, reversed_digits, search_name, candidate, base,
}
use docsmint.Folders.Names.Free.{IsAvailable, next_available_folder_name_ends}

abbrev siblings : List Name
siblings = (97 ∷ []) ∷ (97 ∷ 32 ∷ 50 ∷ []) ∷ []

test-next_available_folder_name :
    next_available_folder_name (97 ∷ []) siblings ≡ some (97 ∷ 32 ∷ 51 ∷ [])
unfolding next_available_folder_name suffix reversed_digits search_name candidate base
test-next_available_folder_name = refl

test-suffix : suffix 105 ≡ 32 ∷ 49 ∷ 48 ∷ 53 ∷ []
unfolding suffix reversed_digits
test-suffix = refl

next_available_folder_name_ends_example :
    (r : Name) × (next_available_folder_name (97 ∷ []) siblings ≡ some r)
    × IsAvailable (97 ∷ []) siblings r
next_available_folder_name_ends_example = next_available_folder_name_ends (97 ∷ []) siblings
