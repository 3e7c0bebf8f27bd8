-- ===== src/Folders/Names.antt =====
-- `nextAvailableFolderName` of backend/src/lib/folder-name.ts. A name is a list of UTF-16 code units.
-- The loop has no bound in the source; here it has fuel, and returns `none` only without it.
mod Digits
pub mod Free
mod Tests
use mathlib.Core.List.{reverse}
use docsmint.Prelude.{
  ℕ, zero, suc, ◌+◌, ◌-◌, ◌/◌, ◌%◌, Bool, true, false, ◌&&◌, ◌||◌, Option, none, some, List, [],
  ◌∷◌, ◌++◌, ◌==◌, ltb, if◌then◌else◌, length, take, any,
}

abbrev pub Name : Type 0
Name = List ℕ

abbrev pub max_folder_name_length : ℕ
max_folder_name_length = 255

abbrev pub same_name : Name → Name → Bool
same_name [] [] = true
same_name (x ∷ xs) (y ∷ ys) = x == y && same_name xs ys
same_name _ _ = false

-- `occupied.has(name)`
abbrev pub is_occupied : List Name → Name → Bool
is_occupied names name = any (λ s. same_name s name) names

-- The decimal digits of a number below `fuel`, the least first.
unfoldable pub reversed_digits : ℕ → ℕ → List ℕ
reversed_digits zero n = []
reversed_digits (suc fuel) n =
    (48 + n % 10) ∷ (if ltb n 10 then [] else reversed_digits fuel (n / 10))

-- `${n}`; 32 is the space.
unfoldable pub suffix : ℕ → Name
suffix n = 32 ∷ reverse (reversed_digits (suc n) n)

-- `name.slice(0, MAX_FOLDER_NAME_LENGTH - suffix.length)`; a negative end counts from the name's.
unfoldable pub base : Name → ℕ → Name
base name k =
    if ltb max_folder_name_length k
    then take (length name - (k - max_folder_name_length)) name
    else take (max_folder_name_length - k) name

unfoldable pub candidate : Name → ℕ → Name
candidate name sequence = base name (length (suffix sequence)) ++ suffix sequence

unfoldable pub search_name : ℕ → Name → List Name → ℕ → Option Name
search_name zero name names sequence = none
search_name (suc fuel) name names sequence =
    if is_occupied names (candidate name sequence)
    then search_name fuel name names (sequence + 1)
    else some (candidate name sequence)

-- One round more than there are names.
unfoldable pub next_available_folder_name : Name → List Name → Option Name
next_available_folder_name name names =
    if is_occupied names name then search_name (length names + 1) name names 2 else some name
