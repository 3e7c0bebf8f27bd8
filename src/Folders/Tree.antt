-- ===== src/Folders/Tree.antt =====
-- The folders of one tenant, and the operations of backend/src/api/routes/folders.ts that change them.
-- Every query of theirs is restricted to the tenant's rows (tenantOwnerCondition), and so is the table
-- here. An operation runs in one transaction under the tenant's topology lock, so that it is one step.
-- A request that reaches it has passed the rate limit and the parsing of its input.
pub mod Routes
mod Forest
mod Rows
mod Moves
mod Ends
mod Operations
mod Histories
mod Tests
use docsmint.Prelude.{
  has, ℕ, zero, suc, ◌+◌, Bool, true, false, not, ◌&&◌, ◌||◌, Option, none, some, List, [], ◌∷◌,
  ◌++◌, map, ◌==◌, if◌then◌else◌, length, keep, find?, any, is_id,
}
use docsmint.Folders.Names.{Name, next_available_folder_name}

pub record Folder : Type 0 where
  pub id : ℕ
  pub name : Name
  pub parent : Option ℕ
  pub category : Option ℕ
  pub order : ℕ

-- What `isAuthorizedCategory` reads of the access; `category` is the category that it is restricted to.
pub record Access : Type 0 where
  pub is_external : Bool
  pub is_restricted : Bool
  pub category : Option ℕ

-- The input of a new folder, and the changes of an old one: an absent field is `none`, and `some none`
-- is the field that was sent as null.
pub record NewFolder : Type 0 where
  pub name : Name
  pub parent : Option ℕ
  pub category : Option ℕ

pub record Changes : Type 0 where
  pub name : Option Name
  pub parent : Option (Option ℕ)
  pub category : Option (Option ℕ)
  pub order : Option ℕ

pub data Refusal : Type 0 where
  empty_changes not_found forbidden self_parent parent_missing cycle category_missing : Refusal

-- `changed folders b`: the new table, and whether `snapshotMetadataImpact` records the documents below
-- the folder.
pub data Outcome : Type 0 where
  refused : Refusal → Outcome
  changed : List Folder → Bool → Outcome

abbrev pub find_folder : List Folder → ℕ → Option Folder
find_folder folders n = find? (λ f. f.id == n) folders

abbrev pub is_given : {A : Type 0} → Option A → Bool
is_given none = false
is_given (some x) = true

abbrev pub exists_folder : List Folder → ℕ → Bool
exists_folder folders n = is_given (find_folder folders n)

abbrev pub row_parent : Option Folder → Option ℕ
row_parent none = none
row_parent (some f) = f.parent

-- `isAuthorizedCategory`
abbrev pub is_authorized : Access → Option ℕ → Bool
is_authorized a category =
    (a.is_external && not a.is_restricted)
    || not a.is_restricted
    || elim category [ none ↦ false | some k ↦ is_id a.category k ]

-- The category that the first of these folders with one has.
abbrev pub first_category : List Folder → Option ℕ
first_category [] = none
first_category (f ∷ fs) = elim f.category [ none ↦ first_category fs | some k ↦ some k ]

abbrev pub category_of : Option (List Folder) → Option (Option ℕ)
category_of none = none
category_of (some fs) = some (first_category fs)

-- A row of the recursive query, and the rows above it.
abbrev pub with_row : Option Folder → Option (List Folder) → Option (List Folder)
with_row none rest = some []
with_row (some f) none = none
with_row (some f) (some fs) = some (f ∷ fs)

module _ (folders : List Folder) where
  -- `parentById.get(id) ?? null`
  unfoldable pub parent_of : ℕ → Option ℕ
  parent_of n = row_parent (find_folder folders n)

  abbrev pub rounds : ℕ
  rounds = length folders + 2

  -- The recursive query of `resolveFolderEffectiveCategory`, the lowest folder first; `none` if the
  -- fuel runs out.
  unfoldable pub ancestors : ℕ → Option ℕ → Option (List Folder)
  ancestors zero current = none
  ancestors (suc n) none = some []
  ancestors (suc n) (some c) =
      let rest = ancestors n (parent_of c) in with_row (find_folder folders c) rest

  -- `resolveFolderEffectiveCategory(…) ?? null`
  unfoldable pub effective_category : Option ℕ → Option (Option ℕ)
  effective_category current = category_of (ancestors rounds current)

  -- The loop that looks for the moved folder above its new parent.
  unfoldable pub finds_above : ℕ → ℕ → List ℕ → Option ℕ → Option Bool
  finds_above zero id visited ancestor = none
  finds_above (suc n) id visited none = some false
  finds_above (suc n) id visited (some c) =
      let rest = finds_above n id (c ∷ visited) (parent_of c) in
      if has visited c then some false else if c == id then some true else rest

-- `eq` or `isNull` of a column.
abbrev same_id : Option ℕ → Option ℕ → Bool
same_id a none = not (is_given a)
same_id a (some n) = is_id a n

-- The names in the place of a new folder.
unfoldable pub sibling_names : Option ℕ → Option ℕ → List Folder → List Name
sibling_names none category folders =
    map (λ f. f.name) (keep (λ f. not (is_given f.parent) && same_id f.category category) folders)
sibling_names (some p) category folders = map (λ f. f.name) (keep (λ f. is_id f.parent p) folders)

abbrev pub new_row : ℕ → Option ℕ → Option ℕ → Name → Folder
new_row id parent category name = record {
  id = id;
  name = name;
  parent = parent;
  category = category;
  order = 0;
}

-- The row after an update.
unfoldable pub changed_row : Changes → Folder → Folder
changed_row c f = record {
  id = f.id;
  name = elim c.name [ none ↦ f.name | some n ↦ n ];
  parent = elim c.parent [ none ↦ f.parent | some p ↦ p ];
  category = elim c.parent [
    | some (some p) ↦ none
    | _ ↦ elim c.category [ none ↦ f.category | some k ↦ k ]
  ];
  order = elim c.order [ none ↦ f.order | some n ↦ n ];
}

unfoldable pub update_rows : ℕ → Changes → List Folder → List Folder
update_rows id c folders = map (λ f. if f.id == id then changed_row c f else f) folders

-- `ON DELETE SET NULL` of the column parent_id.
abbrev pub detach : ℕ → Folder → Folder
detach id f = record f { parent = if is_id f.parent id then none else f.parent }

unfoldable pub delete_row : ℕ → List Folder → List Folder
delete_row id folders = map (detach id) (keep (λ f. not (f.id == id)) folders)

abbrev pub metadata_changed : Changes → Bool
metadata_changed c = is_given c.name || is_given c.parent || is_given c.category
