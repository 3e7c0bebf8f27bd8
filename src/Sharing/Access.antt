-- ===== src/Sharing/Access.antt =====
-- `shareTokenAccessForDocument` and `resolveShareDocumentScope` over one state of the tables. The
-- outer `none` of a result is a walk that ran out of rounds.
mod Rows
mod Agree
mod Tests
use Prim.Native.String.{String}
use docsmint.Prelude.{
  has, ℕ, suc, Bool, true, false, ◌&&◌, Option, none, some, List, [], ◌∷◌, map, ◌==◌, if◌then◌else◌,
  is_id, keep,
}
use docsmint.Sharing.Tables.{Folder, Document, Link, Tables, find_document, find_link, has_expired}
use docsmint.Sharing.Climb.{rounds, is_folder_descendant, inherit, folder_category}
use docsmint.Sharing.Spread.{folder_ids}

pub data Access : Type 0 where
  granted expired missing no_access : Access

-- The test of `doc?.folderId && isFolderDescendant(…)`.
abbrev pub lies_under : List Folder → ℕ → Option Document → Option Bool
lies_under folders root none = some false
lies_under folders root (some d) = elim d.folder [
  | none ↦ some false
  | some f ↦ is_folder_descendant folders f root
]

-- The test of `effectiveCategoryId === link.categoryId`.
abbrev pub inherits : List Folder → ℕ → Option Document → Option Bool
inherits folders k none = some false
inherits folders k (some d) = elim (inherit folders (suc (rounds folders)) [] d.category d.folder) [
  | none ↦ none
  | some category ↦ some (is_id category k)
]

unfoldable pub folder_grants : Tables → ℕ → Option ℕ → Option Bool
folder_grants t doc none = some false
folder_grants t doc (some root) = lies_under t.folders root (find_document t.documents doc)

unfoldable pub category_grants : Tables → ℕ → Option ℕ → Option Bool
category_grants t doc none = some false
category_grants t doc (some k) = inherits t.folders k (find_document t.documents doc)

-- What a test that is true grants, and what happens if it is not.
abbrev pub or_else : Option Bool → Option Access → Option Access
or_else none next = none
or_else (some true) next = some granted
or_else (some false) next = next

unfoldable pub link_access : Tables → ℕ → Link → Option Access
link_access t doc l =
    if is_id l.document doc
    then some granted
    else or_else (folder_grants t doc l.folder)
        (or_else (category_grants t doc l.category) (some no_access))

-- `shareTokenAccessForDocument`
unfoldable pub share_token_access : ℕ → Tables → ℕ → ℕ → Option Access
share_token_access now t doc token = elim (find_link t.links token) [
  | none ↦ some missing
  | some l ↦ if has_expired now l.expires_at then some expired else link_access t doc l
]

pub record Scope : Type 0 where
  pub owner_id : ℕ
  pub document_ids : List ℕ
  pub password_hash : Option String
  pub expires_at : Option ℕ

-- `ownerFolders`
abbrev pub owner_folders : ℕ → Option ℕ → Option ℕ → List Folder → List Folder
owner_folders owner none none folders = []
owner_folders owner _ _ folders = keep (λ f. f.owner == owner) folders

-- `document.categoryId ?? effectiveFolderCategory(document.folderId)`
abbrev pub effective_category : List Folder → Document → Option (Option ℕ)
effective_category folders d = elim d.category [
  | some k ↦ some (some k)
  | none ↦ folder_category folders (rounds folders) [] d.folder
]

-- `ownerDocuments.filter(…)`
unfoldable pub category_rows : List Folder → ℕ → List Document → Option (List Document)
category_rows folders k [] = some []
category_rows folders k (d ∷ ds) = elim (effective_category folders d) [
  | none ↦ none
  | some category ↦ elim (category_rows folders k ds) [
    | none ↦ none
    | some rest ↦ some (if is_id category k then d ∷ rest else rest)
  ]
]

-- `inArray(documents.folderId, [...folderIds])`
abbrev pub in_folders : List ℕ → Document → Bool
in_folders ids d = elim d.folder [ none ↦ false | some f ↦ has ids f ]

-- The rows of the scope; without folders, the last query is not made.
unfoldable pub scope_rows : List Folder → List Document → List ℕ → Link → Option (List Document)
scope_rows folders documents ids l = elim l.category [
  | some k ↦ category_rows folders k (keep (λ d. d.owner == l.created_by) documents)
  | none ↦ elim l.document [
    | some n ↦ some (keep (λ d. (d.owner == l.created_by) && (d.id == n)) documents)
    | none ↦ elim ids [
      | [] ↦ some []
      | i ∷ is ↦ some (keep (λ d. (d.owner == l.created_by) && in_folders (i ∷ is) d) documents)
    ]
  ]
]

abbrev pub scope_of : Link → List Document → Scope
scope_of l rows = record {
  owner_id = l.created_by;
  document_ids = map (λ d. d.id) rows;
  password_hash = l.password_hash;
  expires_at = l.expires_at;
}

unfoldable pub link_scope : Tables → Link → Option Scope
link_scope t l =
    let folders = owner_folders l.created_by l.folder l.category t.folders in
    elim (folder_ids folders l.folder) [
      | none ↦ none
      | some ids ↦ elim (scope_rows folders t.documents ids l) [
        | none ↦ none
        | some rows ↦ some (scope_of l rows)
      ]
    ]

-- `resolveShareDocumentScope`
unfoldable pub resolve_share_scope : ℕ → Tables → ℕ → Option (Option Scope)
resolve_share_scope now t token = elim (find_link t.links token) [
  | none ↦ some none
  | some l ↦
      if has_expired now l.expires_at
      then some none
      else elim (link_scope t l) [ none ↦ none | some scope ↦ some (some scope) ]
]
