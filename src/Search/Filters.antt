-- ===== src/Search/Filters.antt =====
-- applySearchFilters of backend/src/search/orchestrator.ts, on the rows that its queries return. A date
-- is a number of milliseconds, and titles are numbers in the order of `localeCompare`.
use docsmint.Prelude.{
  ℕ, Bool, true, false, not, ◌&&◌, Option, none, some, List, [], ◌∷◌, find?, keep, has, is_id, ◌==◌,
  if◌then◌else◌, ltb, sort_by,
}
use docsmint.Search.{Ranked}

-- A row of the query over documents and their folders.
pub record Row : Type 0 where
  pub id : ℕ
  pub folder : Option ℕ
  pub folder_owner : Option ℕ
  pub folder_workspace : Option ℕ
  pub title : ℕ
  pub created_at : ℕ

-- What `folderBelongsToTenant` reads of the tenant: the workspace of an external one.
pub record Tenant : Type 0 where
  pub user : ℕ
  pub external_workspace : Option ℕ

-- `SearchSort`
pub data Sort : Type 0 where
  relevance : Sort
  date_desc : Sort
  date_asc : Sort
  name_asc : Sort
  name_desc : Sort

-- `SearchFilters`; `date_to` is the end of the day that the filter names.
pub record Filters : Type 0 where
  pub folder : Option ℕ
  pub tags : List ℕ
  pub date_from : Option ℕ
  pub date_to : Option ℕ
  pub sort : Sort

abbrev pub is_none : {A : Type 0} → Option A → Bool
is_none none = true
is_none (some a) = false

abbrev pub belongs : Option ℕ → Row → ℕ → Bool
belongs none row user = is_id row.folder_owner user && is_none row.folder_workspace
belongs (some w) row user = is_id row.folder_workspace w

abbrev pub folder_belongs_to_tenant : Row → Tenant → Bool
folder_belongs_to_tenant row t = belongs t.external_workspace row t.user

abbrev pub in_folder : Option ℕ → Tenant → Row → Bool
in_folder none t row = true
in_folder (some f) t row = is_id row.folder f && folder_belongs_to_tenant row t

abbrev pub not_before : Option ℕ → ℕ → Bool
not_before none created = true
not_before (some from) created = not (ltb created from)

abbrev pub not_after : Option ℕ → ℕ → Bool
not_after none created = true
not_after (some to) created = not (ltb to created)

unfoldable pub passes : Filters → Tenant → Option Row → Bool
passes f t none = false
passes f t (some row) =
    in_folder f.folder t row
    && not_before f.date_from row.created_at
    && not_after f.date_to row.created_at

abbrev pub no_tags : List ℕ → Bool
no_tags [] = true
no_tags (n ∷ ns) = false

-- The comparators of the sort; an item without a row stays where it is.
abbrev pub row_after : Sort → Row → Row → Bool
row_after Sort.date_desc a b = ltb a.created_at b.created_at
row_after Sort.date_asc a b = ltb b.created_at a.created_at
row_after Sort.name_asc a b = ltb b.title a.title
row_after Sort.name_desc a b = ltb a.title b.title
row_after Sort.relevance a b = false

abbrev pub rows_after : Sort → Option Row → Option Row → Bool
rows_after s (some a) (some b) = row_after s a b
rows_after s _ _ = false

abbrev pub row_of : List Row → ℕ → Option Row
row_of rows d = find? (λ r. r.id == d) rows

module _ {S : Type 0} where
  -- `tagged` are the documents that the second query returns.
  unfoldable pub apply_search_filters :
      Filters → Tenant → List Row → List ℕ → List (Ranked S) → List (Ranked S)
  apply_search_filters f t rows tagged items =
      let with_rows = keep (λ r. passes f t (row_of rows r.document)) items in
      let with_tags =
        if no_tags f.tags then with_rows else keep (λ r. has tagged r.document) with_rows in
      sort_by (λ a b. rows_after f.sort (row_of rows a.document) (row_of rows b.document)) with_tags
