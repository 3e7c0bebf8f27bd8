-- ===== src/Sharing/Tables.antt =====
-- The rows of backend/src/lib/share-access.ts, with the columns it selects. Identifiers are numbers,
-- an absent one is `none`; times are milliseconds.
use Prim.Native.String.{String}
use docsmint.Prelude.{ℕ, Bool, false, Option, none, some, List, ◌≡◌, ◌==◌, ltb, find?, All}

pub record Folder : Type 0 where
  pub id : ℕ
  pub owner : ℕ
  pub parent : Option ℕ
  pub category : Option ℕ

pub record Document : Type 0 where
  pub id : ℕ
  pub owner : ℕ
  pub folder : Option ℕ
  pub category : Option ℕ

pub record Link : Type 0 where
  pub token : ℕ
  pub created_by : ℕ
  pub document : Option ℕ
  pub folder : Option ℕ
  pub category : Option ℕ
  pub password_hash : Option String
  pub expires_at : Option ℕ

pub record Tables : Type 0 where
  pub folders : List Folder
  pub documents : List Document
  pub links : List Link

abbrev pub find_folder : List Folder → ℕ → Option Folder
find_folder folders n = find? (λ f. f.id == n) folders

abbrev pub find_document : List Document → ℕ → Option Document
find_document documents n = find? (λ d. d.id == n) documents

abbrev pub find_link : List Link → ℕ → Option Link
find_link links n = find? (λ l. l.token == n) links

-- The identifiers of a table are its key.
abbrev pub IsKeyed : List Folder → Type 0
IsKeyed folders = All (λ f. find_folder folders f.id ≡ some f) folders

-- `link.expiresAt && link.expiresAt < new Date()`
abbrev pub has_expired : ℕ → Option ℕ → Bool
has_expired now none = false
has_expired now (some e) = ltb e now
