-- ===== src/Embedding/Generation.antt =====
-- backend/src/embedding/generation.ts and searchable-generation.ts: candidate and active embedding
-- generations of a document. The tables are lists of rows, UUIDs are numbers, an update or a delete
-- acts on every row that its condition picks, and a `null` column is `none`. The transaction of
-- `withTenant` keeps the new tables if its body returns, and the old ones if it throws.
mod Defs
unfoldable pub use Defs.*
mod Rows
pub mod Activation
pub mod Invariant
pub mod Searchable
pub mod Failure
mod Tests
use Prim.Native.String.{String}
use text.Mathlib.Text.{◌==◌ as str_eq}
use docsmint.Prelude.{
  ℕ, ◌≡◌, Bool, true, false, not, ◌&&◌, ◌||◌, Option, none, some, List, [], ◌∷◌, map, leb, ◌==◌,
  if◌then◌else◌, is_id, length, take, head?, keep, any, find?,
}

begin_row : ℕ → Document → Document
begin_row gen d = record d { status = processing; candidate = some gen; error_code = none }

-- `beginEmbeddingGeneration`; the new UUID is an argument.
pub begin_generation : ℕ → ℕ → Tables → Tables
unfolding begin_row
begin_generation doc gen t = record t {
  documents = update_where (owned doc) (begin_row gen) t.documents;
}

pub same_text : Option String → Option String → Bool
same_text none none = true
same_text (some a) (some b) = str_eq a b
same_text _ _ = false

-- `x !== undefined && stored !== x`
hash_differs : Option String → Option String → Bool
hash_differs stored none = false
hash_differs stored (some h) = not (same_text stored (some h))

pub already_active : ℕ → Document → Bool
already_active gen d = is_id d.active gen && elim d.candidate [ none ↦ true | some _ ↦ false ]

-- A missing or empty `profile` falls back to the first row's.
expected_profile : Option ProfileArg → EmbeddingRow → String
expected_profile none r = r.profile
expected_profile (some (id_of p)) r = if str_eq p "" then r.profile else p
expected_profile (some (full m n p)) r = p

expected_model : Option ProfileArg → EmbeddingRow → String
expected_model (some (full m n p)) r = m
expected_model _ r = r.model

expected_dimensions : Option ProfileArg → ℕ
expected_dimensions (some (full m n p)) = n
expected_dimensions _ = 1024

-- The negation of the test in `rows.some(…)`.
pub accepts : String → String → ℕ → EmbeddingRow → Bool
accepts p m n r = r.is_valid && str_eq r.profile p && str_eq r.model m && r.dimensions == n

pub activate_row : ℕ → ℕ → String → Option String → Document → Document
activate_row now gen p hash d = record d {
  active = some gen;
  candidate = none;
  profile = some p;
  context_hash = elim hash [ none ↦ d.context_hash | some h ↦ some h ];
  status = ready;
  error_code = none;
  updated_at = some now;
}

-- The update and the delete that end the transaction, and what they leave.
pub promoted : ℕ → ℕ → ℕ → String → Option String → Tables → Tables
promoted now doc gen p hash t = record t {
  documents = update_where (waits doc gen) (activate_row now gen p hash) t.documents;
  embeddings = keep (λ r. not (r.document == doc && not (r.generation == gen))) t.embeddings;
}

promote : ℕ → ℕ → ℕ → String → Option String → Tables → Outcome Tables
promote now doc gen p hash t =
    throw_if (not (length (keep (waits doc gen) t.documents) == 1)) generation_not_pending
    >> ok (promoted now doc gen p hash t)

is_cancelled : Option PipelineRun → Bool
is_cancelled none = false
is_cancelled (some r) = r.cancelled

module _ (now doc gen expected : ℕ) (profile : Option ProfileArg) (hash : Option String) where
  -- The part after `documentState?.pending !== generationId`; `rows` are the candidate's.
  check_rows : List EmbeddingRow → Tables → Outcome Tables
  check_rows [] t = throw generation_incomplete
  check_rows (r ∷ rows) t =
      let p = expected_profile profile r in
      let n = expected_dimensions profile in
      throw_if (not (length (r ∷ rows) == expected)) generation_incomplete
      >> (throw_if
            (str_eq p ""
              || not (n == 1024)
              || any (λ x. not (accepts p (expected_model profile r) n x)) (r ∷ rows))
            generation_invalid_profile
          >> promote now doc gen p hash t)

  check_document : Option Document → Tables → Outcome Tables
  check_document none t = throw generation_not_pending
  check_document (some d) t =
      if already_active gen d
      then throw_if (hash_differs d.context_hash hash) generation_context_mismatch >> ok t
      else throw_if (not (is_id d.candidate gen)) generation_not_pending
        >> check_rows (keep (staged doc gen) t.embeddings) t

  -- The body of the transaction of `activateEmbeddingGeneration`.
  pub activate_generation : Tables → Outcome Tables
  unfolding is_cancelled
  activate_generation t =
      throw_if (is_cancelled (find? (λ r. r.generation == gen) t.runs)) pipeline_cancelled
      >> check_document (find? (owned doc) t.documents) t

-- The tables after the transaction.
abbrev pub committed : Tables → Outcome Tables → Tables
committed t (ok u) = u
committed t (throw e) = t

-- `/[^a-zA-Z0-9_-]/` on a UTF-16 code unit.
pub safe_unit : ℕ → Bool
safe_unit c =
    (leb b'a' c && leb c b'z')
    || (leb b'A' c && leb c b'Z')
    || (leb b'0' c && leb c b'9')
    || c == b'_'
    || c == b'-'

-- `code.slice(0, 64).replace(…, "_")`
pub safe_code : List ℕ → List ℕ
unfolding safe_unit
safe_code code = map (λ c. if safe_unit c then c else b'_') (take 64 code)

-- The code units of "unknown".
abbrev unknown : List ℕ
unknown = b'u' ∷ b'n' ∷ b'k' ∷ b'n' ∷ b'o' ∷ b'w' ∷ b'n' ∷ []

pub or_unknown : List ℕ → List ℕ
or_unknown [] = unknown
or_unknown (c ∷ cs) = c ∷ cs

fail_row : LifecycleState → List ℕ → Document → Document
fail_row s code d = record d { status = s; error_code = some (or_unknown code); candidate = none }

abbrev active_of : Option Document → Option ℕ
active_of none = none
active_of (some d) = d.active

abbrev status_after : Option ℕ → LifecycleState
status_after none = failed
status_after (some _) = ready

-- `failEmbeddingGeneration`
pub fail_generation : ℕ → ℕ → List ℕ → Tables → Tables
unfolding fail_row safe_code
fail_generation doc gen code t =
    let active = active_of (find? (owned doc) t.documents) in
    if is_id active gen then t else record t {
      embeddings = keep (λ r. not (staged doc gen r)) t.embeddings;
      documents =
          update_where (waits doc gen) (fail_row (status_after active) (safe_code code))
            t.documents;
    }

-- `hasSearchableActiveGeneration`, on a row and the document that it is joined with.
pub is_searchable : Document → EmbeddingRow → Bool
unfolding same_text
is_searchable d r =
    is_id d.active r.generation
    && not (is_id d.candidate r.generation)
    && r.is_valid
    && r.dimensions == 1024
    && same_text d.profile (some r.profile)
