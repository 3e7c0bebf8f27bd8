-- ===== src/Versions.antt =====
-- backend/src/lib/version-prune.ts: a document's auto-saved versions beyond the newest ones are deleted.
-- The state is the table of versions and the keys of the debounce with their expiry, in seconds.
pub mod Pruned
mod Tests
use docsmint.Prelude.{
  ℕ, ◌+◌, ◌-◌, Bool, true, false, not, ◌&&◌, ◌||◌, Option, none, some, List, [], ◌∷◌, map, length,
  take, keep, any, has, ◌==◌, if◌then◌else◌, ltb, leb, sort_by,
}

-- The columns of a version that the queries read.
pub record Version : Type 0 where
  pub id : ℕ
  pub document : ℕ
  pub is_snapshot : Bool
  pub created_at : ℕ

-- A key of the debounce.
pub record Cooldown : Type 0 where
  pub document : ℕ
  pub expires : ℕ

pub record Store : Type 0 where
  pub versions : List Version
  pub cooldowns : List Cooldown

abbrev pub prune_debounce_seconds : ℕ
prune_debounce_seconds = 60

-- `and(eq(versions.documentId, documentId), eq(versions.isSnapshot, false))`
abbrev pub is_auto_saved : ℕ → Version → Bool
is_auto_saved d v = v.document == d && not v.is_snapshot

abbrev pub auto_saved : ℕ → List Version → List Version
auto_saved d rows = keep (is_auto_saved d) rows

-- `orderBy(asc(versions.createdAt), asc(versions.id))`
abbrev pub listed_after : Version → Version → Bool
listed_after a b = ltb b.created_at a.created_at || (a.created_at == b.created_at && ltb b.id a.id)

abbrev pub ids_of : List Version → List ℕ
ids_of vs = map (λ v. v.id) vs

-- The versions that the second query selects; without more than the retention there is none.
unfoldable pub stale_versions : ℕ → ℕ → List Version → List Version
stale_versions retention d rows =
    let count = length (auto_saved d rows) in
    if leb count retention
    then []
    else take (count - retention) (sort_by listed_after (auto_saved d rows))

unfoldable pub prune_rows : ℕ → ℕ → List Version → List Version
prune_rows retention d rows =
    keep (λ v. not (has (ids_of (stale_versions retention d rows)) v.id)) rows

-- Whether the key of the document is still there, so that `NX` sets nothing.
abbrev pub is_cooling : ℕ → ℕ → List Cooldown → Bool
is_cooling now d keys = any (λ k. k.document == d && ltb now k.expires) keys

-- `maybePruneVersions` at the time `now`; a failure of the transaction, which is logged, leaves its rows.
unfoldable pub maybe_prune_versions : ℕ → ℕ → ℕ → Bool → Store → Store
maybe_prune_versions retention now d fails s = if is_cooling now d s.cooldowns then s else record {
  versions = if fails then s.versions else prune_rows retention d s.versions;
  cooldowns = record { document = d; expires = now + prune_debounce_seconds } ∷ s.cooldowns;
}
