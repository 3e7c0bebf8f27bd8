-- ===== src/Versions/Tests.antt =====
-- Four auto-saved versions and a snapshot, of which two auto-saved ones are kept.
use docsmint.Prelude.{
  ℕ, ◌≡◌, refl, Bool, true, false, List, [], ◌∷◌, map, length, insert_by, sort_by, arith,
}
use docsmint.Versions.{Version, Store, stale_versions, prune_rows, maybe_prune_versions}
use docsmint.Versions.Pruned.{IsKeyed, IsPruned, prune_rows-IsPruned}

abbrev version : ℕ → Bool → ℕ → Version
version n snapshot time = record { id = n; document = 7; is_snapshot = snapshot; created_at = time }

abbrev rows : List Version
rows =
    version 1 false 30
    ∷ version 2 false 10
    ∷ version 3 true 5
    ∷ version 4 false 20
    ∷ version 5 false 20
    ∷ []

rows-IsKeyed : IsKeyed rows
rows-IsKeyed n = ground arith

test-prune : map (λ v. v.id) (prune_rows 2 7 rows) ≡ 1 ∷ 3 ∷ 5 ∷ []
unfolding prune_rows stale_versions sort_by insert_by
test-prune = refl

abbrev store : Store
store = record { versions = rows; cooldowns = [] }

-- The second call is within the minute.
test-debounce :
    length (maybe_prune_versions 1 150 7 false (maybe_prune_versions 2 100 7 false store)).versions
    ≡ 3
unfolding maybe_prune_versions prune_rows stale_versions sort_by insert_by
test-debounce = refl

prune_rows-IsPruned_example : IsPruned 2 7 rows (prune_rows 2 7 rows)
prune_rows-IsPruned_example = prune_rows-IsPruned 2 7 rows rows-IsKeyed
