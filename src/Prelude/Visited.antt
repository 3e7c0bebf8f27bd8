-- ===== src/Prelude/Visited.antt =====
-- Sets of visited identifiers, and what a walk over rows has left to visit.
use Prim.Native.Nat.{ℕ, ◌≤◌, ◌<◌}
use mathlib.Core.Path.{◌≡◌}
use mathlib.Core.Logic.{inl, inr}
use mathlib.Core.Bool.{Bool, false, not}
use mathlib.Core.List.{List, [], ◌∷◌}
use mathlib.Core.Option.{some}
use native.Mathlib.Omega.{arith}
use docsmint.Prelude.Tests.{◌==◌, Bool-cases}
use docsmint.Prelude.Lists.{any, keep, find?, length, length-keep}

-- `Set.prototype.has`
abbrev pub has : List ℕ → ℕ → Bool
has xs n = any (λ x. x == n) xs

module _ {ℓ} {A : Type ℓ} (id : A → ℕ) where
  -- The number of rows whose identifier was not visited.
  abbrev pub remaining : List ℕ → List A → ℕ
  remaining visited rows = length (keep (λ r. not (has visited (id r))) rows)

  pub remaining_le : (visited : List ℕ) (rows : List A) → remaining visited rows ≤ length rows
  remaining_le visited rows = length-keep (λ r. not (has visited (id r))) rows

  remaining-visit_le :
      (c : ℕ) (visited : List ℕ) (rows : List A)
      → remaining (c ∷ visited) rows ≤ remaining visited rows
  remaining-visit_le c visited [] = omega arith
  remaining-visit_le c visited (r ∷ rs) = ground (arith, remaining-visit_le c visited rs)

  -- A row that was not visited is one less to visit afterwards.
  pub remaining-visit :
      (c : ℕ) (visited : List ℕ) (rows : List A) (r : A)
      → has visited c ≡ false
      → find? (λ x. id x == c) rows ≡ some r
      → remaining (c ∷ visited) rows < remaining visited rows
  remaining-visit c visited [] r h e = absurd (ground arith)
  remaining-visit c visited (s ∷ ss) r h e = elim (Bool-cases (id s == c)) [
    | inl here ↦
        let same : id s ≡ c = ground arith in
        let old : has visited (id s) ≡ false = rw same h in
        ground (arith, remaining-visit_le c visited ss)
    | inr there ↦ let less = remaining-visit c visited ss r h (ground arith) in ground arith
  ]
