-- ===== src/Embedding/Chunker/Units.antt =====
-- `sourceUnits`: the paragraphs between the separators, which are the matches of `\n\s*\n`.
pub mod Rejoin
use docsmint.Prelude.{ℕ, zero, suc, ◌+◌, Bool, List, [], ◌∷◌, ◌++◌, ◌==◌, if◌then◌else◌, drop}
use docsmint.Embedding.Chunker.{SourceUnit, slice, part_at}

module _ (is_space : ℕ → Bool) where
  -- The code units of the white space up to its last newline, of which `n` were passed and the last
  -- newline so far ended after `best`; 0 is none.
  unfoldable pub last_newline : ℕ → ℕ → List ℕ → ℕ
  last_newline n best [] = best
  last_newline n best (c ∷ rest) =
      if c == 10
      then last_newline (n + 1) (n + 1) rest
      else if is_space c
      then last_newline (n + 1) best rest
      else best

  -- The length of the match of `\n\s*\n` at the start of a text; 0 is none.
  abbrev pub match_length : List ℕ → ℕ
  match_length [] = 0
  match_length (c ∷ rest) = if c == 10 then last_newline 1 0 rest else 0

  -- What a match of length `m` at `index` pushes.
  abbrev pub unit_before : List ℕ → ℕ → ℕ → ℕ → List ℕ → List SourceUnit
  unit_before source zero index cursor separator = []
  unit_before source (suc m) index cursor separator =
      part_at is_space cursor separator (slice cursor index source)

  abbrev pub cursor_after : ℕ → ℕ → ℕ → ℕ
  cursor_after zero index cursor = cursor
  cursor_after (suc m) index cursor = index + suc m

  abbrev pub separator_at : List ℕ → ℕ → ℕ → List ℕ → List ℕ
  separator_at source zero index separator = separator
  separator_at source (suc m) index separator = slice index (index + suc m) source

  abbrev pub rest_of : ℕ → ℕ
  rest_of zero = 0
  rest_of (suc m) = m

  -- The loop over the matches, at every index of the source; `skip` is what is left of a match.
  unfoldable pub unit_scan : List ℕ → List ℕ → ℕ → ℕ → ℕ → List ℕ → List SourceUnit
  unit_scan source [] skip index cursor separator =
      part_at is_space cursor separator (drop cursor source)
  unit_scan source (c ∷ rest) (suc skip) index cursor separator =
      unit_scan source rest skip (index + 1) cursor separator
  unit_scan source (c ∷ rest) zero index cursor separator =
      let m = match_length (c ∷ rest) in
      unit_before source m index cursor separator
      ++ unit_scan source rest (rest_of m) (index + 1) (cursor_after m index cursor)
          (separator_at source m index separator)

  unfoldable pub source_units : List ℕ → List SourceUnit
  source_units source = unit_scan source source 0 0 0 []
