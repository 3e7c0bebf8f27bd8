-- ===== src/Prelude/Texts.antt =====
-- Texts as lists of UTF-16 code units.
use Prim.Native.Nat.{ℕ, ◌+◌}
use mathlib.Core.Bool.{Bool, true, false, ◌&&◌, ◌||◌}
use mathlib.Core.List.{List, [], ◌∷◌, map}
use docsmint.Prelude.Tests.{◌==◌, leb, if◌then◌else◌}

-- `text.startsWith(p)`
unfoldable pub starts_with : List ℕ → List ℕ → Bool
starts_with [] text = true
starts_with (p ∷ ps) [] = false
starts_with (p ∷ ps) (c ∷ cs) = p == c && starts_with ps cs

abbrev pub same_text : List ℕ → List ℕ → Bool
same_text [] [] = true
same_text (x ∷ xs) (y ∷ ys) = x == y && same_text xs ys
same_text _ _ = false

-- `text.endsWith(p)`
abbrev pub ends_with : List ℕ → List ℕ → Bool
ends_with p [] = same_text p []
ends_with p (c ∷ cs) = same_text p (c ∷ cs) || ends_with p cs

-- `text.toLowerCase()` on ASCII letters.
abbrev pub to_lower : List ℕ → List ℕ
to_lower text = map (λ c. if leb 65 c && leb c 90 then c + 32 else c) text
