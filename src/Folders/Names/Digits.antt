-- ===== src/Folders/Names/Digits.antt =====
-- The sequence number of a candidate can be read back from its end.
use mathlib.Core.List.{reverse, reverse-append, reverse-cons, reverse-reverse, append_assoc}
use native.Mathlib.Numerals.{unary_clauses}
use docsmint.Prelude.{
  ℕ, zero, suc, ◌+◌, ◌-◌, ◌*◌, ◌/◌, ◌^◌, ◌≤◌, ◌<◌, ◌≡◌, ◌∙◌, inl, inr, refl, ap, sym, true, [], ◌∷◌,
  ◌++◌, ◌==◌, ltb, if◌then◌else◌, length, length-append, arith, Bool-cases,
}
use docsmint.Folders.Names.{Name, reversed_digits, suffix, base, candidate}

-- The number whose digits, the least first, stand before the first space.
unfoldable value : Name → ℕ
value [] = 0
value (x ∷ xs) = let rest = value xs in if x == 32 then 0 else (x - 48) + 10 * rest

value-reversed_digits :
    (fuel n : ℕ) (rest : Name) → n < fuel → value (reversed_digits fuel n ++ 32 ∷ rest) ≡ n
unfolding value reversed_digits
value-reversed_digits zero n rest h = absurd (omega arith)
value-reversed_digits (suc fuel) n rest h = elim (Bool-cases (ltb n 10)) [
  | inl low ↦ simp low (ground arith)
  | inr high ↦
      let ih : value (reversed_digits fuel (n / 10) ++ 32 ∷ rest) ≡ n / 10 =
        value-reversed_digits fuel (n / 10) rest (ground arith) in
      simp (high, ih) (ground arith)
]

value-candidate : (name : Name) (n : ℕ) → value (reverse (candidate name n)) ≡ n
unfolding candidate suffix
value-candidate name n =
    let ds : Name = reversed_digits (suc n) n in
    let front : Name = base name (length (suffix n)) in
    ap value (
      reverse-append front (32 ∷ reverse ds)
      ∙ ap (λ r. r ++ reverse front)
          (reverse-cons 32 (reverse ds) ∙ ap (λ r. r ++ 32 ∷ []) (reverse-reverse ds))
      ∙ append_assoc ds (32 ∷ []) (reverse front))
    ∙ value-reversed_digits (suc n) n (reverse front) (omega arith)

-- Different numbers give different candidates.
pub candidate-injective : (name : Name) (m n : ℕ) → candidate name m ≡ candidate name n → m ≡ n
candidate-injective name m n h =
    sym (value-candidate name m) ∙ ap (λ c. value (reverse c)) h ∙ value-candidate name n

tenth : (b n : ℕ) → n < b * 10 → n / 10 < b
tenth b n h = omega arith

length-reversed_digits : (k fuel n : ℕ) → 0 < k → n < 10 ^ k → length (reversed_digits fuel n) ≤ k
unfolding reversed_digits
length-reversed_digits k zero n p h = omega arith
length-reversed_digits zero (suc fuel) n p h = absurd (omega arith)
length-reversed_digits (suc zero) (suc fuel) n p h =
    let low : ltb n 10 ≡ true = ground arith in simp low (omega arith)
length-reversed_digits (suc (suc k)) (suc fuel) n p h = elim (Bool-cases (ltb n 10)) [
  | inl low ↦ simp low (omega arith)
  | inr high ↦
      let ih =
        length-reversed_digits (suc k) fuel (n / 10) (omega arith)
          (tenth (10 ^ suc k) n (simp unary_clauses (simp unary_clauses at h))) in
      simp high (omega arith)
]

length-reverse : (xs : Name) → length (reverse xs) ≡ length xs
length-reverse [] = refl
length-reverse (x ∷ xs) =
    ap length (reverse-cons x xs)
    ∙ length-append (reverse xs) (x ∷ [])
    ∙ omega (arith, length-reverse xs)

-- The number of code units of a suffix.
pub length-suffix : (k n : ℕ) → 0 < k → n < 10 ^ k → length (suffix n) ≤ suc k
unfolding suffix
length-suffix k n p h =
    omega
      (arith, length-reverse (reversed_digits (suc n) n), length-reversed_digits k (suc n) n p h)
