-- ===== src/Prelude/Sorting.antt =====
-- `Array.prototype.sort` by a comparator: a stable sort, here by insertion.
use mathlib.Core.Path.{◌≡◌, refl, ◌∙◌, ap}
use mathlib.Core.Logic.{inl, inr, ∥∥₁_elim}
use mathlib.Core.Bool.{Bool, true, false}
use mathlib.Core.List.{List, [], ◌∷◌, Perm, Permᴰ}
use mathlib.Core.List.Perm
use native.Mathlib.Nat.{ℕ_set}
use native.Mathlib.Omega.{arith}
use docsmint.Prelude.Tests.{if◌then◌else◌, Bool-cases}
use docsmint.Prelude.Lists.{length, keep, All}

module _ {ℓ} {A : Type ℓ} (after : A → A → Bool) where
  -- `after x y` says that the comparator puts `x` after `y`.
  unfoldable pub insert_by : A → List A → List A
  insert_by x [] = x ∷ []
  insert_by x (y ∷ ys) = if after x y then y ∷ insert_by x ys else x ∷ y ∷ ys

  unfoldable pub sort_by : List A → List A
  sort_by [] = []
  sort_by (x ∷ xs) = insert_by x (sort_by xs)

  insert_by-Perm : (x : A) (ys : List A) → Perm (insert_by x ys) (x ∷ ys)
  unfolding insert_by
  insert_by-Perm x [] = Perm.rfl
  insert_by-Perm x (y ∷ ys) = elim (Bool-cases (after x y)) [
    | inl h ↦ rw h (Perm.trans (Perm.cons y (insert_by-Perm x ys)) (Perm.swap x y ys))
    | inr h ↦ rw h Perm.rfl
  ]

  pub sort_by-Perm : (xs : List A) → Perm (sort_by xs) xs
  unfolding sort_by
  sort_by-Perm [] = Perm.rfl
  sort_by-Perm (x ∷ xs) = Perm.trans (insert_by-Perm x (sort_by xs)) (Perm.cons x (sort_by-Perm xs))

  insert_by-All {κ} :
      (P : A → Type κ) (x : A) (ys : List A) → P x → All P ys → All P (insert_by x ys)
  unfolding insert_by
  insert_by-All P x [] p a = (p, tt)
  insert_by-All P x (y ∷ ys) p (q, a) = elim (Bool-cases (after x y)) [
    | inl h ↦ rw h (q, insert_by-All P x ys p a)
    | inr h ↦ rw h (p, (q, a))
  ]

  pub sort_by-All {κ} : (P : A → Type κ) (xs : List A) → All P xs → All P (sort_by xs)
  unfolding sort_by
  sort_by-All P [] a = tt
  sort_by-All P (x ∷ xs) (p, a) = insert_by-All P x (sort_by xs) p (sort_by-All P xs a)

  keep-insert_by :
      (p : A → Bool) (x : A) (ys : List A)
      → length (keep p (insert_by x ys)) ≡ length (keep p (x ∷ ys))
  unfolding insert_by
  keep-insert_by p x [] = refl
  keep-insert_by p x (y ∷ ys) = elim (Bool-cases (after x y)) [
    | inl h ↦ rw h (ground (arith, keep-insert_by p x ys))
    | inr h ↦ rw h refl
  ]

  -- Sorting keeps the number of the elements with a property.
  pub keep-sort_by :
      (p : A → Bool) (xs : List A) → length (keep p (sort_by xs)) ≡ length (keep p xs)
  unfolding sort_by
  keep-sort_by p [] = refl
  keep-sort_by p (x ∷ xs) =
      let rest = keep-sort_by p xs in keep-insert_by p x (sort_by xs) ∙ ground (arith, rest)

  -- Each element and the next one are in order.
  abbrev pub IsOrdered : List A → Type 0
  IsOrdered [] = Unit
  IsOrdered (x ∷ []) = Unit
  IsOrdered (x ∷ y ∷ ys) = (after x y ≡ false) × IsOrdered (y ∷ ys)

  insert_by-IsOrdered :
      ((a b : A) → after a b ≡ true → after b a ≡ false)
      → (x : A) (ys : List A) → IsOrdered ys
      → IsOrdered (insert_by x ys)
  unfolding insert_by
  insert_by-IsOrdered asym x [] o = tt
  insert_by-IsOrdered asym x (y ∷ []) o = elim (Bool-cases (after x y)) [
    | inl h ↦ rw h (asym x y h, tt)
    | inr h ↦ rw h (h, tt)
  ]
  insert_by-IsOrdered asym x (y ∷ z ∷ zs) (o, os) = elim (Bool-cases (after x y)) [
    | inl h ↦ rw h (
        let rest = insert_by-IsOrdered asym x (z ∷ zs) os in
        elim (Bool-cases (after x z)) [
          | inl k ↦ rw k (o, rw k at rest)
          | inr k ↦ rw k (asym x y h, rw k at rest)
        ])
    | inr h ↦ rw h (h, (o, os))
  ]

  -- If the comparator is antisymmetric, the sorted list is in order.
  pub sort_by-IsOrdered :
      ((a b : A) → after a b ≡ true → after b a ≡ false) → (xs : List A) → IsOrdered (sort_by xs)
  unfolding sort_by
  sort_by-IsOrdered asym [] = tt
  sort_by-IsOrdered asym (x ∷ xs) =
      insert_by-IsOrdered asym x (sort_by xs) (sort_by-IsOrdered asym xs)

module _ {ℓ} {A : Type ℓ} (p : A → Bool) where
  keep-Permᴰ : {xs ys : List A} → Permᴰ xs ys → length (keep p xs) ≡ length (keep p ys)
  keep-Permᴰ Permᴰ.nil = refl
  keep-Permᴰ (Permᴰ.cons {a} {b} {l₁ = xs} {l₂ = ys} e d) =
      let rest = keep-Permᴰ d in let same : p a ≡ p b = ap p e in ground arith
  keep-Permᴰ (Permᴰ.swap {a} {b} {a' = c} {b' = d} e f) =
      let first : p a ≡ p d = ap p e in let second : p b ≡ p c = ap p f in ground arith
  keep-Permᴰ (Permᴰ.trans d e) = keep-Permᴰ d ∙ keep-Permᴰ e

  -- A rearranged list has as many elements with a property.
  pub keep-Perm : {xs ys : List A} → Perm xs ys → length (keep p xs) ≡ length (keep p ys)
  keep-Perm {xs} {ys} d = ∥∥₁_elim d (ℕ_set (length (keep p xs)) (length (keep p ys))) keep-Permᴰ
