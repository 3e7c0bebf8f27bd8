-- ===== src/Embedding/Generation/Rows.antt =====
-- Facts on filtered and updated tables that the proofs about generations share.
use mathlib.Core.Path.{subst}
use docsmint.Prelude.{
  Option, none, some, find?, if◌then◌else◌, ◌≡◌, refl, Bool, true, false, not, ◌||◌, List, [], ◌∷◌,
  arith, keep, any, All, Bool-cases, inl, inr,
}
use docsmint.Embedding.Generation.{update_where}

abbrev pub map_some : {A B : Type 0} → (A → B) → Option A → Option B
map_some f none = none
map_some f (some a) = some (f a)

module _ {A : Type 0} where
  -- What every kept row satisfies, every row satisfies if it is kept.
  pub keep-any :
      (p q : A → Bool) (xs : List A)
      → any (λ x. not (p x)) (keep q xs) ≡ false
      → All (λ x. (not (q x) || p x) ≡ true) xs
  keep-any p q [] h = tt
  keep-any p q (x ∷ xs) h = ground (arith, keep-any p q xs)

  pub All-map : (P Q : A → Type 0) (xs : List A) → ((x : A) → P x → Q x) → All P xs → All Q xs
  All-map P Q [] f h = tt
  All-map P Q (x ∷ xs) f (p, h) = (f x p, All-map P Q xs f h)

  pub All-zip :
      (P Q R : A → Type 0) (xs : List A)
      → ((x : A) → P x → Q x → R x)
      → All P xs
      → All Q xs
      → All R xs
  All-zip P Q R [] f h k = tt
  All-zip P Q R (x ∷ xs) f (p, h) (q, k) = (f x p q, All-zip P Q R xs f h k)

  pub All-update :
      (P : A → Type 0) (p : A → Bool) (f : A → A) (xs : List A)
      → All P xs
      → ((x : A) → p x ≡ true → P x → P (f x))
      → All P (update_where p f xs)
  All-update P p f [] h g = tt
  All-update P p f (x ∷ xs) (px, h) g = (
    elim (Bool-cases (p x)) [ inl e ↦ rw e (g x e px) | inr e ↦ rw e px ],
    All-update P p f xs h g,
  )

  -- The first row that `p` picks stays the first, if the update keeps what `p` reads.
  pub find-update :
      (p w : A → Bool) (f : A → A) (xs : List A)
      → ((x : A) → p (f x) ≡ p x)
      → find? p (update_where w f xs) ≡ map_some (λ x. if w x then f x else x) (find? p xs)
  find-update p w f [] h = refl
  find-update p w f (x ∷ xs) h = ground (arith, h x, find-update p w f xs h)

  pub find-holds : (p : A → Bool) (xs : List A) (a : A) → find? p xs ≡ some a → p a ≡ true
  find-holds p [] a h = cc
  find-holds p (x ∷ xs) a h = elim (Bool-cases (p x)) [
    | inl e ↦ let same : x ≡ a = ground arith in subst (λ y. p y ≡ true) same e
    | inr e ↦ find-holds p xs a (rw e at h)
  ]

  -- A kept row has what every row has, and passes the test.
  pub All-kept :
      (P Q : A → Type 0) (p : A → Bool) (xs : List A)
      → ((x : A) → P x → p x ≡ true → Q x)
      → All P xs
      → All Q (keep p xs)
  All-kept P Q p [] f h = tt
  All-kept P Q p (x ∷ xs) f (q, h) = elim (Bool-cases (p x)) [
    | inl e ↦ rw e (f x q e, All-kept P Q p xs f h)
    | inr e ↦ rw e (All-kept P Q p xs f h)
  ]

  -- Rows that an update does not pick are the same after it.
  pub keep-update :
      (p w : A → Bool) (f : A → A) (xs : List A)
      → ((x : A) → w x ≡ true → (p x ≡ false) × (p (f x) ≡ false))
      → keep p (update_where w f xs) ≡ keep p xs
  keep-update p w f [] h = refl
  keep-update p w f (x ∷ xs) h = elim (Bool-cases (w x)) [
    | inl e ↦ rw e (rw ((h x e).0, (h x e).1) (keep-update p w f xs h))
    | inr e ↦ rw e (elim (Bool-cases (p x)) [
      | inl k ↦ rw (k, keep-update p w f xs h) refl
      | inr k ↦ rw (k, keep-update p w f xs h) refl
    ])
  ]
