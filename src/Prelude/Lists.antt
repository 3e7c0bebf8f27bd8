-- ===== src/Prelude/Lists.antt =====
-- Lists measured and cut by native numbers, and filters and predicates by a Boolean test.
use Prim.Native.Nat.{ℕ, zero, suc, ◌+◌, ◌-◌, ◌≤◌, min}
use mathlib.Core.Path.{◌≡◌, refl, ap}
use mathlib.Core.Bool.{Bool, true, false, ◌&&◌, ◌||◌}
use mathlib.Core.List.{List, [], ◌∷◌, ◌++◌, map}
use mathlib.Core.Option.{Option, none, some}
use native.Mathlib.Omega.{arith}
use mathlib.Core.Logic.{inl, inr}
use docsmint.Prelude.Tests.{if◌then◌else◌, Bool-cases}

module _ {ℓ} {A : Type ℓ} where
  abbrev pub length : List A → ℕ
  length [] = 0
  length (x ∷ xs) = suc (length xs)

  abbrev pub take : ℕ → List A → List A
  take zero xs = []
  take (suc n) [] = []
  take (suc n) (x ∷ xs) = x ∷ take n xs

  abbrev pub drop : ℕ → List A → List A
  drop zero xs = xs
  drop (suc n) [] = []
  drop (suc n) (x ∷ xs) = drop n xs

  abbrev pub head? : List A → Option A
  head? [] = none
  head? (x ∷ xs) = some x

  -- `Array.prototype.filter`, `every`, `some` and `find` with a test.
  abbrev pub keep : (A → Bool) → List A → List A
  keep p [] = []
  keep p (x ∷ xs) = if p x then x ∷ keep p xs else keep p xs

  abbrev pub all : (A → Bool) → List A → Bool
  all p [] = true
  all p (x ∷ xs) = p x && all p xs

  abbrev pub any : (A → Bool) → List A → Bool
  any p [] = false
  any p (x ∷ xs) = p x || any p xs

  abbrev pub find? : (A → Bool) → List A → Option A
  find? p [] = none
  find? p (x ∷ xs) = if p x then some x else find? p xs

min-zero : (n : ℕ) → min 0 n ≡ 0
min-zero n = omega arith

zero-min : (n : ℕ) → min n 0 ≡ 0
zero-min n = omega arith

min-suc : (a b : ℕ) → min (suc a) (suc b) ≡ suc (min a b)
min-suc a b = omega arith

module _ {ℓ} {A : Type ℓ} where
  pub length-append : (xs ys : List A) → length (xs ++ ys) ≡ length xs + length ys
  length-append [] ys = omega arith
  length-append (x ∷ xs) ys = omega (arith, length-append xs ys)

  pub length-take : (n : ℕ) (xs : List A) → length (take n xs) ≡ min n (length xs)
  length-take zero xs = omega arith
  length-take (suc n) [] = omega arith
  length-take (suc n) (x ∷ xs) = omega (arith, length-take n xs)

  pub length-drop : (n : ℕ) (xs : List A) → length (drop n xs) ≡ length xs - n
  length-drop zero xs = omega arith
  length-drop (suc n) [] = omega arith
  length-drop (suc n) (x ∷ xs) = omega (arith, length-drop n xs)

  pub take-drop : (n : ℕ) (xs : List A) → take n xs ++ drop n xs ≡ xs
  take-drop zero xs = refl
  take-drop (suc n) [] = refl
  take-drop (suc n) (x ∷ xs) = ap (λ l. x ∷ l) (take-drop n xs)

  pub take-min : (n : ℕ) (xs : List A) → take (min n (length xs)) xs ≡ take n xs
  take-min zero xs = rw (min-zero (length xs)) refl
  take-min (suc n) [] = rw (zero-min (suc n)) refl
  take-min (suc n) (x ∷ xs) = rw (min-suc n (length xs)) (ap (λ l. x ∷ l) (take-min n xs))

  pub drop-min : (n : ℕ) (xs : List A) → drop (min n (length xs)) xs ≡ drop n xs
  drop-min zero xs = rw (min-zero (length xs)) refl
  drop-min (suc n) [] = rw (zero-min (suc n)) refl
  drop-min (suc n) (x ∷ xs) = rw (min-suc n (length xs)) (drop-min n xs)

  pub length-keep : (p : A → Bool) (xs : List A) → length (keep p xs) ≤ length xs
  length-keep p [] = omega arith
  length-keep p (x ∷ xs) = ground (arith, length-keep p xs)

  pub keep-append : (p : A → Bool) (xs ys : List A) → keep p (xs ++ ys) ≡ keep p xs ++ keep p ys
  keep-append p [] ys = refl
  keep-append p (x ∷ xs) ys = ground (arith, keep-append p xs ys)

module _ {ℓ κ} {A : Type ℓ} (P : A → Type κ) where
  abbrev pub All : List A → Type κ
  All [] = Unit
  All (x ∷ xs) = P x × All xs

  pub All-append : (xs ys : List A) → All xs → All ys → All (xs ++ ys)
  All-append [] ys h k = k
  All-append (x ∷ xs) ys (p, h) k = (p, All-append xs ys h k)

  pub All-keep : (p : A → Bool) (xs : List A) → All xs → All (keep p xs)
  All-keep p [] h = tt
  All-keep p (x ∷ xs) (q, h) = ground (arith, All-keep p xs h)

module _ {ℓ} {A : Type ℓ} where
  pub all-append : (p : A → Bool) (xs ys : List A) → all p (xs ++ ys) ≡ (all p xs && all p ys)
  all-append p [] ys = refl
  all-append p (x ∷ xs) ys = ground (arith, all-append p xs ys)

  pub all→All : (p : A → Bool) (xs : List A) → all p xs ≡ true → All (λ x. p x ≡ true) xs
  all→All p [] h = tt
  all→All p (x ∷ xs) h = ground (arith, all→All p xs)

  pub all-keep : (p : A → Bool) (xs : List A) → all p (keep p xs) ≡ true
  all-keep p [] = refl
  all-keep p (x ∷ xs) = ground (arith, all-keep p xs)

module _ {ℓ} {A : Type ℓ} where
  pub keep_agree :
      (p q : A → Bool) (xs : List A)
      → All (λ x. p x ≡ true → q x ≡ true) xs
      → keep p (keep q xs) ≡ keep p xs
  keep_agree p q [] h = refl
  keep_agree p q (x ∷ xs) (k, h) = elim (Bool-cases (p x)) [
    | inl e ↦ rw (k e) (rw (e, keep_agree p q xs h) refl)
    | inr e ↦ elim (Bool-cases (q x)) [
      | inl eq ↦ rw eq (rw e (keep_agree p q xs h))
      | inr nq ↦ rw nq (rw e (keep_agree p q xs h))
    ]
  ]

  pub keep_fuse :
      (p q s : A → Bool) (xs : List A)
      → ((x : A) → (q x && p x) ≡ s x)
      → keep p (keep q xs) ≡ keep s xs
  keep_fuse p q s [] h = refl
  keep_fuse p q s (x ∷ xs) h = ground (arith, h x, keep_fuse p q s xs h)

-- Filters that meet nothing, that agree, and filters of a mapped list.
pub keep-none {ℓ} : {A : Type ℓ} (p : A → Bool) (xs : List A) → find? p xs ≡ none → keep p xs ≡ []
keep-none p [] h = refl
keep-none p (x ∷ xs) h = elim (Bool-cases (p x)) [
  | inl e ↦ absurd (let t = simp e at h in ground arith)
  | inr e ↦ simp e (keep-none p xs (simp e at h))
]

pub keep_ext :
    {A : Type 0} (p q : A → Bool) (xs : List A) → ((x : A) → p x ≡ q x) → keep p xs ≡ keep q xs
keep_ext p q [] h = refl
keep_ext p q (x ∷ xs) h = rw (h x, keep_ext p q xs h) refl

pub keep-map_le {ℓ} :
    {A : Type ℓ} (p : A → Bool) (f : A → A) (xs : List A)
    → ((x : A) → p (f x) ≡ true → p x ≡ true)
    → length (keep p (map f xs)) ≤ length (keep p xs)
keep-map_le p f [] h = omega arith
keep-map_le p f (x ∷ xs) h = ground (arith, h x, keep-map_le p f xs h)

pub keep-map_none {ℓ} :
    {A : Type ℓ} (p : A → Bool) (f : A → A) (xs : List A)
    → ((x : A) → p (f x) ≡ false)
    → keep p (map f xs) ≡ []
keep-map_none p f [] h = refl
keep-map_none p f (x ∷ xs) h = rw (h x) (keep-map_none p f xs h)
