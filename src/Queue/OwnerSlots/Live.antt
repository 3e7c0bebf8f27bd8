-- ===== src/Queue/OwnerSlots/Live.antt =====
-- The leases of a set that are live, when one is put into it and when time goes on.
use docsmint.Prelude.{
  ℕ, ◌+◌, ◌≤◌, ◌≡◌, inl, inr, refl, ap, ◌∙◌, Bool, true, List, [], ◌∷◌, ◌++◌, length, keep,
  keep-append, length-append, length-keep, keep_agree, Bool-cases, arith, All,
}
use docsmint.Queue.OwnerSlots.{Lease, is_live, is_other, put}

pub keep_swap : (p q : Lease → Bool) (ls : List Lease) → keep p (keep q ls) ≡ keep q (keep p ls)
keep_swap p q [] = refl
keep_swap p q (l ∷ ls) = elim (Bool-cases (p l)) [
  | inl a ↦ elim (Bool-cases (q l)) [
    | inl b ↦ simp (a, b) (ap (λ r. l ∷ r) (keep_swap p q ls))
    | inr b ↦ simp (a, b) (keep_swap p q ls)
  ]
  | inr a ↦ elim (Bool-cases (q l)) [
    | inl b ↦ simp (a, b) (keep_swap p q ls)
    | inr b ↦ simp (a, b) (keep_swap p q ls)
  ]
]

pub keep-put :
    (now : ℕ) (l : Lease) (ls : List Lease)
    → keep (is_live now) (put l ls)
      ≡ keep (is_other l.id) (keep (is_live now) ls) ++ keep (is_live now) (l ∷ [])
unfolding put
keep-put now l ls =
    keep-append (is_live now) (keep (is_other l.id) ls) (l ∷ [])
    ∙ ap (λ r. r ++ keep (is_live now) (l ∷ [])) (keep_swap (is_live now) (is_other l.id) ls)

-- What is live later is live now.
pub keep_later :
    (now later : ℕ) (ls : List Lease)
    → now ≤ later
    → keep (is_live later) (keep (is_live now) ls) ≡ keep (is_live later) ls
keep_later now later ls h = keep_agree (is_live later) (is_live now) ls (still ls)
  where
    still : (xs : List Lease) → All (λ l. is_live later l ≡ true → is_live now l ≡ true) xs
    still [] = tt
    still (x ∷ xs) = ((λ k. ground arith), still xs)

pub length-put_le : (l : Lease) (ls : List Lease) → length (put l ls) ≤ length ls + 1
unfolding put
length-put_le l ls =
    omega (arith, length-append (keep (is_other l.id) ls) (l ∷ []), length-keep (is_other l.id) ls)
