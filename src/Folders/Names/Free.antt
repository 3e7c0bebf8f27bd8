-- ===== src/Folders/Names/Free.antt =====
-- The search for a free name ends, since its candidates differ from one another.
use docsmint.Prelude.{
  ℕ, zero, suc, ◌+◌, ◌-◌, ◌^◌, ◌≤◌, ◌<◌, ◌≡◌, ◌≢◌, ◌⊎◌, ◌∙◌, inl, inr, refl, sym, subst, true,
  false, not, some, List, [], ◌∷◌, ◌==◌, ltb, length, keep, arith, Bool-cases, and-eq-true, ==_iff,
  length-append, length-take, length-keep,
}
use docsmint.Folders.Names.{
  Name, same_name, is_occupied, suffix, base, candidate, search_name, next_available_folder_name,
  max_folder_name_length,
}
use docsmint.Folders.Names.Digits.{candidate-injective, length-suffix}

same_name→eq : (a b : Name) → same_name a b ≡ true → a ≡ b
same_name→eq [] [] h = refl
same_name→eq [] (y ∷ ys) h = absurd (ground arith)
same_name→eq (x ∷ xs) [] h = absurd (ground arith)
same_name→eq (x ∷ xs) (y ∷ ys) h =
    let (e, t) = and-eq-true (x == y) (same_name xs ys) h in
    let head : x ≡ y = (==_iff x y).0 e in let tail : xs ≡ ys = same_name→eq xs ys t in cc

-- The names other than `c`.
abbrev without : Name → List Name → List Name
without c names = keep (λ s. not (same_name s c)) names

length-without :
    (c : Name) (names : List Name)
    → is_occupied names c ≡ true
    → length (without c names) < length names
length-without c [] h = absurd (ground arith)
length-without c (s ∷ names) h =
    let le : length (without c names) ≤ length names =
      length-keep (λ s. not (same_name s c)) names in
    elim (Bool-cases (same_name s c)) [
      | inl same ↦ simp same (omega arith)
      | inr other ↦
          let later : is_occupied names c ≡ true = simp other at h in
          simp other (omega (arith, length-without c names later))
    ]

is_occupied-without :
    (c d : Name) (names : List Name)
    → c ≢ d
    → is_occupied names d ≡ true
    → is_occupied (without c names) d ≡ true
is_occupied-without c d [] n h = absurd (ground arith)
is_occupied-without c d (s ∷ names) n h = elim (Bool-cases (same_name s c)) [
  | inl same ↦ elim (Bool-cases (same_name s d)) [
    | inl also ↦ absurd (n (sym (same_name→eq s c same) ∙ same_name→eq s d also))
    | inr other ↦ simp same (is_occupied-without c d names n (simp other at h))
  ]
  | inr other ↦ elim (Bool-cases (same_name s d)) [
    | inl also ↦ simp (other, also) refl
    | inr neither ↦ simp (other, neither) (is_occupied-without c d names n (simp neither at h))
  ]
]

-- So many candidates in a row cannot all be occupied.
crowded :
    (name : Name) (fuel sequence : ℕ) (names : List Name)
    → ((i : ℕ) → sequence ≤ i → i < sequence + fuel → is_occupied names (candidate name i) ≡ true)
    → fuel ≤ length names
crowded name zero sequence names h = omega arith
crowded name (suc fuel) sequence names h =
    let fewer =
      length-without (candidate name sequence) names (h sequence (omega arith) (omega arith)) in
    let rest : fuel ≤ length (without (candidate name sequence) names) =
      crowded name fuel (sequence + 1) (without (candidate name sequence) names) others in
    omega arith
  where
    others :
        (i : ℕ)
        → sequence + 1 ≤ i
        → i < sequence + 1 + fuel
        → is_occupied (without (candidate name sequence) names) (candidate name i) ≡ true
    others i low high =
        is_occupied-without (candidate name sequence) (candidate name i) names
          (λ e.
            let met : sequence ≡ i = candidate-injective name sequence i e in absurd (omega arith))
          (h i (omega arith) (omega arith))

-- What the search finds: the first candidate from `sequence` on that is free.
record IsFirst (name : Name) (names : List Name) (sequence n : ℕ) : Type 0 where
  pub from : sequence ≤ n
  pub free : is_occupied names (candidate name n) ≡ false
  pub least : (i : ℕ) → sequence ≤ i → i < n → is_occupied names (candidate name i) ≡ true

abbrev Found : Name → List Name → ℕ → ℕ → Type 0
Found name names fuel sequence =
    (n : ℕ) × (n < sequence + fuel)
    × (search_name fuel name names sequence ≡ some (candidate name n))
    × IsFirst name names sequence n

search_name-cases :
    (name : Name) (names : List Name) (fuel sequence : ℕ)
    → Found name names fuel sequence
      ⊎ ((i : ℕ) → sequence ≤ i → i < sequence + fuel → is_occupied names (candidate name i) ≡ true)
unfolding search_name
search_name-cases name names zero sequence = inr (λ i low high. absurd (omega arith))
search_name-cases name names (suc fuel) sequence =
    elim (Bool-cases (is_occupied names (candidate name sequence))) [
      | inr free ↦ inl (
        sequence,
        omega arith,
        simp free refl,
        record { from = omega arith; free = free; least = λ i l h. absurd (omega arith) },
      )
      | inl taken ↦ elim (search_name-cases name names fuel (sequence + 1)) [
        | inl (n, h, e, first) ↦ inl (
          n,
          omega (arith, h),
          simp taken e,
          record {
            from = omega (arith, first.from);
            free = first.free;
            least = λ i l b. include i l taken (λ k. first.least i k b);
          },
        )
        | inr all ↦ inr (λ i l h. include i l taken (λ k. all i k (omega arith)))
      ]
    ]
  where
    include :
        (i : ℕ)
        → sequence ≤ i
        → is_occupied names (candidate name sequence) ≡ true
        → (sequence + 1 ≤ i → is_occupied names (candidate name i) ≡ true)
        → is_occupied names (candidate name i) ≡ true
    include i l taken k = elim (Bool-cases (sequence == i)) [
      | inl same ↦
          let e : sequence ≡ i = (==_iff sequence i).0 same in
          subst (λ j. is_occupied names (candidate name j) ≡ true) e taken
      | inr other ↦ k (ground arith)
    ]

length-base :
    (name : Name) (k : ℕ)
    → k ≤ max_folder_name_length
    → length (base name k) ≤ max_folder_name_length - k
unfolding base
length-base name k h =
    let within : ltb max_folder_name_length k ≡ false = ground arith in
    simp within (omega (arith, length-take (max_folder_name_length - k) name))

length-candidate :
    (name : Name) (k n : ℕ)
    → 0 < k
    → k < max_folder_name_length
    → n < 10 ^ k
    → length (candidate name n) ≤ max_folder_name_length
unfolding candidate
length-candidate name k n p b h =
    let s = length-suffix k n p h in
    omega (
      arith,
      s,
      length-append (base name (length (suffix n))) (suffix n),
      length-base name (length (suffix n)) (omega arith),
    )

-- What a new folder's name is to be.
pub record IsAvailable (name : Name) (names : List Name) (r : Name) : Type 0 where
  pub free : is_occupied names r ≡ false
  pub kept : is_occupied names name ≡ false → r ≡ name
  pub first :
      is_occupied names name ≡ true
      → (n : ℕ) × (r ≡ candidate name n)
        × (2 ≤ n)
        × (n < length names + 3)
        × ((i : ℕ) → 2 ≤ i → i < n → is_occupied names (candidate name i) ≡ true)
  pub short :
      length name ≤ max_folder_name_length
      → length names + 3 ≤ 10 ^ 254
      → length r ≤ max_folder_name_length

-- Whatever names the siblings have, the search for a name ends, within one round more than there are
-- siblings. The name it returns is not a sibling's; it is the requested one if that is free, and
-- otherwise the first free one in the sequence; and if the requested name has at most 255 code units,
-- and there are fewer than 10 ^ 254 - 2 siblings, so has the name.
pub next_available_folder_name_ends :
    (name : Name) (names : List Name)
    → (r : Name) × (next_available_folder_name name names ≡ some r) × IsAvailable name names r
unfolding next_available_folder_name
next_available_folder_name_ends name names = elim (Bool-cases (is_occupied names name)) [
  | inr free ↦ (
    name,
    simp free refl,
    record { free = free; kept = λ h. refl; first = λ h. absurd (ground arith); short = λ h k. h },
  )
  | inl taken ↦ elim (search_name-cases name names (length names + 1) 2) [
    | inl (n, h, e, first) ↦ (
      candidate name n,
      simp taken e,
      record {
        free = first.free;
        kept = λ k. absurd (ground arith);
        first = λ k. (n, refl, first.from, omega (arith, h), first.least);
        short =
            λ k l. length-candidate name 254 n (omega arith) (omega arith) (omega (arith, h, l));
      },
    )
    | inr all ↦ let many = crowded name (length names + 1) 2 names all in absurd (omega arith)
  ]
]
