-- ===== src/Folders/Tree/Forest.antt =====
-- Chains of parents that end, and what keeps them so.
use docsmint.Prelude.{
  has, ℕ, zero, suc, ◌≤◌, ◌≡◌, ◌⊎◌, inl, inr, refl, sym, subst, Bool, true, false, not, ◌&&◌,
  Option, none, some, List, [], ◌∷◌, All, ◌==◌, arith, Bool-cases, and-eq-true, ==_iff,
}
use docsmint.Folders.Tree.{Folder, parent_of, exists_folder, finds_above}

module _ (up : ℕ → Option ℕ) where
  -- The chain of parents from `current` on ends within `n` steps.
  unfoldable pub ends : ℕ → Option ℕ → Bool
  ends n none = true
  ends zero (some c) = false
  ends (suc n) (some c) = ends n (up c)

  -- It ends so, and `id` is not on it.
  unfoldable pub avoids : ℕ → ℕ → Option ℕ → Bool
  avoids id n none = true
  avoids id zero (some c) = false
  avoids id (suc n) (some c) = let rest = avoids id n (up c) in not (c == id) && rest

  -- It ends within `n` steps, and not sooner.
  pub record EndsExactly (n : ℕ) (current : Option ℕ) : Type 0 where
    pub within : ends n current ≡ true
    pub not_sooner : (m : ℕ) → n ≡ suc m → ends m current ≡ false

  pub ends_exactly :
      (n : ℕ) (current : Option ℕ)
      → ends n current ≡ true
      → (m : ℕ) × (m ≤ n) × EndsExactly m current
  ends_exactly zero current h =
      (0, omega arith, record { within = h; not_sooner = λ m e. absurd (omega arith) })
  ends_exactly (suc n) current h = elim (Bool-cases (ends n current)) [
    | inl sooner ↦ let (m, le, x) = ends_exactly n current sooner in (m, omega arith, x)
    | inr later ↦ (
      suc n,
      omega arith,
      record {
        within = h;
        not_sooner =
            λ m e. let same : n ≡ m = omega arith in subst (λ k. ends k current ≡ false) same later;
      },
    )
  ]

  pub ends-none : (n : ℕ) → ends n none ≡ true
  unfolding ends
  ends-none zero = refl
  ends-none (suc n) = refl

  ends-false-suc :
      (n : ℕ) (current : Option ℕ) → ends (suc n) current ≡ false → ends n current ≡ false
  unfolding ends
  ends-false-suc n none h = absurd (ground arith)
  ends-false-suc zero (some c) h = refl
  ends-false-suc (suc n) (some c) h = ends-false-suc n (up c) h

  -- The parent of a chain of `n + 1` steps has one of `n`.
  pub EndsExactly-up : (n c : ℕ) → EndsExactly (suc n) (some c) → EndsExactly n (up c)
  unfolding ends
  EndsExactly-up n c x = record {
    within = x.within;
    not_sooner = λ m e. subst (λ k. ends k (some c) ≡ false) e (x.not_sooner n refl);
  }

-- Two tables of parents.
module _ (up down : ℕ → Option ℕ) where
  avoids-ends :
      (id n : ℕ) (current : Option ℕ)
      → ((c : ℕ) → (c == id) ≡ false → down c ≡ up c)
      → avoids up id n current ≡ true
      → ends down n current ≡ true
  unfolding ends avoids
  avoids-ends id n none same h = ends-none down n
  avoids-ends id zero (some c) same h = absurd (ground arith)
  avoids-ends id (suc n) (some c) same h =
      let (here, above) = and-eq-true (not (c == id)) (avoids up id n (up c)) h in
      subst (λ o. ends down n o ≡ true) (sym (same c (ground arith)))
        (avoids-ends id n (up c) same above)

  -- If only the parent of `id` changes, and the new chain of `id` ends, then all chains end that did.
  pub ends-changed :
      (id m : ℕ)
      → ((c : ℕ) → (c == id) ≡ false → down c ≡ up c)
      → ends down m (some id) ≡ true
      → (n : ℕ) (current : Option ℕ) → ends up n current ≡ true
      → (k : ℕ) × (ends down k current ≡ true)
  unfolding ends
  ends-changed id m same h n none e = (n, ends-none down n)
  ends-changed id m same h zero (some c) e = absurd (ground arith)
  ends-changed id m same h (suc n) (some c) e = elim (Bool-cases (c == id)) [
    | inl here ↦
        let i : c ≡ id = (==_iff c id).0 here in
        (m, subst (λ x. ends down m (some x) ≡ true) (sym i) h)
    | inr other ↦
        let (k, t) = ends-changed id m same h n (up c) e in
        (suc k, subst (λ o. ends down k o ≡ true) (sym (same c other)) t)
  ]

  -- If parents are only taken away, all chains end that did.
  pub ends-detached :
      ((c : ℕ) → (down c ≡ up c) ⊎ (down c ≡ none))
      → (n : ℕ) (current : Option ℕ) → ends up n current ≡ true
      → ends down n current ≡ true
  unfolding ends
  ends-detached fewer n none e = ends-none down n
  ends-detached fewer zero (some c) e = absurd (ground arith)
  ends-detached fewer (suc n) (some c) e = elim (fewer c) [
    | inl same ↦ subst (λ o. ends down n o ≡ true) (sym same) (ends-detached fewer n (up c) e)
    | inr gone ↦ subst (λ o. ends down n o ≡ true) (sym gone) (ends-none down n)
  ]

  -- The chain of `id` ends if its new parent's chain avoids it.
  pub ends-attached :
      (id p n : ℕ)
      → ((c : ℕ) → (c == id) ≡ false → down c ≡ up c)
      → down id ≡ some p
      → avoids up id n (some p) ≡ true
      → ends down (suc n) (some id) ≡ true
  unfolding ends
  ends-attached id p n same e h =
      subst (λ o. ends down n o ≡ true) (sym e) (avoids-ends id n (some p) same h)

module _ (folders : List Folder) where
  -- What was visited has a longer chain than what is visited now.
  abbrev pub Longer : ℕ → List ℕ → Type 0
  Longer n visited = All (λ v. ends (parent_of folders) n (some v) ≡ false) visited

  pub Longer-less : (n : ℕ) (visited : List ℕ) → Longer (suc n) visited → Longer n visited
  Longer-less n [] h = tt
  Longer-less n (v ∷ vs) (e, h) =
      (ends-false-suc (parent_of folders) n (some v) e, Longer-less n vs h)

  pub Longer-new :
      (n c : ℕ) (visited : List ℕ)
      → ends (parent_of folders) n (some c) ≡ true
      → Longer n visited
      → has visited c ≡ false
  Longer-new n c [] e h = refl
  Longer-new n c (v ∷ vs) e (f, h) = elim (Bool-cases (v == c)) [
    | inl met ↦
        let i : v ≡ c = (==_iff v c).0 met in
        let g : ends (parent_of folders) n (some c) ≡ false =
          subst (λ x. ends (parent_of folders) n (some x) ≡ false) i f in
        absurd (ground arith)
    | inr other ↦ simp other (Longer-new n c vs e h)
  ]

  -- On a chain that ends, the walk that finds nothing has seen all of it.
  pub finds_above-avoids :
      (fuel id n : ℕ) (visited : List ℕ) (current : Option ℕ)
      → EndsExactly (parent_of folders) n current
      → Longer n visited
      → finds_above folders fuel id visited current ≡ some false
      → avoids (parent_of folders) id n current ≡ true
  unfolding finds_above avoids ends
  finds_above-avoids zero id n visited current x l h = absurd (ground arith)
  finds_above-avoids (suc fuel) id zero visited none x l h = refl
  finds_above-avoids (suc fuel) id (suc n) visited none x l h = refl
  finds_above-avoids (suc fuel) id zero visited (some c) x l h =
      let w = x.within in absurd (ground arith)
  finds_above-avoids (suc fuel) id (suc n) visited (some c) x l h =
      let new = Longer-new (suc n) c visited x.within l in
      elim (Bool-cases (c == id)) [
        | inl here ↦ let found = simp (new, here) at h in absurd (ground arith)
        | inr other ↦ simp other (
            finds_above-avoids fuel id n (c ∷ visited) (parent_of folders c)
              (EndsExactly-up (parent_of folders) n c x)
              (x.not_sooner n refl, Longer-less n visited l) (simp (new, other) at h))
      ]

-- A table of folders in which every parent is there, and every chain of parents ends.
pub record IsForest (folders : List Folder) : Type 0 where
  pub linked : (c p : ℕ) → parent_of folders c ≡ some p → exists_folder folders p ≡ true
  pub grounded : (c : ℕ) → (n : ℕ) × (ends (parent_of folders) n (some c) ≡ true)
