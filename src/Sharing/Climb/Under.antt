-- ===== src/Sharing/Climb/Under.antt =====
-- `isFolderDescendant` decides whether a folder lies under another.
use docsmint.Prelude.{
  remaining_le, has, ℕ, zero, suc, ◌<◌, ◌≡◌, ◌↔◌, inl, inr, refl, ap, Bool, true, false, Option,
  none, some, List, [], ◌∷◌, ◌==◌, arith, Bool-cases, Option-cases, All, ==_iff,
}
use docsmint.Sharing.Tables.{Folder, find_folder}
use docsmint.Sharing.Climb.{climb, is_folder_descendant, rounds}
use docsmint.Sharing.Climb.Total.{climb-ends}

module _ (folders : List Folder) where
  -- `Under root c`: the folder `c` is `root`, or its parent lies under `root`.
  pub data Under (root : ℕ) : ℕ → Type 0 where
    here : Under root root
    above :
        {c p : ℕ} (f : Folder)
        → find_folder folders c ≡ some f
        → f.parent ≡ some p
        → Under root p
        → Under root c

  UnderOption : ℕ → Option ℕ → Type 0
  UnderOption root none = ⊥
  UnderOption root (some c) = Under root c

  parent-Under :
      (root c : ℕ) (f : Folder) (p : Option ℕ)
      → find_folder folders c ≡ some f
      → f.parent ≡ p
      → UnderOption root p
      → Under root c
  unfolding UnderOption
  parent-Under root c f none found e u = absurd u
  parent-Under root c f (some p) found e u = above f found e u

  climb-UnderOption :
      (root n : ℕ) (visited : List ℕ) (current : Option ℕ)
      → climb folders root n visited current ≡ some true
      → UnderOption root current
  unfolding climb UnderOption
  climb-UnderOption root zero visited current h = absurd (ground arith)
  climb-UnderOption root (suc n) visited none h = absurd (ground arith)
  climb-UnderOption root (suc n) visited (some c) h = elim (Bool-cases (c == root)) [
    | inl top ↦ let same : c ≡ root = ground arith in rw same here
    | inr below ↦ elim (Bool-cases (has visited c)) [
      | inl again ↦ absurd (false_true (simp (below, again) at h))
      | inr new ↦ elim (Option-cases (find_folder folders c)) [
        | inl gone ↦ absurd (false_true (simp (below, new, gone) at h))
        | inr (f, found) ↦
            parent-Under root c f f.parent found refl
              (climb-UnderOption root n (c ∷ visited) f.parent (simp (below, new, found) at h))
      ]
    ]
  ]
    where
      false_true : some false ≡ some true → ⊥
      false_true e = ground arith

  -- `Height root n c`: the chain of `c` reaches `root` for the first time after `n` steps.
  Height : ℕ → ℕ → ℕ → Type 0
  Height root zero c = c ≡ root
  Height root (suc n) c =
      ((c == root) ≡ false)
      × (f : Folder) × (p : ℕ) × (find_folder folders c ≡ some f)
      × (f.parent ≡ some p)
      × Height root n p

  height : (root c : ℕ) → Under root c → (n : ℕ) × Height root n c
  unfolding Height
  height root _ here = (0, refl)
  height root c (above {p = p} f found e u) =
      let (n, h) = height root p u in
      elim (Bool-cases (c == root)) [
        | inl top ↦ (0, (==_iff c root).0 top)
        | inr below ↦ (suc n, (below, f, p, found, e, h))
      ]

  Height-unique : (root n m c : ℕ) → Height root n c → Height root m c → n ≡ m
  unfolding Height
  Height-unique root zero zero c h k = refl
  Height-unique root zero (suc m) c h (below, g, q, found, e, k) = absurd (ground arith)
  Height-unique root (suc n) zero c (below, g, q, found, e, h) k = absurd (ground arith)
  Height-unique root (suc n) (suc m) c (_, f, p, found, e, h) (_, g, q, found', e', k) =
      let same : f ≡ g = cc in let up : p ≡ q = cc in ap suc (Height-unique root n m p h (rw up k))

  -- What was visited lies higher above than what is visited now.
  Longer : ℕ → ℕ → List ℕ → Type 0
  Longer root n visited = All (λ v. (m : ℕ) × Height root m v × (n < m)) visited

  Longer-visit :
      (root n c : ℕ) (visited : List ℕ)
      → Height root (suc n) c
      → Longer root (suc n) visited
      → Longer root n (c ∷ visited)
  unfolding Longer
  Longer-visit root n c visited h l = ((suc n, h, omega arith), lower visited l)
    where
      lower : (vs : List ℕ) → Longer root (suc n) vs → Longer root n vs
      lower [] a = tt
      lower (v ∷ vs) ((m, k, less), a) = ((m, k, omega (arith, less)), lower vs a)

  Longer-new :
      (root n c : ℕ) (visited : List ℕ)
      → Height root n c
      → Longer root n visited
      → has visited c ≡ false
  unfolding Longer
  Longer-new root n c [] h l = refl
  Longer-new root n c (v ∷ vs) h ((m, k, less), l) = elim (Bool-cases (v == c)) [
    | inl met ↦
        let same : v ≡ c = ground arith in
        let equal = Height-unique root n m c h (rw (← same) k) in absurd (omega arith)
    | inr other ↦ simp other (Longer-new root n c vs h l)
  ]

  climb-Height :
      (root fuel n c : ℕ) (visited : List ℕ) (b : Bool)
      → Height root n c
      → Longer root n visited
      → climb folders root fuel visited (some c) ≡ some b
      → b ≡ true
  unfolding climb Height
  climb-Height root zero n c visited b h l e = absurd (ground arith)
  climb-Height root (suc fuel) zero c visited b h l e =
      let top : (c == root) ≡ true = ground arith in let done = simp top at e in ground arith
  climb-Height root (suc fuel) (suc n) c visited b (below, f, p, found, up, h) l e =
      let new = Longer-new root (suc n) c visited (below, f, p, found, up, h) l in
      climb-Height root fuel n p (c ∷ visited) b h
        (Longer-visit root n c visited (below, f, p, found, up, h) l)
        (simp (below, new, found, up) at e)

  -- `isFolderDescendant` ends, and says whether the one folder lies under the other.
  pub is_folder_descendant_iff :
      (target root : ℕ)
      → (b : Bool) × (is_folder_descendant folders target root ≡ some b)
        × ((b ≡ true) ↔ Under root target)
  unfolding is_folder_descendant UnderOption
  is_folder_descendant_iff target root = elim (Bool-cases (target == root)) [
    | inl top ↦
        let same : target ≡ root = ground arith in
        (true, simp top refl, ((λ _. rw same here), (λ _. refl)))
    | inr below ↦
        let (b, e) =
          climb-ends folders root (rounds folders) [] (some target)
            (omega (arith, remaining_le (λ (f : Folder). f.id) [] folders)) in
        (
          b,
          simp below e,
          (
            (λ said. climb-UnderOption root (rounds folders) [] (some target) (rw (← said) e)),
            (λ u.
                let (n, h) = height root target u in
                climb-Height root (rounds folders) n target [] b h (unfold Longer in tt) e),
          ),
        )
  ]
