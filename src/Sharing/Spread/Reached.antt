-- ===== src/Sharing/Spread/Reached.antt =====
-- The walk down visits the folders that lie under the shared one, and no other.
use docsmint.Prelude.{
  has, ℕ, zero, suc, ◌+◌, ◌<◌, ◌≡◌, ◌↔◌, inl, inr, refl, Bool, true, false, not, Option, none, some,
  List, [], ◌∷◌, ◌==◌, ◌||◌, length, keep, arith, Bool-cases, Option-cases, All, is_id, ==_refl,
  length-keep,
}
use docsmint.Sharing.Tables.{Folder, find_folder, IsKeyed}
use docsmint.Sharing.Spread.{children, push_all, spread, folder_ids}
use docsmint.Sharing.Climb.Under.{Under, here, above}

length-push_all : (xs pending : List ℕ) → length (push_all xs pending) ≡ length xs + length pending
unfolding push_all
length-push_all [] pending = omega arith
length-push_all (x ∷ xs) pending = omega (arith, length-push_all xs (x ∷ pending))

has-push_all :
    (n : ℕ) (xs pending : List ℕ) → has (push_all xs pending) n ≡ (has xs n || has pending n)
unfolding push_all
has-push_all n [] pending = refl
has-push_all n (x ∷ xs) pending = ground (arith, has-push_all n xs (x ∷ pending))

-- The folder will not be pushed again: its parent was visited.
abbrev visited_parent : List ℕ → Option ℕ → Bool
visited_parent visited none = false
visited_parent visited (some p) = has visited p

-- The folders that may still be pushed.
abbrev unpushed : List ℕ → List Folder → ℕ
unpushed visited folders = length (keep (λ f. not (visited_parent visited f.parent)) folders)

push_once :
    (c : ℕ) (visited : List ℕ) (folders : List Folder)
    → has visited c ≡ false
    → length (children folders c) + unpushed (c ∷ visited) folders ≡ unpushed visited folders
push_once c visited [] h = omega arith
push_once c visited (f ∷ fs) h = elim (Option-cases f.parent) [
  | inl top ↦ simp top (omega (arith, push_once c visited fs h))
  | inr (p, below) ↦ elim (Bool-cases (p == c)) [
    | inl child ↦
        let same : p ≡ c = ground arith in
        let open_parent : has visited p ≡ false = rw same h in
        let met : (c == p) ≡ true = ground arith in
        simp (below, child, open_parent, met) (omega (arith, push_once c visited fs h))
    | inr other ↦
        let unmet : (c == p) ≡ false = ground arith in
        elim (Bool-cases (has visited p)) [
          | inl old ↦ simp (below, other, old, unmet) (omega (arith, push_once c visited fs h))
          | inr new ↦ simp (below, other, new, unmet) (omega (arith, push_once c visited fs h))
        ]
  ]
]

drop-seen :
    (c : ℕ) (pending visited : List ℕ) (w : ℕ)
    → has visited c ≡ true
    → (has (c ∷ pending) w || has visited w) ≡ true
    → (has pending w || has visited w) ≡ true
drop-seen c pending visited w old h = elim (Bool-cases (c == w)) [
  | inl met ↦
      let same : c ≡ w = ground arith in
      let seen : has visited w ≡ true = rw (← same) old in ground arith
  | inr other ↦ ground arith
]

module _ (folders : List Folder) where
  spread-ends :
      (n : ℕ) (pending visited : List ℕ)
      → length pending + unpushed visited folders < n
      → (ids : List ℕ) × (spread folders n pending visited ≡ some ids)
  unfolding spread
  spread-ends zero pending visited h = absurd (omega arith)
  spread-ends (suc n) [] visited h = (visited, refl)
  spread-ends (suc n) (c ∷ pending) visited h = elim (Bool-cases (has visited c)) [
    | inl old ↦ let (ids, e) = spread-ends n pending visited (omega (arith, h)) in (ids, simp old e)
    | inr new ↦
        let (ids, e) = spread-ends n (push_all (children folders c) pending) (c ∷ visited) (
          omega (
            arith,
            h,
            push_once c visited folders new,
            length-push_all (children folders c) pending,
          )) in
        (ids, simp new e)
  ]

  spread-grows :
      (n : ℕ) (pending visited ids : List ℕ) (w : ℕ)
      → spread folders n pending visited ≡ some ids
      → (has pending w || has visited w) ≡ true
      → has ids w ≡ true
  unfolding spread
  spread-grows zero pending visited ids w e h = absurd (ground arith)
  spread-grows (suc n) [] visited ids w e h = ground arith
  spread-grows (suc n) (c ∷ pending) visited ids w e h = elim (Bool-cases (has visited c)) [
    | inl old ↦
        spread-grows n pending visited ids w (simp old at e) (drop-seen c pending visited w old h)
    | inr new ↦
        spread-grows n (push_all (children folders c) pending) (c ∷ visited) ids w (simp new at e)
          (rw (has-push_all w (children folders c) pending) (ground arith))
  ]

  -- The children of what was visited were visited or wait.
  Closed : List ℕ → List ℕ → Type 0
  Closed pending visited =
      (v w : ℕ)
      → has visited v ≡ true
      → has (children folders v) w ≡ true
      → (has pending w || has visited w) ≡ true

  Closed-skip :
      (c : ℕ) (pending visited : List ℕ)
      → has visited c ≡ true
      → Closed (c ∷ pending) visited
      → Closed pending visited
  unfolding Closed
  Closed-skip c pending visited old h v w seen child =
      drop-seen c pending visited w old (h v w seen child)

  Closed-enter :
      (c : ℕ) (pending visited : List ℕ)
      → Closed (c ∷ pending) visited
      → Closed (push_all (children folders c) pending) (c ∷ visited)
  unfolding Closed
  Closed-enter c pending visited h v w seen child =
      let pushed = has-push_all w (children folders c) pending in
      elim (Bool-cases (c == v)) [
        | inl met ↦
            let same : c ≡ v = ground arith in
            let own : has (children folders c) w ≡ true = rw same child in ground arith
        | inr other ↦ let before = h v w (ground arith) child in ground arith
      ]

  spread-Closed :
      (n : ℕ) (pending visited ids : List ℕ)
      → spread folders n pending visited ≡ some ids
      → Closed pending visited
      → Closed [] ids
  unfolding spread
  spread-Closed zero pending visited ids e h = absurd (ground arith)
  spread-Closed (suc n) [] visited ids e h =
      let same : visited ≡ ids = ground arith in rw (← same) h
  spread-Closed (suc n) (c ∷ pending) visited ids e h = elim (Bool-cases (has visited c)) [
    | inl old ↦
        spread-Closed n pending visited ids (simp old at e) (Closed-skip c pending visited old h)
    | inr new ↦
        spread-Closed n (push_all (children folders c) pending) (c ∷ visited) ids (simp new at e)
          (Closed-enter c pending visited h)
  ]

  found-child :
      (fs : List Folder) (c p : ℕ) (f : Folder)
      → find_folder fs c ≡ some f
      → f.parent ≡ some p
      → has (children fs p) c ≡ true
  found-child [] c p f e up = absurd (ground arith)
  found-child (g ∷ gs) c p f e up = elim (Bool-cases (g.id == c)) [
    | inl met ↦
        let same : g ≡ f = ground arith in
        let parent : g.parent ≡ some p = rw same up in
        let is_child : is_id g.parent p ≡ true = rw parent (==_refl p) in simp (is_child, met) refl
    | inr other ↦
        let rest = found-child gs c p f (simp other at e) up in
        elim (Bool-cases (is_id g.parent p)) [
          | inl child ↦ simp (child, other) rest
          | inr not_child ↦ simp not_child rest
        ]
  ]

  Under-has :
      (root c : ℕ) (ids : List ℕ)
      → has ids root ≡ true
      → Closed [] ids
      → Under folders root c
      → has ids c ≡ true
  unfolding Closed
  Under-has root _ ids top h here = top
  Under-has root c ids top h (above {p = p} f found up u) =
      h p c (Under-has root p ids top h u) (found-child folders c p f found up)

  -- What the walk down holds lies under `root`.
  AllUnder : ℕ → List ℕ → Type 0
  AllUnder root ids = All (λ c. Under folders root c) ids

  AllUnder-has :
      (root c : ℕ) (ids : List ℕ) → AllUnder root ids → has ids c ≡ true → Under folders root c
  unfolding AllUnder
  AllUnder-has root c [] a h = absurd (ground arith)
  AllUnder-has root c (x ∷ xs) (u, a) h = elim (Bool-cases (x == c)) [
    | inl met ↦ let same : x ≡ c = ground arith in rw (← same) u
    | inr other ↦ AllUnder-has root c xs a (ground arith)
  ]

  children-AllUnder :
      (root c : ℕ) (fs : List Folder)
      → All (λ f. find_folder folders f.id ≡ some f) fs
      → Under folders root c
      → AllUnder root (children fs c)
  unfolding AllUnder
  children-AllUnder root c [] k u = tt
  children-AllUnder root c (f ∷ fs) (own, k) u =
      let rest = children-AllUnder root c fs k u in
      elim (Option-cases f.parent) [
        | inl top ↦ simp top rest
        | inr (p, below) ↦ elim (Bool-cases (p == c)) [
          | inl met ↦
              let same : p ≡ c = ground arith in
              simp (below, met) (above f own below (rw same u), rest)
          | inr other ↦ simp (below, other) rest
        ]
      ]

  push_all-AllUnder :
      (root : ℕ) (xs pending : List ℕ)
      → AllUnder root xs
      → AllUnder root pending
      → AllUnder root (push_all xs pending)
  unfolding push_all AllUnder
  push_all-AllUnder root [] pending a b = b
  push_all-AllUnder root (x ∷ xs) pending (u, a) b =
      push_all-AllUnder root xs (x ∷ pending) a (u, b)

  spread-AllUnder :
      (root n : ℕ) (pending visited ids : List ℕ)
      → IsKeyed folders
      → spread folders n pending visited ≡ some ids
      → AllUnder root pending
      → AllUnder root visited
      → AllUnder root ids
  unfolding spread AllUnder
  spread-AllUnder root zero pending visited ids k e a b = absurd (ground arith)
  spread-AllUnder root (suc n) [] visited ids k e a b =
      let same : visited ≡ ids = ground arith in rw (← same) b
  spread-AllUnder root (suc n) (c ∷ pending) visited ids k e (u, a) b =
      elim (Bool-cases (has visited c)) [
        | inl old ↦ spread-AllUnder root n pending visited ids k (simp old at e) a b
        | inr new ↦
            spread-AllUnder root n (push_all (children folders c) pending) (c ∷ visited) ids k
              (simp new at e)
              (push_all-AllUnder root (children folders c) pending
                (children-AllUnder root c folders k u) a)
              (u, b)
      ]

  -- In a table whose identifiers are unique, the walk down from a folder ends, with the folders that
  -- lie under it.
  pub folder_ids_iff :
      (root : ℕ)
      → IsKeyed folders
      → (ids : List ℕ) × (folder_ids folders (some root) ≡ some ids)
        × ((c : ℕ) → (has ids c ≡ true) ↔ Under folders root c)
  unfolding folder_ids AllUnder Closed
  folder_ids_iff root k =
      let few = length-keep (λ f. not (visited_parent [] f.parent)) folders in
      let (ids, e) = spread-ends (length folders + 2) (root ∷ []) [] (omega (arith, few)) in
      let under = spread-AllUnder root (length folders + 2) (root ∷ []) [] ids k e (here, tt) tt in
      let closed =
        spread-Closed (length folders + 2) (root ∷ []) [] ids e
          (λ v w seen child. absurd (ground arith)) in
      let top =
        spread-grows (length folders + 2) (root ∷ []) [] ids root e
          (ground (arith, ==_refl root)) in
      (ids, e, (λ c. (AllUnder-has root c ids under, Under-has root c ids top closed)))
