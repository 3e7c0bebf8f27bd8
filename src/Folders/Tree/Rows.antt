-- ===== src/Folders/Tree/Rows.antt =====
-- What the table of folders holds after a row was inserted, changed or deleted.
use docsmint.Prelude.{
  ℕ, ◌≡◌, ◌⊎◌, inl, inr, refl, sym, subst, ap, ◌∙◌, true, false, Option, none, some, List, [], ◌∷◌,
  ◌++◌, ◌==◌, if◌then◌else◌, is_id, arith, Bool-cases, ==_iff, ==_refl,
}
use docsmint.Folders.Tree.{
  Folder, Changes, find_folder, exists_folder, parent_of, changed_row, row_parent, is_given,
  update_rows, detach, delete_row,
}

-- What the tables after the three writes hold.
abbrev update_found : ℕ → Changes → Option Folder → Option Folder
update_found id c none = none
update_found id c (some f) = some (if f.id == id then changed_row c f else f)

abbrev detach_found : ℕ → Option Folder → Option Folder
detach_found id none = none
detach_found id (some f) = some (detach id f)

find-update :
    (id d : ℕ) (c : Changes) (folders : List Folder)
    → find_folder (update_rows id c folders) d ≡ update_found id c (find_folder folders d)
unfolding update_rows changed_row
find-update id d c [] = refl
find-update id d c (f ∷ fs) = elim (Bool-cases (f.id == d)) [
  | inl here ↦ elim (Bool-cases (f.id == id)) [
    | inl own ↦ simp (own, here) refl
    | inr other ↦ simp (other, here) refl
  ]
  | inr there ↦ elim (Bool-cases (f.id == id)) [
    | inl own ↦ simp (own, there) (find-update id d c fs)
    | inr other ↦ simp (other, there) (find-update id d c fs)
  ]
]

find-append-other :
    (d : ℕ) (row : Folder) (folders : List Folder)
    → (row.id == d) ≡ false
    → find_folder (folders ++ row ∷ []) d ≡ find_folder folders d
find-append-other d row [] h = simp h refl
find-append-other d row (f ∷ fs) h = ground (arith, find-append-other d row fs h)

find-append-new :
    (row : Folder) (folders : List Folder)
    → find_folder folders row.id ≡ none
    → find_folder (folders ++ row ∷ []) row.id ≡ some row
find-append-new row [] h = simp (==_refl row.id) refl
find-append-new row (f ∷ fs) h = elim (Bool-cases (f.id == row.id)) [
  | inl here ↦ absurd (let t = simp here at h in ground arith)
  | inr there ↦ simp there (find-append-new row fs (simp there at h))
]

find-delete-own : (id : ℕ) (folders : List Folder) → find_folder (delete_row id folders) id ≡ none
unfolding delete_row
find-delete-own id [] = refl
find-delete-own id (f ∷ fs) = elim (Bool-cases (f.id == id)) [
  | inl own ↦ simp own (find-delete-own id fs)
  | inr other ↦ simp other (find-delete-own id fs)
]

find-delete-other :
    (id d : ℕ) (folders : List Folder)
    → (d == id) ≡ false
    → find_folder (delete_row id folders) d ≡ detach_found id (find_folder folders d)
unfolding delete_row
find-delete-other id d [] h = refl
find-delete-other id d (f ∷ fs) h = elim (Bool-cases (f.id == id)) [
  | inl own ↦
      let there : (f.id == d) ≡ false = ground (arith, own, h) in
      simp (own, there) (find-delete-other id d fs h)
  | inr other ↦ elim (Bool-cases (f.id == d)) [
    | inl here ↦ simp other (simp here refl)
    | inr there ↦ simp other (simp there (find-delete-other id d fs h))
  ]
]

find-id :
    (d : ℕ) (f : Folder) (folders : List Folder)
    → find_folder folders d ≡ some f
    → (f.id == d) ≡ true
find-id d f [] h = absurd (ground arith)
find-id d f (g ∷ gs) h = elim (Bool-cases (g.id == d)) [
  | inl here ↦
      let e : some g ≡ some f = simp here at h in
      let same : g ≡ f = ground arith in subst (λ x. (x.id == d) ≡ true) same here
  | inr there ↦ find-id d f gs (simp there at h)
]

pub parent_of-found :
    (folders : List Folder) (d : ℕ) (f : Folder)
    → find_folder folders d ≡ some f
    → parent_of folders d ≡ f.parent
unfolding parent_of
parent_of-found folders d f h = ap row_parent h

-- The parents after the three writes.
pub parent_of-update-other :
    (id d : ℕ) (c : Changes) (folders : List Folder)
    → (d == id) ≡ false
    → parent_of (update_rows id c folders) d ≡ parent_of folders d
unfolding parent_of
parent_of-update-other id d c folders h =
    ap row_parent (find-update id d c folders) ∙ unchanged (find_folder folders d) refl
  where
    unchanged :
        (o : Option Folder)
        → find_folder folders d ≡ o
        → row_parent (update_found id c o) ≡ row_parent o
    unchanged none e = refl
    unchanged (some f) e =
        let own = find-id d f folders e in
        let other : (f.id == id) ≡ false = ground (arith, own, h) in simp other refl

pub parent_of-update-own :
    (id : ℕ) (c : Changes) (f : Folder) (folders : List Folder)
    → find_folder folders id ≡ some f
    → parent_of (update_rows id c folders) id ≡ elim c.parent [ none ↦ f.parent | some p ↦ p ]
unfolding parent_of changed_row
parent_of-update-own id c f folders found =
    ap row_parent (find-update id id c folders ∙ ap (update_found id c) found)
    ∙ simp (find-id id f folders found) refl

parent_of-delete :
    (id d : ℕ) (folders : List Folder)
    → (d == id) ≡ false
    → parent_of (delete_row id folders) d
      ≡ elim (parent_of folders d) [ none ↦ none | some p ↦ if p == id then none else some p ]
unfolding parent_of
parent_of-delete id d folders other =
    ap row_parent (find-delete-other id d folders other) ∙ detached (find_folder folders d)
  where
    cleared :
        (o : Option ℕ)
        → (if is_id o id then none else o)
          ≡ elim o [ none ↦ none | some p ↦ if p == id then none else some p ]
    cleared none = refl
    cleared (some p) = refl

    detached :
        (o : Option Folder)
        → row_parent (detach_found id o)
          ≡ elim (row_parent o) [ none ↦ none | some p ↦ if p == id then none else some p ]
    detached none = refl
    detached (some f) = cleared f.parent

parent_of-delete-own :
    (id : ℕ) (folders : List Folder) → parent_of (delete_row id folders) id ≡ none
unfolding parent_of
parent_of-delete-own id folders = ap row_parent (find-delete-own id folders)

-- A row keeps its parent, which is not the deleted one, or loses it.
pub delete-cases :
    (id d : ℕ) (folders : List Folder)
    → ((parent_of (delete_row id folders) d ≡ parent_of folders d)
        × ((p : ℕ) → parent_of folders d ≡ some p → (p == id) ≡ false))
      ⊎ (parent_of (delete_row id folders) d ≡ none)
delete-cases id d folders = elim (Bool-cases (d == id)) [
  | inl own ↦ inr (
      ap (parent_of (delete_row id folders)) ((==_iff d id).0 own)
      ∙ parent_of-delete-own id folders)
  | inr other ↦ kept (parent_of folders d) refl (parent_of-delete id d folders other)
]
  where
    kept :
        (o : Option ℕ)
        → parent_of folders d ≡ o
        → parent_of (delete_row id folders) d
          ≡ elim (parent_of folders d) [ none ↦ none | some p ↦ if p == id then none else some p ]
        → ((parent_of (delete_row id folders) d ≡ parent_of folders d)
            × ((p : ℕ) → parent_of folders d ≡ some p → (p == id) ≡ false))
          ⊎ (parent_of (delete_row id folders) d ≡ none)
    kept none e h = inr (simp e at h)
    kept (some q) e h = elim (Bool-cases (q == id)) [
      | inl gone ↦ inr (simp (e, gone) at h)
      | inr there ↦ inl (
        (simp (e, there) at h) ∙ sym e,
        (λ p k.
            let same : some q ≡ some p = sym e ∙ k in
            let i : q ≡ p = ground arith in subst (λ x. (x == id) ≡ false) i there),
      )
    ]

pub parent_of-append-new :
    (row : Folder) (folders : List Folder)
    → find_folder folders row.id ≡ none
    → parent_of (folders ++ row ∷ []) row.id ≡ row.parent
unfolding parent_of
parent_of-append-new row folders h = ap row_parent (find-append-new row folders h)

pub parent_of-append-other :
    (row : Folder) (folders : List Folder) (c : ℕ)
    → (c == row.id) ≡ false
    → parent_of (folders ++ row ∷ []) c ≡ parent_of folders c
unfolding parent_of
parent_of-append-other row folders c h =
    ap row_parent (find-append-other c row folders (ground arith))

pub exists-update :
    (id d : ℕ) (c : Changes) (folders : List Folder)
    → exists_folder (update_rows id c folders) d ≡ exists_folder folders d
exists-update id d c folders =
    ap is_given (find-update id d c folders) ∙ there (find_folder folders d)
  where
    there : (o : Option Folder) → is_given (update_found id c o) ≡ is_given o
    there none = refl
    there (some f) = refl

pub exists-append :
    (d : ℕ) (row : Folder) (folders : List Folder)
    → exists_folder folders d ≡ true
    → exists_folder (folders ++ row ∷ []) d ≡ true
exists-append d row [] h = absurd (ground arith)
exists-append d row (f ∷ fs) h = ground (arith, exists-append d row fs)

pub exists-delete :
    (id d : ℕ) (folders : List Folder)
    → (d == id) ≡ false
    → exists_folder (delete_row id folders) d ≡ exists_folder folders d
exists-delete id d folders h =
    ap is_given (find-delete-other id d folders h) ∙ there (find_folder folders d)
  where
    there : (o : Option Folder) → is_given (detach_found id o) ≡ is_given o
    there none = refl
    there (some f) = refl
