-- ===== src/Folders/Tree/Moves.antt =====
-- The rows that are inserted, changed and deleted leave a forest.
use docsmint.Prelude.{
  ℕ, zero, suc, ◌≡◌, ◌⊎◌, inl, inr, refl, sym, subst, ap, ◌∙◌, true, false, Option, none, some,
  List, [], ◌∷◌, ◌++◌, ◌==◌, arith, Bool-cases, Option-cases, ==_iff,
}
use docsmint.Folders.Tree.{
  Folder, Changes, find_folder, exists_folder, parent_of, is_given, update_rows, delete_row,
}
use docsmint.Folders.Tree.Forest.{
  ends, avoids, ends-changed, ends-detached, ends-attached, IsForest,
}
use docsmint.Folders.Tree.Rows.{
  parent_of-append-other, parent_of-append-new, parent_of-update-other, parent_of-update-own,
  parent_of-found, delete-cases, exists-update, exists-append, exists-delete,
}

module _ (fs gs : List Folder) where
  -- Parents that are only taken away, and do not point to a row that is gone.
  fewer-IsForest :
      IsForest fs
      → ((c : ℕ) → (parent_of gs c ≡ parent_of fs c) ⊎ (parent_of gs c ≡ none))
      → ((c p : ℕ) → parent_of gs c ≡ some p → parent_of fs c ≡ some p → exists_folder gs p ≡ true)
      → IsForest gs
  fewer-IsForest forest fewer there = record {
    linked = λ c p e. elim (fewer c) [
      | inl same ↦ there c p e (sym same ∙ e)
      | inr gone ↦ absurd (ground arith)
    ];
    grounded = λ c.
        let (n, h) = forest.grounded c in
        (n, ends-detached (parent_of fs) (parent_of gs) fewer n (some c) h);
  }

  -- One row gets a parent whose chain avoids it.
  attached-IsForest :
      (id p n : ℕ)
      → IsForest fs
      → ((c : ℕ) → (c == id) ≡ false → parent_of gs c ≡ parent_of fs c)
      → parent_of gs id ≡ some p
      → avoids (parent_of fs) id n (some p) ≡ true
      → ((c : ℕ) → exists_folder fs c ≡ true → exists_folder gs c ≡ true)
      → exists_folder fs p ≡ true
      → IsForest gs
  attached-IsForest id p n forest same own clear more there = record {
    linked = links;
    grounded = λ c.
        let (k, h) = forest.grounded c in
        ends-changed (parent_of fs) (parent_of gs) id (suc n) same
          (ends-attached (parent_of fs) (parent_of gs) id p n same own clear) k (some c) h;
  }
    where
      links : (c q : ℕ) → parent_of gs c ≡ some q → exists_folder gs q ≡ true
      links c q e = elim (Bool-cases (c == id)) [
        | inl here ↦
            let i : c ≡ id = (==_iff c id).0 here in
            let up : some q ≡ some p = sym e ∙ ap (parent_of gs) i ∙ own in
            let q_is : p ≡ q = ground arith in
            more q (subst (λ x. exists_folder fs x ≡ true) q_is there)
        | inr other ↦ more q (forest.linked c q (sym (same c other) ∙ e))
      ]

-- A chain of rows that are there avoids a row that is not.
exists-avoids :
    (fs : List Folder) (id n : ℕ) (current : Option ℕ)
    → IsForest fs
    → find_folder fs id ≡ none
    → ((c : ℕ) → current ≡ some c → exists_folder fs c ≡ true)
    → ends (parent_of fs) n current ≡ true
    → avoids (parent_of fs) id n current ≡ true
unfolding ends avoids
exists-avoids fs id zero none forest new there h = refl
exists-avoids fs id (suc n) none forest new there h = refl
exists-avoids fs id zero (some c) forest new there h = absurd (ground arith)
exists-avoids fs id (suc n) (some c) forest new there h = elim (Bool-cases (c == id)) [
  | inl here ↦
      let i : c ≡ id = (==_iff c id).0 here in
      let gone : exists_folder fs c ≡ false = ap (exists_folder fs) i ∙ ap is_given new in
      absurd (let t = there c refl in ground arith)
  | inr other ↦
      let rest = exists-avoids fs id n (parent_of fs c) forest new (forest.linked c) h in
      simp (other, rest) refl
]

pub insert-IsForest :
    (fs : List Folder) (row : Folder)
    → IsForest fs
    → find_folder fs row.id ≡ none
    → ((p : ℕ) → row.parent ≡ some p → exists_folder fs p ≡ true)
    → IsForest (fs ++ row ∷ [])
insert-IsForest fs row forest new there = elim (Option-cases row.parent) [
  | inl root ↦
      fewer-IsForest fs (fs ++ row ∷ []) forest
        (λ c. elim (Bool-cases (c == row.id)) [
          | inl here ↦ inr (ap (parent_of (fs ++ row ∷ [])) ((==_iff c row.id).0 here) ∙ own ∙ root)
          | inr other ↦ inl (parent_of-append-other row fs c other)
        ])
        (λ c p e k. exists-append p row fs (forest.linked c p k))
  | inr (p, below) ↦
      let (n, h) = forest.grounded p in
      attached-IsForest fs (fs ++ row ∷ []) row.id p n forest (parent_of-append-other row fs)
        (own ∙ below) (exists-avoids fs row.id n (some p) forest new (λ c e. there c (below ∙ e)) h)
        (λ c. exists-append c row fs) (there p below)
]
  where
    own : parent_of (fs ++ row ∷ []) row.id ≡ row.parent
    own = parent_of-append-new row fs new

pub delete-IsForest : (fs : List Folder) (id : ℕ) → IsForest fs → IsForest (delete_row id fs)
delete-IsForest fs id forest =
    fewer-IsForest fs (delete_row id fs) forest
      (λ c. elim (delete-cases id c fs) [ inl (same, _) ↦ inl same | inr gone ↦ inr gone ])
      (λ c p e k. elim (delete-cases id c fs) [
        | inl (_, left) ↦ exists-delete id p fs (left p k) ∙ forest.linked c p k
        | inr gone ↦ absurd (let t : some p ≡ none = sym e ∙ gone in ground arith)
      ])

-- An update that leaves the parent, or takes it away.
pub update-same-IsForest :
    (fs : List Folder) (id : ℕ) (c : Changes) (f : Folder)
    → IsForest fs
    → find_folder fs id ≡ some f
    → (c.parent ≡ none) ⊎ (c.parent ≡ some none)
    → IsForest (update_rows id c fs)
update-same-IsForest fs id c f forest found kind =
    fewer-IsForest fs (update_rows id c fs) forest
      (λ d. elim (Bool-cases (d == id)) [
        | inl own ↦
            subst
              (λ x.
                (parent_of (update_rows id c fs) x ≡ parent_of fs x)
                ⊎ (parent_of (update_rows id c fs) x ≡ none))
              (sym ((==_iff d id).0 own)) (fewer kind)
        | inr other ↦ inl (parent_of-update-other id d c fs other)
      ])
      (λ d p e k. exists-update id p c fs ∙ forest.linked d p k)
  where
    fewer :
        (c.parent ≡ none) ⊎ (c.parent ≡ some none)
        → (parent_of (update_rows id c fs) id ≡ parent_of fs id)
          ⊎ (parent_of (update_rows id c fs) id ≡ none)
    fewer (inl left) = inl (
        (simp left at (parent_of-update-own id c f fs found)) ∙ sym (parent_of-found fs id f found))
    fewer (inr root) = inr (simp root at (parent_of-update-own id c f fs found))

-- An update that puts the folder below another, whose chain avoids it.
pub update-moved-IsForest :
    (fs : List Folder) (id p n : ℕ) (c : Changes) (f : Folder)
    → IsForest fs
    → find_folder fs id ≡ some f
    → c.parent ≡ some (some p)
    → exists_folder fs p ≡ true
    → avoids (parent_of fs) id n (some p) ≡ true
    → IsForest (update_rows id c fs)
update-moved-IsForest fs id p n c f forest found below there clear =
    attached-IsForest fs (update_rows id c fs) id p n forest (λ d. parent_of-update-other id d c fs)
      (simp below at (parent_of-update-own id c f fs found)) clear
      (λ d h. exists-update id d c fs ∙ h) there
