-- ===== src/Folders/Tree/Operations.antt =====
-- The operations on folders return, and keep their table a forest.
use docsmint.Prelude.{
  has, ℕ, ◌≡◌, inl, inr, refl, sym, subst, ap, Bool, true, false, not, ◌&&◌, ◌||◌, Option, none,
  some, List, [], ◌==◌, if◌then◌else◌, arith, Option-cases,
}
use docsmint.Folders.Names.{Name, next_available_folder_name}
use docsmint.Folders.Names.Free.{next_available_folder_name_ends}
use docsmint.Folders.Tree.{
  Folder, Access, NewFolder, Changes, Refusal, Outcome, refused, empty_changes, not_found,
  forbidden, self_parent, parent_missing, category_missing, metadata_changed, changed, find_folder,
  exists_folder, finds_above, rounds, is_given, is_authorized, sibling_names, update_rows, new_row,
}
use docsmint.Folders.Tree.Routes.{
  insert_row, check_new, create_in, create_folder, write_changes, check_cycle, check_parent,
  destination, check_destination, check_source, update_folder, check_delete, delete_folder,
}
use docsmint.Folders.Tree.Forest.{finds_above-avoids, IsForest}
use docsmint.Folders.Tree.Moves.{
  insert-IsForest, delete-IsForest, update-same-IsForest, update-moved-IsForest,
}
use docsmint.Folders.Tree.Ends.{ends_soon, effective_category_ends, finds_above_ends}

-- The operation returned, and the table that it left is a forest.
abbrev pub Leaves : Option Outcome → Type 0
Leaves none = ⊥
Leaves (some (refused r)) = Unit {0}
Leaves (some (changed fs b)) = IsForest fs

pub record Keeps (o : Option Outcome) : Type 0 where
  pub leaves : Leaves o

-- An operation that is refused if `b` is true.
unless-Keeps :
    {x : Option Outcome} (b : Bool) (r : Refusal)
    → (b ≡ false → Keeps x)
    → Keeps (if b then some (refused r) else x)
unless-Keeps true r h = record { leaves = tt }
unless-Keeps false r h = h refl

not-false : (b : Bool) → not b ≡ false → b ≡ true
not-false b h = ground arith

exists-found :
    (fs : List Folder) (id : ℕ)
    → not (exists_folder fs id) ≡ false
    → (f : Folder) × (find_folder fs id ≡ some f)
exists-found fs id h = elim (Option-cases (find_folder fs id)) [
  | inl gone ↦ absurd (let t : exists_folder fs id ≡ false = ap is_given gone in ground arith)
  | inr found ↦ found
]

given-ends :
    (source : Option ℕ) (o : Option (Option ℕ))
    → (k : Option ℕ) × (elim o [ none ↦ some source | some k ↦ some k ] ≡ some k)
given-ends source none = (source, refl)
given-ends source (some k) = (k, refl)

module _ (access : Access) (categories : List ℕ) (fs : List Folder) (forest : IsForest fs) where
  insert_row-Keeps :
      (id : ℕ) (parent category : Option ℕ) (name : Name)
      → find_folder fs id ≡ none
      → ((p : ℕ) → parent ≡ some p → exists_folder fs p ≡ true)
      → Keeps (insert_row access categories id parent category (some name) fs)
  unfolding insert_row
  insert_row-Keeps id parent category name new there = record {
    leaves = insert-IsForest fs (new_row id parent category name) forest new there;
  }

  check_new-Keeps :
      (id : ℕ) (input : NewFolder) (category k : Option ℕ)
      → find_folder fs id ≡ none
      → Keeps (check_new access categories id input category fs (some k))
  unfolding check_new
  check_new-Keeps id input category k new =
      unless-Keeps (not (is_authorized access k)) forbidden (λ _.
        unless-Keeps (elim input.parent [ none ↦ false | some p ↦ not (exists_folder fs p) ])
          parent_missing
          (λ there.
            unless-Keeps (elim category [ none ↦ false | some k ↦ not (has categories k) ])
              category_missing (λ _. insert there)))
    where
      parent_there :
          (o : Option ℕ)
          → elim o [ none ↦ false | some p ↦ not (exists_folder fs p) ] ≡ false
          → (p : ℕ) → o ≡ some p
          → exists_folder fs p ≡ true
      parent_there none h p e = absurd (ground arith)
      parent_there (some q) h p e =
          let i : q ≡ p = ground arith in subst (λ x. exists_folder fs x ≡ true) i (ground arith)

      insert :
          elim input.parent [ none ↦ false | some p ↦ not (exists_folder fs p) ] ≡ false
          → Keeps (
              insert_row access categories id input.parent category
                (next_available_folder_name input.name (sibling_names input.parent category fs))
                fs)
      insert h =
          let (r, e, _) =
            next_available_folder_name_ends input.name (sibling_names input.parent category fs) in
          subst (λ n. Keeps (insert_row access categories id input.parent category n fs)) (sym e)
            (insert_row-Keeps id input.parent category r new (parent_there input.parent h))

  pub create_folder-Keeps :
      (id : ℕ) (input : NewFolder)
      → find_folder fs id ≡ none
      → Keeps (create_folder access categories id input fs)
  unfolding create_folder create_in
  create_folder-Keeps id input new = place input.parent
    where
      place : (o : Option ℕ) → Keeps (create_in access categories id input fs o)
      place none = check_new-Keeps id input input.category input.category new
      place (some p) =
          let (k, e) = effective_category_ends fs forest p in
          subst (λ o. Keeps (check_new access categories id input none fs o)) (sym e)
            (check_new-Keeps id input none k new)

  write_changes-Keeps :
      (id : ℕ) (c : Changes)
      → IsForest (update_rows id c fs)
      → Keeps (write_changes access categories id c fs)
  unfolding write_changes
  write_changes-Keeps id c h = record { leaves = h }

  check_cycle-Keeps :
      (id p : ℕ) (c : Changes) (f : Folder)
      → find_folder fs id ≡ some f
      → c.parent ≡ some (some p)
      → exists_folder fs p ≡ true
      → Keeps (check_cycle access categories id c fs (finds_above fs (rounds fs) id [] (some p)))
  unfolding check_cycle
  check_cycle-Keeps id p c f found below there =
      let (b, e) = finds_above_ends fs forest id p in
      subst (λ o. Keeps (check_cycle access categories id c fs o)) (sym e) (decided b e)
    where
      decided :
          (b : Bool)
          → finds_above fs (rounds fs) id [] (some p) ≡ some b
          → Keeps (check_cycle access categories id c fs (some b))
      decided true e = record { leaves = tt }
      decided false e =
          let (n, _, x) = ends_soon fs forest p in
          write_changes-Keeps id c (
            update-moved-IsForest fs id p n c f forest found below there
              (finds_above-avoids fs (rounds fs) id n [] (some p) x tt e))

  check_parent-Keeps :
      (id : ℕ) (c : Changes) (f : Folder) (o : Option (Option ℕ))
      → find_folder fs id ≡ some f
      → c.parent ≡ o
      → Keeps (check_parent access categories id c fs o)
  unfolding check_parent
  check_parent-Keeps id c f none found e =
      write_changes-Keeps id c (update-same-IsForest fs id c f forest found (inl e))
  check_parent-Keeps id c f (some none) found e =
      unless-Keeps (elim c.category [ some (some k) ↦ not (has categories k) | _ ↦ false ])
        category_missing
        (λ _. write_changes-Keeps id c (update-same-IsForest fs id c f forest found (inr e)))
  check_parent-Keeps id c f (some (some p)) found e = unless-Keeps (p == id) self_parent (λ _.
      unless-Keeps (not (exists_folder fs p)) parent_missing
        (λ there. check_cycle-Keeps id p c f found e (not-false (exists_folder fs p) there)))

  destination-ends :
      (c : Changes) (source : Option ℕ) (o : Option (Option ℕ))
      → (k : Option ℕ) × (destination access categories c fs source o ≡ some k)
  unfolding destination
  destination-ends c source (some (some p)) = effective_category_ends fs forest p
  destination-ends c source none = given-ends source c.category
  destination-ends c source (some none) = given-ends source c.category

  check_source-Keeps :
      (id : ℕ) (c : Changes) (f : Folder) (source : Option ℕ)
      → find_folder fs id ≡ some f
      → Keeps (check_source access categories id c fs (some source))
  unfolding check_source check_destination
  check_source-Keeps id c f source found =
      unless-Keeps (not (is_authorized access source)) forbidden (λ _.
        let (k, e) = destination-ends c source c.parent in
        subst (λ o. Keeps (check_destination access categories id c fs o)) (sym e)
          (unless-Keeps ((is_given c.parent || is_given c.category) && not (is_authorized access k))
            forbidden (λ _. check_parent-Keeps id c f c.parent found refl)))

  pub update_folder-Keeps : (id : ℕ) (c : Changes) → Keeps (update_folder access categories id c fs)
  unfolding update_folder
  update_folder-Keeps id c =
      unless-Keeps (not (metadata_changed c) && not (is_given c.order)) empty_changes (λ _.
        unless-Keeps (not (exists_folder fs id)) not_found (λ there.
          let (f, found) = exists-found fs id there in
          let (k, e) = effective_category_ends fs forest id in
          subst (λ o. Keeps (check_source access categories id c fs o)) (sym e)
            (check_source-Keeps id c f k found)))

  pub delete_folder-Keeps : (id : ℕ) → Keeps (delete_folder access categories id fs)
  unfolding delete_folder check_delete
  delete_folder-Keeps id =
      let (k, e) = effective_category_ends fs forest id in
      subst (λ o. Keeps (check_delete access categories id fs o)) (sym e)
        (unless-Keeps (not (is_authorized access k)) forbidden (λ _.
          unless-Keeps (not (exists_folder fs id)) not_found
            (λ _. record { leaves = delete-IsForest fs id forest })))
