-- ===== src/Sharing/Access/Tests.antt =====
-- A tree of three folders beside a cycle of two, and a link to its root.
use docsmint.Prelude.{
  has, ℕ, ◌≡◌, ◌↔◌, refl, Bool, true, Option, none, some, List, [], ◌∷◌, if◌then◌else◌,
}
use docsmint.Sharing.Tables.{Folder, Document, Link, Tables}
use docsmint.Sharing.Climb.{climb, is_folder_descendant}
use docsmint.Sharing.Climb.Under.{Under}
use docsmint.Sharing.Spread.{folder_ids}
use docsmint.Sharing.Spread.Reached.{folder_ids_iff}
use docsmint.Sharing.Access.{
  granted, no_access, category_grants, share_token_access, Scope, resolve_share_scope,
  folder_grants, link_access,
}
use docsmint.Sharing.Access.Agree.{to_folder, share_access_agrees}

abbrev folder : ℕ → Option ℕ → Option ℕ → Folder
folder id parent category = record { id = id; owner = 7; parent = parent; category = category }

abbrev folders : List Folder
folders =
    folder 1 none none
    ∷ folder 2 (some 1) none
    ∷ folder 3 (some 2) (some 9)
    ∷ folder 4 (some 5) none
    ∷ folder 5 (some 4) none
    ∷ []

abbrev report : Document
report = record { id = 20; owner = 7; folder = some 3; category = none }

abbrev stray : Document
stray = record { id = 21; owner = 7; folder = some 4; category = none }

abbrev link : Link
link = record {
  token = 70;
  created_by = 7;
  document = none;
  folder = some 1;
  category = none;
  password_hash = none;
  expires_at = some 1000;
}

abbrev tables : Tables
tables = record { folders = folders; documents = report ∷ stray ∷ []; links = link ∷ [] }

test-granted : share_token_access 1000 tables 20 70 ≡ some granted
unfolding share_token_access link_access folder_grants is_folder_descendant climb
test-granted = refl

test-cycle : share_token_access 1000 tables 21 70 ≡ some no_access
unfolding share_token_access link_access folder_grants category_grants is_folder_descendant climb
test-cycle = refl

folder_ids_iff_example :
    (ids : List ℕ) × (folder_ids folders (some 2) ≡ some ids)
    × ((c : ℕ) → (has ids c ≡ true) ↔ Under folders 2 c)
folder_ids_iff_example = folder_ids_iff folders 2 (refl, (refl, (refl, (refl, (refl, tt)))))

share_access_agrees_example :
    (granting : Bool) × (scope : Scope) × (share_token_access 1000 tables 20 70
      ≡ some (if granting then granted else no_access))
    × (resolve_share_scope 1000 tables 70 ≡ some (some scope))
    × (has scope.document_ids 20 ≡ granting)
share_access_agrees_example =
    share_access_agrees 1000 tables 20 70 link report refl refl (to_folder 1 refl refl refl) refl
      refl (refl, (refl, tt)) (refl, (refl, (refl, (refl, (refl, tt)))))
      (refl, (refl, (refl, (refl, (refl, tt)))))
