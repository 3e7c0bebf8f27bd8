-- ===== src/Folders/Tree/Histories.antt =====
-- What the operations on folders can lead to.
use docsmint.Prelude.{ℕ, ◌≡◌, refl, subst, Bool, Option, none, some, List, [], arith}
use docsmint.Folders.Tree.{
  Folder, Access, NewFolder, Changes, Outcome, changed, find_folder, parent_of,
}
use docsmint.Folders.Tree.Routes.{create_folder, update_folder, delete_folder}
use docsmint.Folders.Tree.Forest.{ends, IsForest}
use docsmint.Folders.Tree.Operations.{
  Keeps, create_folder-Keeps, update_folder-Keeps, delete_folder-Keeps,
}

-- An operation that was not refused.
pub data Step (fs gs : List Folder) : Type 0 where
  created :
      (access : Access) (categories : List ℕ) (id : ℕ) (input : NewFolder) (b : Bool)
      → find_folder fs id ≡ none
      → create_folder access categories id input fs ≡ some (changed gs b)
      → Step fs gs
  updated :
      (access : Access) (categories : List ℕ) (id : ℕ) (c : Changes) (b : Bool)
      → update_folder access categories id c fs ≡ some (changed gs b)
      → Step fs gs
  deleted :
      (access : Access) (categories : List ℕ) (id : ℕ) (b : Bool)
      → delete_folder access categories id fs ≡ some (changed gs b)
      → Step fs gs

pub data Reach (fs : List Folder) : List Folder → Type 0 where
  start : Reach fs fs
  next : {gs hs : List Folder} → Reach fs gs → Step gs hs → Reach fs hs

kept :
    (o : Option Outcome) (gs : List Folder) (b : Bool)
    → Keeps o
    → o ≡ some (changed gs b)
    → IsForest gs
kept o gs b k e = (subst Keeps e k).leaves

-- From a table in which every parent is there and every chain of parents ends, every sequence of
-- created, changed and deleted folders, whoever makes them, leads to such a table.
pub Reach-IsForest : (fs gs : List Folder) → IsForest fs → Reach fs gs → IsForest gs
Reach-IsForest fs _ forest start = forest
Reach-IsForest fs _ forest (next {gs} {hs} r (created access categories id input b new e)) =
    kept _ hs b
      (create_folder-Keeps access categories gs (Reach-IsForest fs gs forest r) id input new) e
Reach-IsForest fs _ forest (next {gs} {hs} r (updated access categories id c b e)) =
    kept _ hs b (update_folder-Keeps access categories gs (Reach-IsForest fs gs forest r) id c) e
Reach-IsForest fs _ forest (next {gs} {hs} r (deleted access categories id b e)) =
    kept _ hs b (delete_folder-Keeps access categories gs (Reach-IsForest fs gs forest r) id) e

returned : (o : Option Outcome) → Keeps o → (a : Outcome) × (o ≡ some a)
returned none k = absurd k.leaves
returned (some a) k = (a, refl)

pub nothing-IsForest : IsForest []
unfolding parent_of ends
nothing-IsForest = record { linked = λ c p e. absurd (ground arith); grounded = λ c. (1, refl) }

-- After any operations on a tenant's folders, from none at all, every operation returns: no walk up a
-- chain of parents runs out of its fuel, and the name of a new folder is found.
pub operations_end :
    (fs : List Folder) (access : Access) (categories : List ℕ) (id new : ℕ) (input : NewFolder)
    (c : Changes)
    → Reach [] fs
    → find_folder fs new ≡ none
    → ((a : Outcome) × (create_folder access categories new input fs ≡ some a))
      × ((a : Outcome) × (update_folder access categories id c fs ≡ some a))
      × ((a : Outcome) × (delete_folder access categories id fs ≡ some a))
operations_end fs access categories id new input c r fresh =
    let forest = Reach-IsForest [] fs nothing-IsForest r in
    (
      returned _ (create_folder-Keeps access categories fs forest new input fresh),
      returned _ (update_folder-Keeps access categories fs forest id c),
      returned _ (delete_folder-Keeps access categories fs forest id),
    )
