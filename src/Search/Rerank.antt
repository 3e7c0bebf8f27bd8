-- ===== src/Search/Rerank.antt =====
-- applyRerankOrder of backend/src/search/rerank.ts.
pub mod Order
use docsmint.Prelude.{
  ℕ, suc, Bool, true, false, not, ◌||◌, Option, none, some, List, [], ◌∷◌, ◌++◌, length, take, drop,
  keep, has, ◌==◌, if◌then◌else◌, ltb, min, sort_by,
}
use docsmint.Search.{Scoring, Ranked}

-- `RerankHit`
pub record Hit (S : Type 0) : Type 0 where
  pub id : ℕ
  pub score : S
  pub rank : ℕ

module _ (F : Scoring) where
  -- The comparator of the hits: by the score, the highest first, then by the rank.
  abbrev pub hit_after : Hit F.Score → Hit F.Score → Bool
  hit_after a b =
      if F.below a.score b.score
      then true
      else if F.below b.score a.score
      then false
      else ltb b.rank a.rank

  abbrev pub or_else : Option (Ranked F.Score) → Option (Ranked F.Score) → Option (Ranked F.Score)
  or_else none other = other
  or_else (some r) other = some r

  -- `byId.get(id)`; the last of several items of a document is the map's.
  unfoldable pub by_id : ℕ → List (Ranked F.Score) → Option (Ranked F.Score)
  by_id id [] = none
  by_id id (r ∷ rs) = or_else (by_id id rs) (if r.document == id then some r else none)

  abbrev pub item_of : Option (Ranked F.Score) → Bool → List (Ranked F.Score)
  item_of none seen = []
  item_of (some r) seen = if seen then [] else r ∷ []

  abbrev pub seen_after : Option (Ranked F.Score) → Bool → ℕ → List ℕ → List ℕ
  seen_after none seen id visited = visited
  seen_after (some r) seen id visited = if seen then visited else id ∷ visited

  -- The loop over the hits, and then the one over the window.
  unfoldable pub reorder :
      List (Ranked F.Score) → List ℕ → List (Hit F.Score) → List (Ranked F.Score)
  reorder window visited [] = keep (λ r. not (has visited r.document)) window
  reorder window visited (h ∷ hs) =
      let found = by_id h.id window in
      let seen = has visited h.id in
      item_of found seen ++ reorder window (seen_after found seen h.id visited) hs

  abbrev pub is_nothing : {A : Type 0} → List A → Bool
  is_nothing [] = true
  is_nothing (x ∷ xs) = false

  unfoldable pub apply_rerank_order :
      List (Ranked F.Score) → List (Hit F.Score) → ℕ → List (Ranked F.Score)
  apply_rerank_order ranked hits top =
      if is_nothing ranked || is_nothing hits || top == 0
      then ranked
      else reorder (take (min top (length ranked)) ranked) [] (sort_by hit_after hits)
        ++ drop (min top (length ranked)) ranked
