-- ===== src/Search/Rerank/Order.antt =====
-- Reranking loses no result and adds none.
use mathlib.Core.List.{Perm}
use mathlib.Core.List.Perm
use docsmint.Prelude.{
  ℕ, zero, suc, ◌≤◌, ◌≡◌, refl, ap, subst, sym, ◌∙◌, inl, inr, true, false, not, ◌||◌, Option, none,
  some, List, [], ◌∷◌, ◌++◌, length, take, drop, keep, has, ◌==◌, Bool-cases, ==_iff, Option-cases,
  sort_by, min, take-drop, take-min, drop-min, arith,
}
use docsmint.Search.{Scoring, Ranked}
use docsmint.Search.Fusion.Counts.{results}
use docsmint.Search.Rerank.{Hit, hit_after, is_nothing, or_else, by_id, reorder, apply_rerank_order}

module _ (F : Scoring) where
  -- No document has two results.
  abbrev pub IsDistinct : List (Ranked F.Score) → Type 0
  IsDistinct rs = (d : ℕ) → results F d rs ≤ 1

  abbrev unseen : List ℕ → List (Ranked F.Score) → List (Ranked F.Score)
  unseen visited rs = keep (λ r. not (has visited r.document)) rs

  IsDistinct-tail :
      (r : Ranked F.Score) (rs : List (Ranked F.Score)) → IsDistinct (r ∷ rs) → IsDistinct rs
  IsDistinct-tail r rs h d = let t = h d in ground (arith, t)

  by_id-none : (id : ℕ) (rs : List (Ranked F.Score)) → results F id rs ≡ 0 → by_id F id rs ≡ none
  unfolding by_id
  by_id-none id [] h = refl
  by_id-none id (r ∷ rs) h = elim (Bool-cases (r.document == id)) [
    | inl here ↦ absurd (let t = simp here at h in omega (arith, t))
    | inr other ↦ simp other (rw (by_id-none id rs (simp other at h)) refl)
  ]

  unseen-none :
      (id : ℕ) (visited : List ℕ) (rs : List (Ranked F.Score))
      → results F id rs ≡ 0
      → unseen (id ∷ visited) rs ≡ unseen visited rs
  unseen-none id visited [] h = refl
  unseen-none id visited (r ∷ rs) h = elim (Bool-cases (r.document == id)) [
    | inl here ↦ absurd (let t = simp here at h in omega (arith, t))
    | inr other ↦
        let apart : (id == r.document) ≡ false = ground arith in
        let rest = unseen-none id visited rs (simp other at h) in rw apart (rw rest refl)
  ]

  take_out :
      (id : ℕ) (visited : List ℕ) (rs : List (Ranked F.Score)) (r : Ranked F.Score)
      → IsDistinct rs
      → by_id F id rs ≡ some r
      → has visited id ≡ false
      → Perm (r ∷ unseen (id ∷ visited) rs) (unseen visited rs)
  unfolding by_id
  take_out id visited [] r k e h = absurd (ground arith)
  take_out id visited (s ∷ ss) r k e h = elim (Bool-cases (s.document == id)) [
    | inl here ↦
        let same : s.document ≡ id = (==_iff s.document id).0 here in
        let no_more : results F id ss ≡ 0 =
          (let t = k id in let u = simp here at t in omega (arith, u)) in
        let first : s ≡ r =
          (let t = simp here at e in let u = rw (by_id-none id ss no_more) at t in ground arith) in
        let fresh : has visited s.document ≡ false = rw same h in
        let this : (id == s.document) ≡ true = ground arith in
        rw this (
          rw fresh (
            rw (unseen-none id visited ss no_more)
              (subst (λ x. Perm (x ∷ unseen visited ss) (s ∷ unseen visited ss)) first Perm.rfl)))
    | inr other ↦
        let apart : (id == s.document) ≡ false = ground arith in
        let later : by_id F id ss ≡ some r = found (by_id F id ss) (simp other at e) in
        let rest = take_out id visited ss r (IsDistinct-tail s ss k) later h in
        elim (Bool-cases (has visited s.document)) [
          | inl old ↦ rw apart (rw old rest)
          | inr new ↦
              rw apart
                (rw new (Perm.trans (Perm.swap s r (unseen (id ∷ visited) ss)) (Perm.cons s rest)))
        ]
  ]
    where
      found : (o : Option (Ranked F.Score)) → or_else F o none ≡ some r → o ≡ some r
      found none t = t
      found (some x) t = t

  reorder-Perm :
      (window : List (Ranked F.Score)) (visited : List ℕ) (hits : List (Hit F.Score))
      → IsDistinct window
      → Perm (reorder F window visited hits) (unseen visited window)
  unfolding reorder
  reorder-Perm window visited [] k = Perm.rfl
  reorder-Perm window visited (h ∷ hs) k = elim (Option-cases (by_id F h.id window)) [
    | inl missing ↦ rw missing (reorder-Perm window visited hs k)
    | inr (r, e) ↦ elim (Bool-cases (has visited h.id)) [
      | inl old ↦ rw e (rw old (reorder-Perm window visited hs k))
      | inr new ↦ rw e (
          rw new (
            Perm.trans (Perm.cons r (reorder-Perm window (h.id ∷ visited) hs k))
              (take_out h.id visited window r k e new)))
    ]
  ]

  unseen-all : (rs : List (Ranked F.Score)) → unseen [] rs ≡ rs
  unseen-all [] = refl
  unseen-all (r ∷ rs) = ap (λ l. r ∷ l) (unseen-all rs)

  IsDistinct-take : (n : ℕ) (rs : List (Ranked F.Score)) → IsDistinct rs → IsDistinct (take n rs)
  IsDistinct-take n rs h d = let t = h d in omega (arith, t, fewer n rs)
    where
      fewer : (n : ℕ) (rs : List (Ranked F.Score)) → results F d (take n rs) ≤ results F d rs
      fewer zero rs = omega arith
      fewer (suc n) [] = omega arith
      fewer (suc n) (r ∷ rs) = ground (arith, fewer n rs)

  -- If no document has two results, reranking permutes the window at the front, and leaves the results
  -- behind the window where they are.
  pub apply_rerank_order-Perm :
      (ranked : List (Ranked F.Score)) (hits : List (Hit F.Score)) (top : ℕ)
      → IsDistinct ranked
      → (window : List (Ranked F.Score)) × Perm window (take top ranked)
        × (apply_rerank_order F ranked hits top ≡ window ++ drop top ranked)
  unfolding apply_rerank_order
  apply_rerank_order-Perm ranked hits top k =
      elim (Bool-cases (is_nothing F ranked || is_nothing F hits || top == 0)) [
        | inl idle ↦ (take top ranked, Perm.rfl, rw idle (sym (take-drop top ranked)))
        | inr busy ↦
            let window = take (min top (length ranked)) ranked in
            (
              reorder F window [] (sort_by (hit_after F) hits),
              subst (Perm (reorder F window [] (sort_by (hit_after F) hits)))
                  (unseen-all window ∙ take-min top ranked)
                  (reorder-Perm window [] (sort_by (hit_after F) hits)
                    (IsDistinct-take (min top (length ranked)) ranked k)),
              rw busy (rw (drop-min top ranked) refl),
            )
      ]
