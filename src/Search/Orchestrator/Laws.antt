-- ===== src/Search/Orchestrator/Laws.antt =====
-- What a search returns: allowed documents only, each once.
use docsmint.Prelude.{
  ℕ, suc, ◌-◌, ◌*◌, ◌≤◌, ◌≡◌, refl, ap, inl, inr, false, not, ◌||◌, Option, none, some, List, [],
  ◌∷◌, length, take, drop, keep, all, has, Bool-cases, if-branches, length-take, arith,
}
use docsmint.Search.{Scoring, Candidate, Ranked}
use docsmint.Search.Fusion.{fuse_candidates}
use docsmint.Search.Fusion.Counts.{results}
use docsmint.Search.Rerank.{Hit, is_nothing}
use docsmint.Search.Rerank.Order.{IsDistinct}
use docsmint.Search.Filters.{Filters}
use docsmint.Search.Orchestrator.{
  Request, Answers, documents, with_hits, is_blank_text, with_texts, apply_optional_rerank,
  fused_with_graph, add_graph, annotate_graph_channels, ranked, filtered_by, filtered,
  search_documents, clamp_page, clamp_limit,
}
use docsmint.Search.Orchestrator.Counts.{
  results-append, results-take_le, results-drop_le, results-keep_le, results-rerank,
  results-annotate_channels, results-absent, results-keep_absent, results-fuse_le,
  results-filter_le,
}

module _ (F : Scoring) (q : Request) (a : Answers F.Score) where
  results-with_texts :
      (d : ℕ) (items : List (Ranked F.Score)) (top : ℕ) (texts : Option (ℕ → List ℕ))
      → IsDistinct F items
      → results F d (with_texts F q a items top texts) ≡ results F d items
  results-with_texts d items top none k = refl
  results-with_texts d items top (some texts) k =
      let window = documents (take top items) in
      elim (Bool-cases (all (λ x. is_blank_text F q a (texts x)) window)) [
        | inl blank ↦ rw blank refl
        | inr filled ↦ rw filled (hit (a.rerank window))
      ]
    where
      hit :
          (hits : Option (List (Hit F.Score)))
          → results F d (with_hits F q a items top hits) ≡ results F d items
      hit none = refl
      hit (some hits) = results-rerank F d items hits top k

  pub results-optional_rerank :
      (d : ℕ) (items : List (Ranked F.Score))
      → IsDistinct F items
      → results F d (apply_optional_rerank F q a items) ≡ results F d items
  unfolding apply_optional_rerank
  results-optional_rerank d items k =
      elim (Bool-cases (not q.rerank_enabled || is_nothing F items)) [
        | inl idle ↦ rw idle refl
        | inr busy ↦ rw busy (results-with_texts d items _ _ k)
      ]

  add_graph-IsDistinct :
      (items : List (Ranked F.Score)) (graph : List (Candidate F.Score))
      → IsDistinct F items
      → IsDistinct F (add_graph F q a items graph)
  unfolding add_graph
  add_graph-IsDistinct items graph k d =
      let present = documents items in
      let extra = fuse_candidates F (keep (λ c. not (has present c.document)) graph) in
      let parts =
        results-append F d (annotate_graph_channels items graph)
          (keep (λ r. not (has present r.document)) extra) in
      let same = results-annotate_channels F d items graph in
      let few = k d in
      elim (Bool-cases (has present d)) [
        | inl old ↦
            let nothing = results-keep_absent F d present extra old in
            omega (arith, parts, same, few, nothing)
        | inr new ↦
            let absent = results-absent F d items new in
            let once = results-fuse_le F d (keep (λ c. not (has present c.document)) graph) in
            let fewer = results-keep_le F d (λ r. not (has present r.document)) extra in
            omega (arith, parts, same, absent, once, fewer)
      ]

  pub fused-IsDistinct : IsDistinct F (fused_with_graph F q a)
  unfolding fused_with_graph
  fused-IsDistinct d = results-fuse_le F d _

  pub rerank-IsDistinct :
      (items : List (Ranked F.Score))
      → IsDistinct F items
      → IsDistinct F (apply_optional_rerank F q a items)
  rerank-IsDistinct items k d =
      let same = results-optional_rerank d items k in let few = k d in omega (arith, same, few)

  ranked-IsDistinct : IsDistinct F (ranked F q a)
  unfolding ranked
  ranked-IsDistinct = if-branches (IsDistinct F) (not q.rerank_enabled) _ _ fused-IsDistinct (
      if-branches (IsDistinct F) q.graph_after _ _
        (add_graph-IsDistinct _ _ (rerank-IsDistinct _ (λ d. results-fuse_le F d _)))
        (rerank-IsDistinct (fused_with_graph F q a) fused-IsDistinct))

  results-filtered_by :
      (d : ℕ) (f : Option Filters) (items : List (Ranked F.Score))
      → results F d (filtered_by F q a f items) ≤ results F d items
  results-filtered_by d none items = omega arith
  results-filtered_by d (some f) items = results-filter_le F d f a.tenant _ _ items

  pub filtered_le : (d : ℕ) → results F d (filtered F q a) ≤ results F d (ranked F q a)
  unfolding filtered
  filtered_le d = results-filtered_by d q.filters (ranked F q a)

  filtered-IsDistinct : IsDistinct F (filtered F q a)
  filtered-IsDistinct d = let few = ranked-IsDistinct d in omega (arith, few, filtered_le d)

  -- A page is at most as long as its limit, which is from 1 to 100, and no document has two items; the
  -- total counts the visible documents, among which the items are.
  pub search_documents-IsDistinct :
      (d : ℕ)
      → (results F d (search_documents F q a).items ≤ 1)
        × (length (search_documents F q a).items ≤ (search_documents F q a).limit)
        × (1 ≤ (search_documents F q a).limit)
        × ((search_documents F q a).limit ≤ 100)
        × ((search_documents F q a).total ≡ length (search_documents F q a).visible)
        × (has (search_documents F q a).visible d ≡ false
            → results F d (search_documents F q a).items ≡ 0)
  unfolding search_documents
  search_documents-IsDistinct d =
      let offset = (clamp_page q.page - 1) * clamp_limit q.limit in
      let page = drop offset (filtered F q a) in
      let few = filtered-IsDistinct d in
      let dropped = results-drop_le F d offset (filtered F q a) in
      let taken = results-take_le F d (clamp_limit q.limit) page in
      (
        omega (arith, few, dropped, taken),
        omega (arith, length-take (clamp_limit q.limit) page),
        (limit-bounds q.limit).0,
        (limit-bounds q.limit).1,
        total (filtered F q a),
        λ h.
            let none_left = results-absent F d (filtered F q a) h in
            omega (arith, none_left, dropped, taken),
      )
    where
      limit-bounds : (o : Option ℕ) → (1 ≤ clamp_limit o) × (clamp_limit o ≤ 100)
      limit-bounds none = (omega arith, omega arith)
      limit-bounds (some n) = (omega arith, omega arith)

      total : (rs : List (Ranked F.Score)) → length rs ≡ length (documents rs)
      total [] = refl
      total (r ∷ rs) = ap suc (total rs)
