-- ===== src/Search/Orchestrator/Counts.antt =====
-- How often a document stands among the results, after each of the steps of a search.
use docsmint.Prelude.{
  ℕ, ◌+◌, ◌≤◌, ◌≡◌, refl, ap, sym, ◌∙◌, inl, inr, Bool, true, false, not, List, [], ◌∷◌, ◌++◌, map,
  length, take, drop, keep, has, ◌==◌, Bool-cases, ==_iff, keep-append, length-append, take-drop,
  keep-sort_by, keep-Perm, arith,
}
use docsmint.Search.{Scoring, Candidate, Ranked}
use docsmint.Search.Fusion.{fuse_candidates}
use docsmint.Search.Fusion.Counts.{results, fuse_candidates-counts}
use docsmint.Search.Rerank.{Hit, apply_rerank_order}
use docsmint.Search.Rerank.Order.{IsDistinct, apply_rerank_order-Perm}
use docsmint.Search.Filters.{
  Filters, Tenant, Row, passes, row_of, rows_after, no_tags, apply_search_filters,
}
use docsmint.Search.Orchestrator.{documents, annotate_graph, annotate_graph_channels}

module _ (F : Scoring) (d : ℕ) where
  pub results-append :
      (xs ys : List (Ranked F.Score)) → results F d (xs ++ ys) ≡ results F d xs + results F d ys
  results-append xs ys =
      ap length (keep-append (λ r. r.document == d) xs ys)
      ∙ length-append (keep (λ r. r.document == d) xs) (keep (λ r. r.document == d) ys)

  pub results-take_le :
      (n : ℕ) (rs : List (Ranked F.Score)) → results F d (take n rs) ≤ results F d rs
  results-take_le n rs =
      let parts = results-append (take n rs) (drop n rs) in
      let whole = ap (results F d) (take-drop n rs) in omega (arith, parts, whole)

  pub results-drop_le :
      (n : ℕ) (rs : List (Ranked F.Score)) → results F d (drop n rs) ≤ results F d rs
  results-drop_le n rs =
      let parts = results-append (take n rs) (drop n rs) in
      let whole = ap (results F d) (take-drop n rs) in omega (arith, parts, whole)

  pub results-keep_le :
      (p : Ranked F.Score → Bool) (rs : List (Ranked F.Score))
      → results F d (keep p rs) ≤ results F d rs
  results-keep_le p [] = omega arith
  results-keep_le p (r ∷ rs) = let rest = results-keep_le p rs in ground arith

  pub results-rerank :
      (rs : List (Ranked F.Score)) (hits : List (Hit F.Score)) (top : ℕ)
      → IsDistinct F rs
      → results F d (apply_rerank_order F rs hits top) ≡ results F d rs
  results-rerank rs hits top k =
      let (window, perm, e) = apply_rerank_order-Perm F rs hits top k in
      let same = keep-Perm (λ r. r.document == d) perm in
      ap (results F d) e
      ∙ results-append window (drop top rs)
      ∙ ap (λ n. n + results F d (drop top rs)) same
      ∙ sym (results-append (take top rs) (drop top rs))
      ∙ ap (results F d) (take-drop top rs)

  pub results-annotate :
      (ids : List ℕ) (rs : List (Ranked F.Score))
      → results F d (map (annotate_graph ids) rs) ≡ results F d rs
  unfolding annotate_graph
  results-annotate ids [] = refl
  results-annotate ids (r ∷ rs) = let rest = results-annotate ids rs in ground arith

  pub results-annotate_channels :
      (rs : List (Ranked F.Score)) (cs : List (Candidate F.Score))
      → results F d (annotate_graph_channels rs cs) ≡ results F d rs
  unfolding annotate_graph_channels
  results-annotate_channels rs [] = refl
  results-annotate_channels rs (c ∷ cs) = results-annotate (map (λ x. x.document) (c ∷ cs)) rs

  -- A document of the results is one of their documents.
  pub results-absent :
      (rs : List (Ranked F.Score)) → has (documents rs) d ≡ false → results F d rs ≡ 0
  results-absent [] h = refl
  results-absent (r ∷ rs) h = let rest = results-absent rs in ground arith

  pub results-keep_absent :
      (present : List ℕ) (rs : List (Ranked F.Score))
      → has present d ≡ true
      → results F d (keep (λ r. not (has present r.document)) rs) ≡ 0
  results-keep_absent present [] h = refl
  results-keep_absent present (r ∷ rs) h = elim (Bool-cases (r.document == d)) [
    | inl here ↦
        let e : r.document ≡ d = (==_iff r.document d).0 here in
        let old : has present r.document ≡ true = rw e h in
        rw old (results-keep_absent present rs h)
    | inr other ↦ let rest = results-keep_absent present rs h in ground arith
  ]

  pub results-fuse_le : (cs : List (Candidate F.Score)) → results F d (fuse_candidates F cs) ≤ 1
  results-fuse_le cs = let e = fuse_candidates-counts F d cs in ground arith

  pub results-filter_le :
      (f : Filters) (t : Tenant) (rows : List Row) (tagged : List ℕ) (rs : List (Ranked F.Score))
      → results F d (apply_search_filters f t rows tagged rs) ≤ results F d rs
  unfolding apply_search_filters
  results-filter_le f t rows tagged rs =
      let kept = results-keep_le (λ r. passes f t (row_of rows r.document)) rs in
      let with_rows = keep (λ r. passes f t (row_of rows r.document)) rs in
      let tagged_le = results-keep_le (λ r. has tagged r.document) with_rows in
      elim (Bool-cases (no_tags f.tags)) [
        | inl untagged ↦ rw untagged (
            rw
              (keep-sort_by
                (λ a b. rows_after f.sort (row_of rows a.document) (row_of rows b.document))
                (λ r. r.document == d) with_rows)
              kept)
        | inr filtering ↦ rw filtering (
            rw
              (keep-sort_by
                (λ a b. rows_after f.sort (row_of rows a.document) (row_of rows b.document))
                (λ r. r.document == d) (keep (λ r. has tagged r.document) with_rows))
              (omega (arith, kept, tagged_le)))
      ]
