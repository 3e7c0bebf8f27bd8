-- ===== src/Search/Orchestrator/Allowed.antt =====
-- A search that is restricted to a set of documents returns no other.
use docsmint.Prelude.{
  ℕ, ◌-◌, ◌*◌, ◌≡◌, refl, ◌∙◌, inl, inr, Bool, true, false, not, Option, some, List, [], ◌∷◌, take,
  drop, keep, any, All, All-append, All-keep, all→All, all-keep, has, ◌==◌, Bool-cases, if-branches,
  ==_refl, ==_iff, arith,
}
use docsmint.Search.{Scoring, Candidate, ChannelResult, Ranked, flatten}
use docsmint.Search.Fusion.{fuse_candidates}
use docsmint.Search.Fusion.Counts.{results, is_hit, fuse_candidates-counts}
use docsmint.Search.Rerank.Order.{IsDistinct}
use docsmint.Search.Orchestrator.{
  Request, Answers, restrict_candidates, restrict_channels, fast_results, expanded_results,
  documents, reasons, is_confident, direct_candidates, run_graph, apply_optional_rerank,
  fused_with_graph, add_graph, annotate_graph_channels, ranked, filtered, search_documents,
  clamp_page, clamp_limit,
}
use docsmint.Search.Orchestrator.Counts.{
  results-append, results-take_le, results-drop_le, results-keep_le, results-annotate_channels,
  results-fuse_le,
}
use docsmint.Search.Orchestrator.Laws.{results-optional_rerank, fused-IsDistinct, filtered_le}

module _ {S : Type 0} (ids : List ℕ) where
  -- The candidates are of the documents `ids`.
  abbrev IsInside : List (Candidate S) → Type 0
  IsInside cs = All (λ c. has ids c.document ≡ true) cs

  restrict-IsInside :
      (o : Option (List ℕ)) (cs : List (Candidate S))
      → o ≡ some ids
      → IsInside (restrict_candidates o cs)
  unfolding restrict_candidates
  restrict-IsInside o cs e = rw e (
      all→All (λ c. has ids c.document) (keep (λ c. has ids c.document) cs)
        (all-keep (λ c. has ids c.document) cs))

  channels-IsInside :
      (o : Option (List ℕ)) (rs : List (ChannelResult S))
      → o ≡ some ids
      → IsInside (flatten (restrict_channels o rs))
  unfolding restrict_channels
  channels-IsInside o [] e = tt
  channels-IsInside o (r ∷ rs) e =
      All-append (λ c. has ids c.document ≡ true) (restrict_candidates o r.candidates) _
        (restrict-IsInside o r.candidates e) (channels-IsInside o rs e)

module _ (F : Scoring) (q : Request) (a : Answers F.Score) (ids : List ℕ) where
  direct-IsInside : q.document_ids ≡ some ids → IsInside ids (direct_candidates F q a)
  direct-IsInside e =
      All-append (λ c. has ids c.document ≡ true) _ _
        (channels-IsInside ids q.document_ids (fast_results a.fast) e)
        (if-branches (λ rs. IsInside ids (flatten rs)) (is_confident F q a (reasons F q a)) _ _ tt
          (channels-IsInside ids q.document_ids (expanded_results a.expanded) e))

  graph-IsInside :
      (items : List (Ranked F.Score))
      → q.document_ids ≡ some ids
      → IsInside ids (run_graph F q a items)
  unfolding run_graph
  graph-IsInside items e =
      if-branches (IsInside ids) q.graph_enabled _ _ (restrict-IsInside ids q.document_ids _ e) tt

  module _ (d : ℕ) (out : has ids d ≡ false) where
    no_hit : (cs : List (Candidate F.Score)) → IsInside ids cs → any (is_hit F d) cs ≡ false
    no_hit [] h = refl
    no_hit (c ∷ cs) (k, h) = elim (Bool-cases (c.document == d)) [
      | inl here ↦
          let e : c.document ≡ d = (==_iff c.document d).0 here in
          absurd (let t : has ids d ≡ true = rw e at k in ground arith)
      | inr other ↦ let rest = no_hit cs h in ground arith
    ]

    results-outside :
        (cs : List (Candidate F.Score)) → IsInside ids cs → results F d (fuse_candidates F cs) ≡ 0
    results-outside cs h = fuse_candidates-counts F d cs ∙ rw (no_hit cs h) refl

    fused-outside : q.document_ids ≡ some ids → results F d (fused_with_graph F q a) ≡ 0
    unfolding fused_with_graph
    fused-outside e =
        results-outside _
          (All-append (λ c. has ids c.document ≡ true) _ _ (direct-IsInside e) (graph-IsInside _ e))

    add_graph-outside :
        (items : List (Ranked F.Score)) (graph : List (Candidate F.Score))
        → results F d items ≡ 0
        → IsInside ids graph
        → results F d (add_graph F q a items graph) ≡ 0
    unfolding add_graph
    add_graph-outside items graph z h =
        let present = documents items in
        let extra = keep (λ c. not (has present c.document)) graph in
        let parts =
          results-append F d (annotate_graph_channels items graph)
            (keep (λ r. not (has present r.document)) (fuse_candidates F extra)) in
        let same = results-annotate_channels F d items graph in
        let nothing =
          results-outside extra (
            All-keep (λ c. has ids c.document ≡ true) (λ c. not (has present c.document)) graph
              h) in
        let fewer =
          results-keep_le F d (λ r. not (has present r.document)) (fuse_candidates F extra) in
        omega (arith, parts, same, z, nothing, fewer)

    rerank-outside :
        (items : List (Ranked F.Score))
        → IsDistinct F items
        → results F d items ≡ 0
        → results F d (apply_optional_rerank F q a items) ≡ 0
    rerank-outside items k z = results-optional_rerank F q a d items k ∙ z

    ranked-outside : q.document_ids ≡ some ids → results F d (ranked F q a) ≡ 0
    unfolding ranked
    ranked-outside e =
        let P : List (Ranked F.Score) → Type 0 = λ rs. results F d rs ≡ 0 in
        if-branches P (not q.rerank_enabled) _ _ (fused-outside e) (
          if-branches P q.graph_after _ _
            (add_graph-outside _ _
              (rerank-outside _ (λ n. results-fuse_le F n _)
                (results-outside (direct_candidates F q a) (direct-IsInside e)))
              (graph-IsInside _ e))
            (rerank-outside (fused_with_graph F q a) (fused-IsDistinct F q a) (fused-outside e)))

    filtered-outside : q.document_ids ≡ some ids → results F d (filtered F q a) ≡ 0
    filtered-outside e =
        let none_ranked = ranked-outside e in omega (arith, none_ranked, filtered_le F q a d)

  -- Results among which no document stands outside are inside.
  results-inside :
      (rs : List (Ranked F.Score))
      → ((d : ℕ) → has ids d ≡ false → results F d rs ≡ 0)
      → All (λ r. has ids r.document ≡ true) rs
  results-inside [] h = tt
  results-inside (r ∷ rs) h = (
    here (has ids r.document) refl,
    results-inside rs (λ d out. let t = h d out in ground (arith, t)),
  )
    where
      here : (b : Bool) → has ids r.document ≡ b → b ≡ true
      here true e = refl
      here false e =
          absurd
            (let t = h r.document e in let u = rw (==_refl r.document) at t in omega (arith, u))

  All-documents :
      (rs : List (Ranked F.Score))
      → All (λ r. has ids r.document ≡ true) rs
      → All (λ d. has ids d ≡ true) (documents rs)
  All-documents [] h = tt
  All-documents (r ∷ rs) (k, h) = (k, All-documents rs h)

  -- If the request is restricted to some documents, the items of the page and the visible documents
  -- are among them, whatever the channels, the expansion, the graph, the reranker and the tables answer.
  pub search_documents-IsAllowed :
      q.document_ids ≡ some ids
      → All (λ r. has ids r.document ≡ true) (search_documents F q a).items
        × All (λ d. has ids d ≡ true) (search_documents F q a).visible
  unfolding search_documents
  search_documents-IsAllowed e =
      let inside = results-inside (filtered F q a) (λ d out. filtered-outside d out e) in
      let offset = (clamp_page q.page - 1) * clamp_limit q.limit in
      (
        results-inside (take (clamp_limit q.limit) (drop offset (filtered F q a)))
            (λ d out. page d (clamp_limit q.limit) offset (filtered-outside d out e)),
        All-documents (filtered F q a) inside,
      )
    where
      page :
          (d n m : ℕ)
          → results F d (filtered F q a) ≡ 0
          → results F d (take n (drop m (filtered F q a))) ≡ 0
      page d n m e = omega (
        arith,
        e,
        results-drop_le F d m (filtered F q a),
        results-take_le F d n (drop m (filtered F q a)),
      )
