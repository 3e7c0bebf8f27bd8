-- ===== src/Search/Orchestrator.antt =====
-- searchDocuments of backend/src/search/orchestrator.ts: the channels, the expansion of the query, the
-- graph, the reranking and the page. What the retrievers, the providers and the tables answer is a
-- parameter, `none` an exception; metrics are left out.
mod Counts
pub mod Laws
pub mod Allowed
mod Tests
use docsmint.Prelude.{
  ℕ, ◌+◌, ◌-◌, ◌*◌, Bool, true, false, not, ◌&&◌, ◌||◌, Option, none, some, List, [], ◌∷◌, ◌++◌,
  map, length, take, drop, keep, any, all, has, max, min, ◌==◌, if◌then◌else◌,
}
use docsmint.Search.{Channel, same_channel, Scoring, Candidate, ChannelResult, Ranked, flatten}
use docsmint.Search.Fusion.{fuse_candidates}
use docsmint.Search.Rerank.{Hit, is_nothing, apply_rerank_order}
use docsmint.Search.Confidence.{Reason, evaluate_confidence}
use docsmint.Search.Filters.{Filters, Tenant, Row, apply_search_filters}

-- `SearchRequest`, with the switches that it and the configuration decide.
pub record Request : Type 0 where
  pub page : Option ℕ
  pub limit : Option ℕ
  pub document_ids : Option (List ℕ)
  pub graph_enabled : Bool
  pub rerank_enabled : Bool
  pub graph_after : Bool
  pub agreement : Option ℕ
  pub language_mismatch : Bool
  pub seed_limit : ℕ
  pub top_n : ℕ
  pub filters : Option Filters

-- The answers of the adapters and of the tables. The expansion is none without a plan, and its
-- retrieval none for an exception; the reranker is none for an exception or no answer.
pub record Answers (S : Type 0) : Type 0 where
  pub fast : Option (List (ChannelResult S))
  pub expanded : Option (Option (List (ChannelResult S)))
  pub graph : List ℕ → Option (List (Candidate S))
  pub texts : List ℕ → Option (ℕ → List ℕ)
  pub rerank : List ℕ → Option (List (Hit S))
  pub tenant : Tenant
  pub rows : List ℕ → List Row
  pub tagged : List ℕ → List ℕ

-- `clampPage` and `clampLimit`; a number that is not finite is none, and a negative one 0.
abbrev pub clamp_page : Option ℕ → ℕ
clamp_page none = 1
clamp_page (some n) = max 1 n

abbrev pub clamp_limit : Option ℕ → ℕ
clamp_limit none = 20
clamp_limit (some n) = max 1 (min 100 n)

module _ {S : Type 0} where
  unfoldable pub restrict_candidates : Option (List ℕ) → List (Candidate S) → List (Candidate S)
  restrict_candidates none cs = cs
  restrict_candidates (some allowed) cs = keep (λ c. has allowed c.document) cs

  unfoldable pub restrict_channels :
      Option (List ℕ) → List (ChannelResult S) → List (ChannelResult S)
  restrict_channels allowed rs =
      map
        (λ r. record { channel = r.channel; candidates = restrict_candidates allowed r.candidates })
        rs

  -- The fast pass; an exception leaves the four channels empty.
  unfoldable pub fast_results : Option (List (ChannelResult S)) → List (ChannelResult S)
  fast_results none =
      map (λ c. record { channel = c; candidates = [] })
        (Channel.exact ∷ Channel.fts ∷ Channel.fuzzy ∷ Channel.vector ∷ [])
  fast_results (some rs) = rs

  unfoldable pub expanded_results :
      Option (Option (List (ChannelResult S))) → List (ChannelResult S)
  expanded_results (some (some rs)) = rs
  expanded_results _ = []

  abbrev pub documents : List (Ranked S) → List ℕ
  documents rs = map (λ r. r.document) rs

  unfoldable pub annotate_graph : List ℕ → Ranked S → Ranked S
  annotate_graph ids r =
      if not (has ids r.document) || any (λ c. same_channel c Channel.graph) r.channels
      then r
      else record {
        document = r.document;
        score = r.score;
        channels = r.channels ++ (Channel.graph ∷ []);
        explanations =
            r.explanations
            ++ (record { channel = Channel.graph; label = "Related document"; query_variant = none }
                ∷ []);
      }

  unfoldable pub annotate_graph_channels : List (Ranked S) → List (Candidate S) → List (Ranked S)
  annotate_graph_channels items cs =
      if is_nothing_of cs then items else map (annotate_graph (map (λ c. c.document) cs)) items
    where
      is_nothing_of : List (Candidate S) → Bool
      is_nothing_of [] = true
      is_nothing_of (c ∷ rest) = false

-- `SearchResponse` with the flags of its diagnostics.
pub record Response (S : Type 0) : Type 0 where
  pub items : List (Ranked S)
  pub total : ℕ
  pub visible : List ℕ
  pub page : ℕ
  pub limit : ℕ
  pub reasons : List Reason
  pub expansion_used : Bool
  pub graph_contribution : Bool

module _ (F : Scoring) (q : Request) (a : Answers F.Score) where
  abbrev pub fast : List (ChannelResult F.Score)
  fast = restrict_channels q.document_ids (fast_results a.fast)

  abbrev pub reasons : List Reason
  reasons = evaluate_confidence F q.agreement q.language_mismatch (flatten fast)

  abbrev pub is_confident : List Reason → Bool
  is_confident [] = true
  is_confident (r ∷ rs) = false

  -- The expanded pass, which runs only if the fast one is not confident.
  abbrev pub expanded : List (ChannelResult F.Score)
  expanded =
      if is_confident reasons
      then []
      else restrict_channels q.document_ids (expanded_results a.expanded)

  abbrev pub direct_candidates : List (Candidate F.Score)
  direct_candidates = flatten fast ++ flatten expanded

  abbrev or_nothing : Option (List (Candidate F.Score)) → List (Candidate F.Score)
  or_nothing none = []
  or_nothing (some cs) = cs

  -- `runGraph`, if the graph is enabled, from the first results.
  unfoldable pub run_graph : List (Ranked F.Score) → List (Candidate F.Score)
  run_graph items =
      if q.graph_enabled
      then restrict_candidates q.document_ids
          (or_nothing (a.graph (take q.seed_limit (documents items))))
      else []

  -- `applyOptionalRerank` from the texts of the window on, and from the reranker's answer on.
  abbrev pub with_hits :
      List (Ranked F.Score) → ℕ → Option (List (Hit F.Score)) → List (Ranked F.Score)
  with_hits items top none = items
  with_hits items top (some hits) = apply_rerank_order F items hits top

  abbrev is_blank_text : List ℕ → Bool
  is_blank_text [] = true
  is_blank_text (c ∷ cs) = false

  abbrev pub with_texts : List (Ranked F.Score) → ℕ → Option (ℕ → List ℕ) → List (Ranked F.Score)
  with_texts items top none = items
  with_texts items top (some texts) =
      let window = documents (take top items) in
      if all (λ d. is_blank_text (texts d)) window
      then items
      else with_hits items top (a.rerank window)

  unfoldable pub apply_optional_rerank : List (Ranked F.Score) → List (Ranked F.Score)
  apply_optional_rerank items =
      let top = min q.top_n (length items) in
      if not q.rerank_enabled || is_nothing F items
      then items
      else with_texts items top (a.texts (documents (take top items)))

  -- The graph before the fusion.
  unfoldable pub fused_with_graph : List (Ranked F.Score)
  fused_with_graph =
      let direct = fuse_candidates F direct_candidates in
      fuse_candidates F (direct_candidates ++ run_graph direct)

  -- The graph after the reranking: it adds what is not there yet.
  unfoldable pub add_graph :
      List (Ranked F.Score) → List (Candidate F.Score) → List (Ranked F.Score)
  add_graph items graph =
      let present = documents items in
      let extra = keep (λ c. not (has present c.document)) graph in
      annotate_graph_channels items graph
      ++ keep (λ r. not (has present r.document)) (fuse_candidates F extra)

  unfoldable pub ranked : List (Ranked F.Score)
  ranked =
      if not q.rerank_enabled
      then fused_with_graph
      else if q.graph_after
      then (let items = apply_optional_rerank (fuse_candidates F direct_candidates) in
          add_graph items (run_graph items))
      else apply_optional_rerank fused_with_graph

  abbrev filtered_by : Option Filters → List (Ranked F.Score) → List (Ranked F.Score)
  filtered_by none items = items
  filtered_by (some f) items =
      apply_search_filters f a.tenant (a.rows (documents items)) (a.tagged (documents items)) items

  unfoldable pub filtered : List (Ranked F.Score)
  filtered = filtered_by q.filters ranked

  unfoldable pub search_documents : Response F.Score
  search_documents =
      let page = clamp_page q.page in
      let limit = clamp_limit q.limit in
      let items = take limit (drop ((page - 1) * limit) filtered) in
      record {
        items = items;
        total = length filtered;
        visible = documents filtered;
        page = page;
        limit = limit;
        reasons = reasons;
        expansion_used = not (is_confident reasons) && not (is_no_plan a.expanded);
        graph_contribution = any (λ r. any (λ c. same_channel c Channel.graph) r.channels) items;
      }
    where
      is_no_plan : Option (Option (List (ChannelResult F.Score))) → Bool
      is_no_plan none = true
      is_no_plan (some x) = false
