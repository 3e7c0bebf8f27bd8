-- ===== src/Search/Orchestrator/Tests.antt =====
-- A search for the documents 1 and 2, in which an adapter answers with others too.
use docsmint.Prelude.{
  inl, inr, Bool-cases, ◌↔◌, ℕ, ◌+◌, ◌/◌, ◌≤◌, ◌≡◌, refl, true, false, none, some, List, [], ◌∷◌,
  ◌++◌, map, length, take, drop, any, All, has, ltb, if◌then◌else◌, sort_by, insert_by, arith,
}
use mathlib.Core.List.{Perm}
use docsmint.Search.{Channel, Scoring, Candidate, Ranked}
use docsmint.Search.Fusion.{
  put_best, put_candidate, accepts, collect, score_of, result_of, fuse_candidates,
}
use docsmint.Search.Fusion.Counts.{results, is_hit, fuse_candidates-counts}
use docsmint.Search.Fusion.Best.{IsFused, fuse_candidates-IsFused}
use docsmint.Search.Rerank.{Hit, apply_rerank_order}
use docsmint.Search.Rerank.Order.{apply_rerank_order-Perm}
use docsmint.Search.Confidence.{evaluate_confidence}
use docsmint.Search.Confidence.Evidence.{IsOrdered, HasEvidence, evaluate_confidence_iff}
use docsmint.Search.Retrievers.{ResultRow, rows_to_candidates}
use docsmint.Search.Retrievers.Own.{IsNumbered, rows_to_candidates-IsNumbered}
use docsmint.Search.Orchestrator.{Request, Answers, search_documents}
use docsmint.Search.Orchestrator.Laws.{search_documents-IsDistinct}
use docsmint.Search.Orchestrator.Allowed.{search_documents-IsAllowed}

abbrev scoring : Scoring
scoring = record {
  Score = ℕ;
  nothing = 0;
  add = ◌+◌;
  below = ltb;
  reciprocal = λ rank. 10000 / (60 + rank);
  exact_boost = 200;
  agreement_boost = 100;
  graph_maximum = 300;
  vector_minimum = 35;
}

abbrev found : ℕ → Channel → ℕ → Candidate ℕ
found d c rank = record {
  document = d;
  channel = c;
  rank = rank;
  raw_score = some 50;
  query_variant = none;
}

abbrev candidates : List (Candidate ℕ)
candidates =
    found 1 Channel.fts 2
    ∷ found 2 Channel.vector 1
    ∷ found 1 Channel.vector 4
    ∷ found 1 Channel.fts 1
    ∷ found 2 Channel.exact 0
    ∷ []

-- Document 1 has two channels, and its better text match counts.
test-fuse : map (λ r. r.score) (fuse_candidates scoring candidates) ≡ 419 ∷ 163 ∷ []
unfolding fuse_candidates collect accepts put_candidate put_best result_of score_of sort_by
    insert_by
test-fuse = refl

abbrev request : Request
request = record {
  page = some 1;
  limit = some 5;
  document_ids = some (1 ∷ 2 ∷ []);
  graph_enabled = true;
  rerank_enabled = true;
  graph_after = true;
  agreement = none;
  language_mismatch = false;
  seed_limit = 3;
  top_n = 10;
  filters = none;
}

abbrev answers : Answers ℕ
answers = record {
  fast = some (
      record {
        channel = Channel.fts;
        candidates = found 1 Channel.fts 1 ∷ found 3 Channel.fts 2 ∷ [];
      }
      ∷ []);
  expanded = none;
  graph = λ seeds. some (found 2 Channel.graph 1 ∷ found 4 Channel.graph 2 ∷ []);
  texts = λ ids. some (λ d. 97 ∷ []);
  rerank = λ ids. some (record { id = 1; score = 9; rank = 1 } ∷ []);
  tenant = record { user = 1; external_workspace = none };
  rows = λ ids. [];
  tagged = λ ids. [];
}

fuse_candidates-counts_example :
    results scoring 1 (fuse_candidates scoring candidates)
    ≡ (if any (is_hit scoring 1) candidates then 1 else 0)
fuse_candidates-counts_example = fuse_candidates-counts scoring 1 candidates

fuse_candidates-IsFused_example :
    All (IsFused scoring candidates) (fuse_candidates scoring candidates)
fuse_candidates-IsFused_example = fuse_candidates-IsFused scoring candidates

search_documents-IsAllowed_example :
    All (λ r. has (1 ∷ 2 ∷ []) r.document ≡ true) (search_documents scoring request answers).items
    × All (λ d. has (1 ∷ 2 ∷ []) d ≡ true) (search_documents scoring request answers).visible
search_documents-IsAllowed_example =
    search_documents-IsAllowed scoring request answers (1 ∷ 2 ∷ []) refl

search_documents-IsDistinct_example :
    (results scoring 1 (search_documents scoring request answers).items ≤ 1)
    × (length (search_documents scoring request answers).items
        ≤ (search_documents scoring request answers).limit)
    × (1 ≤ (search_documents scoring request answers).limit)
    × ((search_documents scoring request answers).limit ≤ 100)
    × ((search_documents scoring request answers).total
        ≡ length (search_documents scoring request answers).visible)
    × (has (search_documents scoring request answers).visible 1 ≡ false
        → results scoring 1 (search_documents scoring request answers).items ≡ 0)
search_documents-IsDistinct_example = search_documents-IsDistinct scoring request answers 1

abbrev two_results : List (Ranked ℕ)
two_results =
    record { document = 1; score = 3; channels = []; explanations = [] }
    ∷ record { document = 2; score = 2; channels = []; explanations = [] }
    ∷ []

abbrev hits : List (Hit ℕ)
hits = record { id = 2; score = 9; rank = 1 } ∷ []

apply_rerank_order-Perm_example :
    (window : List (Ranked ℕ)) × Perm window (take 2 two_results)
    × (apply_rerank_order scoring two_results hits 2 ≡ window ++ drop 2 two_results)
apply_rerank_order-Perm_example =
    apply_rerank_order-Perm scoring two_results hits 2 (λ d. ground arith)

abbrev row : ℕ → ℕ → ResultRow ℕ
row d owner = record {
  document = d;
  owner = some owner;
  workspace = none;
  score = some (50 + d);
  is_valid = none;
  is_active = none;
  profile_compatible = none;
}

-- The second row is of another user.
rows_to_candidates-IsNumbered_example :
    IsNumbered scoring
      (row 1 1 ∷ row 2 7 ∷ row 3 1 ∷ [])
      (record { user = 1; external_workspace = none })
      none
      Channel.vector
      0
      (rows_to_candidates scoring
        (row 1 1 ∷ row 2 7 ∷ row 3 1 ∷ [])
        (record { user = 1; external_workspace = none })
        Channel.vector
        (some 40)
        none)
rows_to_candidates-IsNumbered_example =
    rows_to_candidates-IsNumbered scoring (row 1 1 ∷ row 2 7 ∷ row 3 1 ∷ [])
      (record { user = 1; external_workspace = none }) none Channel.vector (some 40)

scoring-IsOrdered : IsOrdered scoring
scoring-IsOrdered = record {
  trans = λ r s t h k. ground arith;
  compares = λ r s t h. elim (Bool-cases (ltb r s)) [ inl e ↦ inl e | inr e ↦ inr (ground arith) ];
}

evaluate_confidence_iff_example :
    (evaluate_confidence scoring (some 2) false candidates ≡ [])
    ↔ HasEvidence scoring (some 2) false candidates
evaluate_confidence_iff_example =
    evaluate_confidence_iff scoring scoring-IsOrdered (some 2) false candidates
