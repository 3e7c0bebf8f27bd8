-- ===== src/Search.antt =====
-- backend/src/search: what the channels find, how it is fused and reranked, and the whole search.
-- Documents are numbers in the order of `localeCompare`, 0 for an empty identifier; scores are any
-- type with the operations that the code uses.
pub mod Fusion
pub mod Rerank
pub mod Confidence
pub mod Filters
pub mod Retrievers
pub mod Orchestrator
use Prim.Native.String.{String}
use docsmint.Prelude.{ℕ, Bool, true, false, Option, List, [], ◌∷◌, ◌++◌, ◌==◌, if◌then◌else◌}

-- `SearchChannel`
pub data Channel : Type 0 where
  exact : Channel
  fts : Channel
  fuzzy : Channel
  vector : Channel
  expanded_fts : Channel
  expanded_fuzzy : Channel
  expanded_vector : Channel
  graph : Channel

-- The place of a channel's name among all of them.
abbrev pub place : Channel → ℕ
place Channel.exact = 0
place Channel.expanded_fts = 1
place Channel.expanded_fuzzy = 2
place Channel.expanded_vector = 3
place Channel.fts = 4
place Channel.fuzzy = 5
place Channel.graph = 6
place Channel.vector = 7

abbrev pub same_channel : Channel → Channel → Bool
same_channel a b = place a == place b

-- `LABELS`
abbrev pub label_of : Channel → String
label_of Channel.exact = "Exact title match"
label_of Channel.fts = "Text match"
label_of Channel.fuzzy = "Similar text match"
label_of Channel.vector = "Semantic match"
label_of Channel.expanded_fts = "Expanded text match"
label_of Channel.expanded_fuzzy = "Expanded similar text match"
label_of Channel.expanded_vector = "Semantic match"
label_of Channel.graph = "Related document"

-- The numbers of the scores, with the constants of `RrfOptions`; `reciprocal rank` is
-- `1 / (config.rrfK + rank)`.
pub record Scoring : Type 1 where
  pub Score : Type 0
  pub nothing : Score
  pub add : Score → Score → Score
  pub below : Score → Score → Bool
  pub reciprocal : ℕ → Score
  pub exact_boost : Score
  pub agreement_boost : Score
  pub graph_maximum : Score
  pub vector_minimum : Score

-- `SearchCandidate`; a score that is not a finite number is `none`, and a rank that is not a positive
-- integer is 0.
pub record Candidate (S : Type 0) : Type 0 where
  pub document : ℕ
  pub channel : Channel
  pub rank : ℕ
  pub raw_score : Option S
  pub query_variant : Option ℕ

-- `ChannelResult`
pub record ChannelResult (S : Type 0) : Type 0 where
  pub channel : Channel
  pub candidates : List (Candidate S)

-- `SearchExplanation`
pub record Explanation : Type 0 where
  pub channel : Channel
  pub label : String
  pub query_variant : Option ℕ

-- `RankedSearchResult`
pub record Ranked (S : Type 0) : Type 0 where
  pub document : ℕ
  pub score : S
  pub channels : List Channel
  pub explanations : List Explanation

-- `results.flatMap((result) => result.candidates)`
abbrev pub flatten : {S : Type 0} → List (ChannelResult S) → List (Candidate S)
flatten [] = []
flatten (r ∷ rs) = r.candidates ++ flatten rs
