-- ===== src/Search/Fusion.antt =====
-- backend/src/search/rrf.ts: reciprocal rank fusion.
pub mod Counts
pub mod Best
use docsmint.Prelude.{
  ℕ, suc, Bool, true, false, not, ◌&&◌, ◌||◌, Option, none, some, List, [], ◌∷◌, map, length, any,
  ◌==◌, if◌then◌else◌, ltb, leb, sort_by,
}
use docsmint.Search.{
  Channel, place, same_channel, label_of, Scoring, Candidate, Explanation, Ranked,
}

-- A document of `bestByDocument` and its `byChannel`, in the order of insertion.
pub record Group (S : Type 0) : Type 0 where
  pub document : ℕ
  pub best : List (Candidate S)

abbrev pub is_semantic : Channel → Bool
is_semantic c = same_channel c Channel.vector || same_channel c Channel.expanded_vector

abbrev pub explanation : {S : Type 0} → Candidate S → Explanation
explanation c = record {
  channel = c.channel;
  label = label_of c.channel;
  query_variant = c.query_variant;
}

-- `if (!previous || candidate.rank < previous.rank) byChannel.set(candidate.channel, candidate)`
unfoldable pub put_best : {S : Type 0} → Candidate S → List (Candidate S) → List (Candidate S)
put_best c [] = c ∷ []
put_best c (p ∷ ps) =
    if same_channel p.channel c.channel
    then (if ltb c.rank p.rank then c else p) ∷ ps
    else p ∷ put_best c ps

unfoldable pub put_candidate : {S : Type 0} → Candidate S → List (Group S) → List (Group S)
put_candidate c [] = record { document = c.document; best = c ∷ [] } ∷ []
put_candidate c (g ∷ gs) =
    if g.document == c.document
    then record { document = g.document; best = put_best c g.best } ∷ gs
    else g ∷ put_candidate c gs

-- The comparator of the explanations: by rank, then by the name of the channel.
abbrev pub explained_after : {S : Type 0} → Candidate S → Candidate S → Bool
explained_after a b =
    ltb b.rank a.rank || (a.rank == b.rank && ltb (place b.channel) (place a.channel))

module _ (F : Scoring) where
  abbrev pub minimum : F.Score → F.Score → F.Score
  minimum a b = if F.below b a then b else a

  abbrev enough : Option F.Score → Bool
  enough none = false
  enough (some s) = not (F.below s F.vector_minimum)

  -- Whether the loop over the candidates does not skip this one.
  unfoldable pub accepts : Candidate F.Score → Bool
  accepts c =
      not (c.document == 0)
      && leb 1 c.rank
      && (if is_semantic c.channel then enough c.raw_score else true)

  -- The loop over the candidates.
  unfoldable pub collect : List (Group F.Score) → List (Candidate F.Score) → List (Group F.Score)
  collect gs [] = gs
  collect gs (c ∷ cs) = collect (if accepts c then put_candidate c gs else gs) cs

  abbrev pub contribution : Candidate F.Score → F.Score
  contribution c =
      if same_channel c.channel Channel.graph
      then minimum (F.reciprocal c.rank) F.graph_maximum
      else F.reciprocal c.rank

  abbrev pub add_all : F.Score → List (Candidate F.Score) → F.Score
  add_all score [] = score
  add_all score (c ∷ cs) = add_all (F.add score (contribution c)) cs

  abbrev pub has_channel : Channel → List (Candidate F.Score) → Bool
  has_channel ch best = any (λ c. same_channel c.channel ch) best

  unfoldable pub score_of : List (Candidate F.Score) → F.Score
  score_of best =
      let score = add_all F.nothing best in
      let with_exact =
        if has_channel Channel.exact best then F.add score F.exact_boost else score in
      let with_agreement =
        if leb 2 (length best) then F.add with_exact F.agreement_boost else with_exact in
      if length best == 1 && has_channel Channel.graph best
      then minimum with_agreement F.graph_maximum
      else with_agreement

  unfoldable pub result_of : Group F.Score → Ranked F.Score
  result_of g = record {
    document = g.document;
    score = score_of g.best;
    channels = sort_by (λ a b. ltb (place b) (place a)) (map (λ c. c.channel) g.best);
    explanations = map explanation (sort_by explained_after g.best);
  }

  -- The comparator of the results: by the score, the highest first, then by the document.
  abbrev pub ranked_after : Ranked F.Score → Ranked F.Score → Bool
  ranked_after a b =
      F.below a.score b.score || (not (F.below b.score a.score) && ltb b.document a.document)

  unfoldable pub fuse_candidates : List (Candidate F.Score) → List (Ranked F.Score)
  fuse_candidates candidates = sort_by ranked_after (map result_of (collect [] candidates))
