-- ===== src/Search/Confidence.antt =====
-- evaluateConfidence of backend/src/search/confidence.ts: whether the fast pass is enough.
mod Agreements
pub mod Evidence
use docsmint.Prelude.{
  ℕ, Bool, true, false, not, ◌||◌, Option, none, some, List, [], ◌∷◌, ◌++◌, length, any, max, ◌==◌,
  if◌then◌else◌, leb,
}
use docsmint.Search.{Channel, same_channel, Scoring, Candidate}

-- `ExpansionReason`
pub data Reason : Type 0 where
  no_lexical_match : Reason
  low_channel_agreement : Reason
  low_vector_similarity : Reason
  language_mismatch : Reason
  empty_candidates : Reason

-- `LEXICAL_CHANNELS` and `DIRECT_CHANNELS`
abbrev pub is_lexical : Channel → Bool
is_lexical c =
    same_channel c Channel.exact || same_channel c Channel.fts || same_channel c Channel.fuzzy

abbrev pub is_direct : Channel → Bool
is_direct c = is_lexical c || same_channel c Channel.vector

-- A document of `channelByDocument` with its set of channels.
pub record Agreement : Type 0 where
  pub document : ℕ
  pub channels : List Channel

abbrev pub add_channel : Channel → List Channel → List Channel
add_channel c cs = if any (λ x. same_channel x c) cs then cs else c ∷ cs

unfoldable pub put_channel : ℕ → Channel → List Agreement → List Agreement
put_channel d c [] = record { document = d; channels = c ∷ [] } ∷ []
put_channel d c (a ∷ rest) =
    if a.document == d
    then record { document = a.document; channels = add_channel c a.channels } ∷ rest
    else a ∷ put_channel d c rest

-- The loop over the candidates that fills `channelByDocument`.
unfoldable pub agreements : {S : Type 0} → List Agreement → List (Candidate S) → List Agreement
agreements done [] = done
agreements done (c ∷ cs) =
    agreements (if is_direct c.channel then put_channel c.document c.channel done else done) cs

-- `Math.max(1, Math.floor(thresholds.minChannelAgreement ?? 2))`
abbrev pub minimum_agreement : Option ℕ → ℕ
minimum_agreement none = 2
minimum_agreement (some n) = max 1 n

-- `...(condition ? [reason] : [])`
abbrev pub reason_if : Bool → Reason → List Reason
reason_if true r = r ∷ []
reason_if false r = []

module _ (F : Scoring) where
  abbrev pub higher : F.Score → Option F.Score → Option F.Score
  higher s none = some s
  higher s (some t) = some (if F.below t s then s else t)

  -- One candidate more, which may be one of the vector channel with a score.
  abbrev pub with_score : Bool → Option F.Score → Option F.Score → Option F.Score
  with_score false score best = best
  with_score true none best = best
  with_score true (some s) best = higher s best

  -- The best score of the vector channel; none is `Number.NEGATIVE_INFINITY`.
  unfoldable pub best_vector : List (Candidate F.Score) → Option F.Score
  best_vector [] = none
  best_vector (c ∷ cs) =
      with_score (same_channel c.channel Channel.vector) c.raw_score (best_vector cs)

  abbrev pub is_low : Option F.Score → Bool
  is_low none = true
  is_low (some s) = F.below s F.vector_minimum

  -- The reasons to expand the query; without any, the result is confident.
  unfoldable pub evaluate_confidence : Option ℕ → Bool → List (Candidate F.Score) → List Reason
  evaluate_confidence agreement mismatch [] =
      Reason.empty_candidates ∷ reason_if mismatch Reason.language_mismatch
  evaluate_confidence agreement mismatch (c ∷ cs) =
      reason_if (not (any (λ x. is_lexical x.channel) (c ∷ cs))) Reason.no_lexical_match
      ++ (reason_if
            (not (
              any (λ a. leb (minimum_agreement agreement) (length a.channels))
                (agreements [] (c ∷ cs))))
            Reason.low_channel_agreement
          ++ (reason_if (is_low (best_vector (c ∷ cs))) Reason.low_vector_similarity
              ++ reason_if mismatch Reason.language_mismatch))
