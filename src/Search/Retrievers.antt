-- ===== src/Search/Retrievers.antt =====
-- rowsToCandidates of backend/src/search/retrievers.ts: what a channel makes of the rows of its query.
pub mod Own
use docsmint.Prelude.{
  ℕ, suc, Bool, true, false, not, ◌&&◌, ◌||◌, Option, none, some, List, [], ◌∷◌, keep, has, is_id,
  ◌==◌, if◌then◌else◌, ltb, sort_by,
}
use docsmint.Search.{Channel, Scoring, Candidate}
use docsmint.Search.Filters.{Tenant, is_none}

-- `Row` with the columns that are read; an undefined one is none, and so is a score that is not a
-- finite number.
pub record ResultRow (S : Type 0) : Type 0 where
  pub document : ℕ
  pub owner : Option ℕ
  pub workspace : Option ℕ
  pub score : Option S
  pub is_valid : Option Bool
  pub is_active : Option Bool
  pub profile_compatible : Option Bool

abbrev pub matches : {S : Type 0} → Option ℕ → ℕ → ResultRow S → Bool
matches none user row = is_id row.owner user && is_none row.workspace
matches (some w) user row = is_id row.workspace w

-- `rowMatchesTenant`
abbrev pub row_matches_tenant : {S : Type 0} → Tenant → ResultRow S → Bool
row_matches_tenant t row = matches t.external_workspace t.user row

abbrev pub not_false : Option Bool → Bool
not_false none = true
not_false (some b) = b

abbrev pub is_allowed : Option (List ℕ) → ℕ → Bool
is_allowed none d = true
is_allowed (some ids) d = has ids d

module _ (F : Scoring) where
  abbrev pub reaches : Option F.Score → F.Score → Bool
  reaches none s = true
  reaches (some m) s = not (F.below s m)

  abbrev pub has_score : Option F.Score → Option F.Score → Bool
  has_score m none = false
  has_score m (some s) = reaches m s

  -- The filters of the rows.
  unfoldable pub keeps_row : Tenant → Option F.Score → Option (List ℕ) → ResultRow F.Score → Bool
  keeps_row t minimum allowed row =
      row_matches_tenant t row
      && (not (row.document == 0)
          && (is_allowed allowed row.document
              && (has_score minimum row.score
                  && (not_false row.is_valid
                      && (not_false row.is_active && not_false row.profile_compatible)))))

  abbrev score_after : Option F.Score → Option F.Score → Bool → Bool
  score_after (some a) (some b) later = F.below a b || (not (F.below b a) && later)
  score_after _ _ later = later

  -- The comparator of the rows: by the score, the highest first, then by the document.
  abbrev pub result_after : ResultRow F.Score → ResultRow F.Score → Bool
  result_after a b = score_after a.score b.score (ltb b.document a.document)

  -- The ranks count from 1.
  unfoldable pub ranked_from : ℕ → Channel → List (ResultRow F.Score) → List (Candidate F.Score)
  ranked_from n c [] = []
  ranked_from n c (r ∷ rs) =
      record {
        document = r.document;
        channel = c;
        rank = suc n;
        raw_score = r.score;
        query_variant = none;
      }
      ∷ ranked_from (suc n) c rs

  unfoldable pub rows_to_candidates :
      List (ResultRow F.Score)
      → Tenant
      → Channel
      → Option F.Score
      → Option (List ℕ)
      → List (Candidate F.Score)
  rows_to_candidates rows t c minimum allowed =
      ranked_from 0 c (sort_by result_after (keep (keeps_row t minimum allowed) rows))
