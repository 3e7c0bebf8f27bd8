-- ===== src/Search/Retrievers/Own.antt =====
-- A channel returns the tenant's documents only, whatever rows its query returns.
use mathlib.Core.List.{Mem, mem-cons_self, mem-cons_of_mem}
use docsmint.Prelude.{
  ℕ, suc, ◌≡◌, refl, inl, inr, true, not, Option, List, [], ◌∷◌, keep, All, ◌==◌, Bool-cases,
  and-eq-true, sort_by-All,
}
use docsmint.Search.{Channel, Scoring, Candidate}
use docsmint.Search.Filters.{Tenant}
use docsmint.Search.Retrievers.{
  ResultRow, row_matches_tenant, is_allowed, keeps_row, result_after, ranked_from,
  rows_to_candidates,
}

module _ (F : Scoring) (rows : List (ResultRow F.Score)) (t : Tenant)
    (allowed : Option (List ℕ)) where
  -- A row of the tenant, of an allowed document.
  abbrev pub IsOwn : ResultRow F.Score → Type 0
  IsOwn r = Mem r rows × (row_matches_tenant t r ≡ true) × (is_allowed allowed r.document ≡ true)

  -- The candidates are of such rows, of the channel, and ranked from `n` on.
  abbrev pub IsNumbered : Channel → ℕ → List (Candidate F.Score) → Type 0
  IsNumbered ch n [] = Unit
  IsNumbered ch n (c ∷ cs) =
      ((r : ResultRow F.Score) × IsOwn r × (c.document ≡ r.document) × (c.raw_score ≡ r.score))
      × (c.channel ≡ ch)
      × (c.rank ≡ suc n)
      × IsNumbered ch (suc n) cs

  keep-IsOwn :
      (minimum : Option F.Score) (rs : List (ResultRow F.Score))
      → ((r : ResultRow F.Score) → Mem r rs → Mem r rows)
      → All IsOwn (keep (keeps_row F t minimum allowed) rs)
  unfolding keeps_row
  keep-IsOwn minimum [] h = tt
  keep-IsOwn minimum (r ∷ rs) h = elim (Bool-cases (keeps_row F t minimum allowed r)) [
    | inl kept ↦
        let (own, more) = and-eq-true (row_matches_tenant t r) _ kept in
        let (named, rest) = and-eq-true (not (r.document == 0)) _ more in
        let (inside, others) = and-eq-true (is_allowed allowed r.document) _ rest in
        rw kept (
          (h r mem-cons_self, own, inside),
          keep-IsOwn minimum rs (λ x m. h x (mem-cons_of_mem r m)),
        )
    | inr skipped ↦ rw skipped (keep-IsOwn minimum rs (λ x m. h x (mem-cons_of_mem r m)))
  ]

  ranked_from-IsNumbered :
      (ch : Channel) (n : ℕ) (rs : List (ResultRow F.Score))
      → All IsOwn rs
      → IsNumbered ch n (ranked_from F n ch rs)
  unfolding ranked_from
  ranked_from-IsNumbered ch n [] a = tt
  ranked_from-IsNumbered ch n (r ∷ rs) (own, a) =
      ((r, own, refl, refl), refl, refl, ranked_from-IsNumbered ch (suc n) rs a)

  -- The candidates of a channel are ranked 1, 2, 3 and so on, and each is a row that the query returned
  -- for the tenant, of an allowed document.
  pub rows_to_candidates-IsNumbered :
      (ch : Channel) (minimum : Option F.Score)
      → IsNumbered ch 0 (rows_to_candidates F rows t ch minimum allowed)
  unfolding rows_to_candidates
  rows_to_candidates-IsNumbered ch minimum = ranked_from-IsNumbered ch 0 _ (
      sort_by-All (result_after F) IsOwn (keep (keeps_row F t minimum allowed) rows)
        (keep-IsOwn minimum rows (λ r m. m)))
