-- ===== src/Embedding/Generation/Searchable.antt =====
-- What search sees after a generation was activated.
use Prim.Native.String.{String}
use mathlib.Core.Path.{ap}
use text.Mathlib.TextEquality.{eq_iff}
use text.Mathlib.TextPositions.{eq_refl}
use docsmint.Prelude.{
  keep_fuse, ℕ, ◌≡◌, refl, sym, ◌∙◌, true, false, not, ◌&&◌, ◌||◌, inl, inr, Option, none, some,
  arith, ◌==◌, keep, All, find?, length, ==_refl,
}
use docsmint.Embedding.Generation.{
  Error, Document, EmbeddingRow, Tables, ProfileArg, ok, throw, activate_generation, check_document,
  promoted, activate_row, is_cancelled, is_searchable, waits, owned, staged, accepts,
  already_active, hash_differs, same_text,
}
use docsmint.Embedding.Generation.Activation.{IsPromoted, activate-cases}
use docsmint.Embedding.Generation.Rows.{find-holds, All-kept, find-update}

module _ (now doc gen expected : ℕ) (profile : Option ProfileArg) (hash : Option String)
    (t t' : Tables) (d : Document) (found : find? (owned doc) t.documents ≡ some d)
    (waiting : d.candidate ≡ some gen)
    (activated : activate_generation now doc gen expected profile hash t ≡ ok t') where
  -- The candidate was promoted: it waited, so the run did not return early.
  promotion :
      IsPromoted now doc gen expected profile hash t
        (activate_generation now doc gen expected profile hash t)
  promotion = elim (activate-cases now doc gen expected profile hash t) [
    | inl (e, refused) ↦ absurd (ok-ne-throw (sym activated ∙ refused))
    | inr (inl again) ↦ absurd (not_again again.document (found_same again.found) again.active)
    | inr (inr pr) ↦ pr
  ]
    where
      ok-ne-throw : {e : Error} → ok t' ≡ throw e → ⊥
      ok-ne-throw h = cc

      found_same : {a : Document} → find? (owned doc) t.documents ≡ some a → a ≡ d
      found_same h = ground arith

      not_again : (a : Document) → a ≡ d → already_active gen a ≡ true → ⊥
      not_again a e h = unfold already_active in ground arith

  open promotion use {name, model}

  d' : Document
  d' = activate_row now gen name hash d

  after : t' ≡ promoted now doc gen name hash t
  after = ground (arith, promotion.result)

  owned-activated : (x : Document) → owned doc (activate_row now gen name hash x) ≡ owned doc x
  unfolding activate_row
  owned-activated x = refl

  waits_now : waits doc gen d ≡ true
  waits_now = let own = find-holds (owned doc) t.documents d found in ground (arith, ==_refl gen)

  found_after : find? (owned doc) t'.documents ≡ some d'
  unfolding promoted d'
  found_after = rw after (
      find-update (owned doc) (waits doc gen) (activate_row now gen name hash) t.documents
        owned-activated
      ∙ rw found (rw waits_now refl))

  searchable_row :
      (r : EmbeddingRow)
      → (not (staged doc gen r) || accepts name model 1024 r) ≡ true
      → not (r.document == doc && not (r.generation == gen)) ≡ true
      → (not (r.document == doc) || is_searchable d' r) ≡ true
  unfolding is_searchable accepts d' activate_row
  searchable_row r a k = ground (arith, eq_iff r.profile name, eq_iff name r.profile)

  -- An activation of a waiting candidate that is not refused leaves the document with the given
  -- number of rows, every one of which search may use.
  pub activate-IsSearchable :
      (e : Document) × (find? (owned doc) t'.documents ≡ some e)
      × All (λ r. (not (r.document == doc) || is_searchable e r) ≡ true) t'.embeddings
      × (length (keep (λ r. r.document == doc) t'.embeddings) ≡ expected)
  unfolding promoted
  activate-IsSearchable = (
    d',
    found_after,
    rw after (All-kept _ _ _ t.embeddings searchable_row promotion.accepted),
    rw after (
        rw
          (keep_fuse (λ r. r.document == doc)
            (λ r. not (r.document == doc && not (r.generation == gen))) (staged doc gen)
            t.embeddings (λ r. ground arith))
          promotion.complete),
  )

  not_cancelled : is_cancelled (find? (λ r. r.generation == gen) t.runs) ≡ false
  unfolding activate_generation
  not_cancelled = ground arith

  same_hash : hash_differs d'.context_hash hash ≡ false
  unfolding hash_differs same_text d' activate_row
  same_hash = text hash
    where
      text :
          (h : Option String) → hash_differs (activate_row now gen name h d).context_hash h ≡ false
      text none = refl
      text (some s) = rw (eq_refl s) refl

  active_now : already_active gen d' ≡ true
  unfolding already_active d' activate_row
  active_now = ground (arith, ==_refl gen)

  -- A repeated job, also at a later time, then finds the generation active and changes nothing.
  pub activate-idempotent :
      (later : ℕ) → activate_generation later doc gen expected profile hash t' ≡ ok t'
  unfolding activate_generation check_document
  activate-idempotent later =
      rw (runs_after, not_cancelled) (rw found_after (rw active_now (rw same_hash refl)))
    where
      runs_after : t'.runs ≡ t.runs
      runs_after = unfold promoted in ap (λ (x : Tables). x.runs) after
