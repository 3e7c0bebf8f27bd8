-- ===== src/Embedding/Generation/Activation.antt =====
-- What an activation that is not refused has checked, and the tables that it leaves.
use Prim.Native.String.{String}
use text.Mathlib.Text.{◌==◌ as str_eq}
use mathlib.Core.Path.{subst}
use docsmint.Prelude.{
  ==_iff, ℕ, ◌≡◌, ◌≢◌, refl, Bool, true, false, not, ◌||◌, ◌⊎◌, inl, inr, Option, none, some, List,
  [], ◌∷◌, arith, ◌==◌, is_id, keep, All, any, find?, length, Bool-cases,
}
use docsmint.Embedding.Generation.{
  Error, pipeline_cancelled, generation_context_mismatch, generation_not_pending,
  generation_incomplete, generation_invalid_profile, Document, EmbeddingRow, Tables, ProfileArg,
  Outcome, ok, throw, activate_generation, check_document, check_rows, promote, promoted,
  is_cancelled, waits, owned, staged, accepts, hash_differs, already_active, expected_profile,
  expected_model, expected_dimensions,
}
use docsmint.Embedding.Generation.Rows.{keep-any}

abbrev pub IsRefused : Outcome Tables → Type 0
IsRefused o = (e : Error) × (o ≡ throw e)

module _ (now doc gen expected : ℕ) (profile : Option ProfileArg) (hash : Option String)
    (t : Tables) where
  -- The run changed the tables: the candidate was complete and of one profile.
  pub record IsPromoted (o : Outcome Tables) : Type 0 where
    pub name : String
    pub model : String
    pub result : o ≡ ok (promoted now doc gen name hash t)
    pub accepted :
        All (λ r. (not (staged doc gen r) || accepts name model 1024 r) ≡ true) t.embeddings
    pub complete : length (keep (staged doc gen) t.embeddings) ≡ expected
    pub nonempty : length (keep (staged doc gen) t.embeddings) ≢ 0
    pub one : length (keep (waits doc gen) t.documents) ≡ 1

  promote-cases :
      (p m : String) (rows : List EmbeddingRow)
      → rows ≡ keep (staged doc gen) t.embeddings
      → length rows ≢ 0
      → length rows ≡ expected
      → any (λ x. not (accepts p m 1024 x)) rows ≡ false
      → IsRefused (promote now doc gen p hash t) ⊎ IsPromoted (promote now doc gen p hash t)
  unfolding promote
  promote-cases p m rows e k n a =
      elim (Bool-cases (length (keep (waits doc gen) t.documents) == 1)) [
        | inr bad ↦ inl (generation_not_pending, rw bad refl)
        | inl good ↦ inr (record {
          name = p;
          model = m;
          result = rw good refl;
          accepted = keep-any (accepts p m 1024) (staged doc gen) t.embeddings (rw e at a);
          complete = rw e at n;
          nonempty = rw e at k;
          one = ground arith;
        })
      ]

  -- The three tests of the profile check, read off its disjunction.
  profile_tests : (b c d : Bool) → (b || not c || d) ≡ false → (c ≡ true) × (d ≡ false)
  profile_tests b c d h = ground arith

  check_rows-cases :
      (rows : List EmbeddingRow)
      → rows ≡ keep (staged doc gen) t.embeddings
      → let o = check_rows now doc gen expected profile hash rows t in IsRefused o ⊎ IsPromoted o
  unfolding check_rows
  check_rows-cases [] e = inl (generation_incomplete, refl)
  check_rows-cases (r ∷ rows) e =
      let p = expected_profile profile r in
      let m = expected_model profile r in
      let n = expected_dimensions profile in
      let wrong = any (λ x. not (accepts p m n x)) (r ∷ rows) in
      elim (Bool-cases (length (r ∷ rows) == expected)) [
        | inr bad ↦ inl (generation_incomplete, rw bad refl)
        | inl good ↦ elim (Bool-cases (str_eq p "" || not (n == 1024) || wrong)) [
          | inl bad ↦ inl (generation_invalid_profile, rw good (rw bad refl))
          | inr fine ↦
              let (dims, none_wrong) = profile_tests (str_eq p "") (n == 1024) wrong fine in
              rw good (
                rw fine (
                  promote-cases p m (r ∷ rows) e (omega arith) ((==_iff _ _).0 good) (
                    subst (λ k. any (λ x. not (accepts p m k x)) (r ∷ rows) ≡ false)
                      ((==_iff _ _).0 dims) none_wrong)))
        ]
      ]

  -- The generation was active already, under the same context: a repeated job.
  pub record IsRepeat (o : Outcome Tables) : Type 0 where
    pub document : Document
    pub found : find? (owned doc) t.documents ≡ some document
    pub active : already_active gen document ≡ true
    pub result : o ≡ ok t

  -- An activation throws, finds the generation active already, or promotes a complete candidate.
  pub activate-cases :
      let o = activate_generation now doc gen expected profile hash t in
      IsRefused o ⊎ (IsRepeat o ⊎ IsPromoted o)
  unfolding activate_generation check_document
  activate-cases = elim (Bool-cases (is_cancelled (find? (λ r. r.generation == gen) t.runs))) [
    | inl stop ↦ inl (pipeline_cancelled, rw stop refl)
    | inr go ↦ rw go (with_document (find? (owned doc) t.documents) refl)
  ]
    where
      with_document :
          (o : Option Document)
          → find? (owned doc) t.documents ≡ o
          → let r = check_document now doc gen expected profile hash o t in
            IsRefused r ⊎ (IsRepeat r ⊎ IsPromoted r)
      with_document none f = inl (generation_not_pending, refl)
      with_document (some d) f = elim (Bool-cases (already_active gen d)) [
        | inl e ↦ elim (Bool-cases (hash_differs d.context_hash hash)) [
          | inl differs ↦ inl (generation_context_mismatch, rw e (rw differs refl))
          | inr same ↦
              inr
                (inl (record { document = d; found = f; active = e; result = rw e (rw same refl) }))
        ]
        | inr e ↦ elim (Bool-cases (is_id d.candidate gen)) [
          | inr other ↦ inl (generation_not_pending, rw e (rw other refl))
          | inl waiting ↦ rw e (
              rw waiting (elim (check_rows-cases (keep (staged doc gen) t.embeddings) refl) [
                | inl bad ↦ inl bad
                | inr good ↦ inr (inr good)
              ]))
        ]
      ]
