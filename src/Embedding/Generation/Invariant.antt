-- ===== src/Embedding/Generation/Invariant.antt =====
-- Every row of a document's active generation is valid, has 1024 dimensions and carries the
-- document's profile: what the transactions of generation.ts keep.
use docsmint.Prelude.{
  ℕ, ◌≡◌, Bool, true, not, ◌&&◌, ◌||◌, Option, some, List, ◌∷◌, arith, ◌==◌, is_id, All, All-keep,
  find?, Bool-cases, inl, inr,
}
use docsmint.Embedding.Generation.{
  Document, EmbeddingRow, Tables, ProfileArg, committed, begin_generation, begin_row,
  activate_generation, promoted, activate_row, fail_generation, same_text, waits, owned, staged,
  accepts, active_of,
}
use docsmint.Embedding.Generation.Activation.{activate-cases}
use docsmint.Embedding.Generation.Rows.{All-map, All-zip, All-update}
use Prim.Native.String.{String}
use text.Mathlib.TextEquality.{eq_iff}

-- Row `r` may stay beside document `d`: if it belongs to the active generation it can be searched.
unfoldable pub fits : Document → EmbeddingRow → Bool
unfolding same_text
fits d r =
    not (r.document == d.id)
    || not (is_id d.active r.generation)
    || (r.is_valid && r.dimensions == 1024 && same_text d.profile (some r.profile))

pub record IsConsistent (t : Tables) : Type 0 where
  pub sound : All (λ d. All (λ r. fits d r ≡ true) t.embeddings) t.documents

begin-IsConsistent :
    (doc gen : ℕ) (t : Tables) → IsConsistent t → IsConsistent (begin_generation doc gen t)
unfolding begin_generation fits
begin-IsConsistent doc gen t c = record {
  sound = All-update _ (owned doc) (begin_row gen) t.documents c.sound (λ d e h. h);
}

fail-IsConsistent :
    (doc gen : ℕ) (code : List ℕ) (t : Tables)
    → IsConsistent t
    → IsConsistent (fail_generation doc gen code t)
unfolding fail_generation fits
fail-IsConsistent doc gen code t c =
    elim (Bool-cases (is_id (active_of (find? (owned doc) t.documents)) gen)) [
      | inl e ↦ rw e c
      | inr e ↦ rw e (record {
        sound =
            All-update _ (waits doc gen) _ t.documents
              (All-map _ _ t.documents (λ d h. All-keep _ _ t.embeddings h) c.sound) (λ d w h. h);
      })
    ]

accepted-fits :
    (now doc gen : ℕ) (p m : String) (h : Option String) (d : Document) (r : EmbeddingRow)
    → d.id ≡ doc
    → (not (staged doc gen r) || accepts p m 1024 r) ≡ true
    → fits (activate_row now gen p h d) r ≡ true
unfolding fits accepts activate_row
accepted-fits now doc gen p m h d r e a = ground (arith, eq_iff r.profile p, eq_iff p r.profile)

activate-IsConsistent :
    (now doc gen expected : ℕ) (profile : Option ProfileArg) (hash : Option String) (t : Tables)
    → IsConsistent t
    → IsConsistent (committed t (activate_generation now doc gen expected profile hash t))
unfolding promoted
activate-IsConsistent now doc gen expected profile hash t c =
    elim (activate-cases now doc gen expected profile hash t) [
      | inl (e, refused) ↦ rw refused c
      | inr (inl again) ↦ rw again.result c
      | inr (inr pr) ↦ rw (pr.result) (record {
        sound =
            All-update _ (waits doc gen) _ t.documents
              (All-map _ _ t.documents (λ d h. All-keep _ _ t.embeddings h) c.sound)
              (λ d w h. All-keep _ _ t.embeddings (
                All-map _ _ t.embeddings
                  (λ r a. accepted-fits now doc gen pr.name pr.model hash d r (waits-id d w) a)
                  pr.accepted));
      })
    ]
  where
    waits-id : (d : Document) → waits doc gen d ≡ true → d.id ≡ doc
    waits-id d w = ground arith

-- One transaction of the lifecycle, or a row that the embed worker adds to a generation which is
-- not the active one.
pub data Step (t : Tables) : Tables → Type 0 where
  begins : (doc gen : ℕ) → Step t (begin_generation doc gen t)
  activates :
      (now doc gen expected : ℕ) (profile : Option ProfileArg) (hash : Option String)
      → Step t (committed t (activate_generation now doc gen expected profile hash t))
  fails : (doc gen : ℕ) (code : List ℕ) → Step t (fail_generation doc gen code t)
  stages :
      (r : EmbeddingRow)
      → All
          (λ d. (not (r.document == d.id) || not (is_id d.active r.generation)) ≡ true)
          t.documents
      → Step t (record t { embeddings = r ∷ t.embeddings })

pub data Reach (s : Tables) : Tables → Type 0 where
  start : Reach s s
  later : {t u : Tables} → Reach s t → Step t u → Reach s u

Step-IsConsistent : {t u : Tables} → Step t u → IsConsistent t → IsConsistent u
Step-IsConsistent {t} (begins doc gen) c = begin-IsConsistent doc gen t c
Step-IsConsistent {t} (activates now doc gen expected profile hash) c =
    activate-IsConsistent now doc gen expected profile hash t c
Step-IsConsistent {t} (fails doc gen code) c = fail-IsConsistent doc gen code t c
Step-IsConsistent {t} (stages r new) c = record {
  sound =
      All-zip _ _ (λ d. All (λ x. fits d x ≡ true) (r ∷ t.embeddings)) t.documents
        (λ d h k. (unstaged-fits r d h, k)) new c.sound;
}
  where
    unstaged-fits :
        (r : EmbeddingRow) (d : Document)
        → (not (r.document == d.id) || not (is_id d.active r.generation)) ≡ true
        → fits d r ≡ true
    unstaged-fits r d h = unfold fits in ground arith

-- From consistent tables, every sequence of transactions and staged rows leads to consistent ones.
pub Reach-IsConsistent : {s t : Tables} → IsConsistent s → Reach s t → IsConsistent t
Reach-IsConsistent c start = c
Reach-IsConsistent c (later r st) = Step-IsConsistent st (Reach-IsConsistent c r)
