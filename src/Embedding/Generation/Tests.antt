-- ===== src/Embedding/Generation/Tests.antt =====
-- Runs of the lifecycle on small tables, and the theorems at those runs.
use docsmint.Prelude.{
  ℕ, ◌≡◌, refl, true, false, not, ◌||◌, none, some, [], ◌∷◌, arith, ◌==◌, find?, keep, All, length,
}
use docsmint.Embedding.Generation.{
  Document, EmbeddingRow, Tables, id_of, ok, throw, committed, activate_generation, check_document,
  check_rows, promote, promoted, activate_row, accepts, same_text, begin_generation,
  fail_generation, fail_row, safe_code, is_searchable, is_cancelled, expected_profile,
  expected_model, expected_dimensions, already_active, hash_differs, processing, ready, stale,
  can_transition, generation_incomplete, generation_invalid_profile, owned, staged,
}
use docsmint.Embedding.Generation.Invariant.{
  fits, IsConsistent, start, later, begins, activates, fails, Reach-IsConsistent,
}
use docsmint.Embedding.Generation.Searchable.{activate-IsSearchable, activate-idempotent}
use docsmint.Embedding.Generation.Failure.{
  fail-active, IsSameElsewhere, transactions-IsSameElsewhere,
}

run : Unit {0}
unfolding activate_generation check_document check_rows promote promoted activate_row accepts
    same_text is_cancelled expected_profile expected_model expected_dimensions already_active
    hash_differs begin_generation fail_generation fail_row safe_code is_searchable fits
run = tt

abbrev note : Document
note = record {
  id = 1;
  active = some 5;
  candidate = some 7;
  profile = some "m:1024:v1";
  context_hash = none;
  status = processing;
  error_code = none;
  updated_at = none;
}

abbrev row_of : ℕ → ℕ → EmbeddingRow
row_of doc gen = record {
  document = doc;
  generation = gen;
  is_valid = true;
  profile = "m:1024:v1";
  model = "m";
  dimensions = 1024;
}

abbrev before : Tables
before = record {
  documents = note ∷ [];
  embeddings = row_of 1 5 ∷ row_of 1 7 ∷ row_of 1 7 ∷ row_of 2 5 ∷ [];
  runs = record { generation = 7; cancelled = false } ∷ [];
}

abbrev after : Tables
after = promoted 99 1 7 "m:1024:v1" (some "ctx") before

activated : activate_generation 99 1 7 2 none (some "ctx") before ≡ ok after
unfolding run
activated = refl

incomplete : activate_generation 99 1 7 3 none none before ≡ throw generation_incomplete
unfolding run
incomplete = refl

wrong_profile :
    activate_generation 99 1 7 2 (some (id_of "other")) none before
    ≡ throw generation_invalid_profile
unfolding run
wrong_profile = refl

not_from_stale : can_transition stale ready ≡ false
unfolding can_transition
not_from_stale = refl

activate-IsSearchable_example :
    (e : Document) × (find? (owned 1) after.documents ≡ some e)
    × All (λ r. (not (r.document == 1) || is_searchable e r) ≡ true) after.embeddings
    × (length (keep (λ r. r.document == 1) after.embeddings) ≡ 2)
activate-IsSearchable_example =
    activate-IsSearchable 99 1 7 2 none (some "ctx") before after note refl refl activated

activate-idempotent_example : activate_generation 120 1 7 2 none (some "ctx") after ≡ ok after
activate-idempotent_example =
    activate-idempotent 99 1 7 2 none (some "ctx") before after note refl refl activated 120

before-IsConsistent : IsConsistent before
unfolding run
before-IsConsistent = record { sound = ((refl, (refl, (refl, (refl, tt)))), tt) }

Reach-IsConsistent_example : IsConsistent (
    fail_generation 1 8 (b'x' ∷ []) (
      begin_generation 1 8
        (committed before (activate_generation 99 1 7 2 none (some "ctx") before))))
Reach-IsConsistent_example = Reach-IsConsistent before-IsConsistent (
    later (later (later start (activates 99 1 7 2 none (some "ctx"))) (begins 1 8))
      (fails 1 8 (b'x' ∷ [])))

safe_code_run : safe_code (b'a' ∷ b' ' ∷ b'9' ∷ []) ≡ b'a' ∷ b'_' ∷ b'9' ∷ []
unfolding run
safe_code_run = refl

fail-active_example :
    let u = fail_generation 1 7 (b'x' ∷ []) before in
    (x : Document) × (find? (owned 1) u.documents ≡ some x)
    × (x.active ≡ some 5)
    × (x.profile ≡ some "m:1024:v1")
    × (keep (staged 1 5) u.embeddings ≡ keep (staged 1 5) before.embeddings)
    × (note.candidate ≡ some 7 → (x.status ≡ ready) × (x.candidate ≡ none))
fail-active_example = fail-active 1 7 5 (b'x' ∷ []) before note refl refl (λ e. omega arith)

transactions-IsSameElsewhere_example :
    IsSameElsewhere 1 before (begin_generation 1 7 before)
    × IsSameElsewhere 1 before (committed before (activate_generation 99 1 7 2 none none before))
    × IsSameElsewhere 1 before (fail_generation 1 7 [] before)
transactions-IsSameElsewhere_example = transactions-IsSameElsewhere 99 1 7 2 none none [] before
