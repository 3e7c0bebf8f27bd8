-- ===== src/Queue/Prepare/Tests.antt =====
-- A document of two chunks, in batches of one.
use docsmint.Prelude.{ℕ, ◌≡◌, Bool, true, none, some, [], ◌∷◌, ◌==◌}
use docsmint.Queue.Effects.{Answers, done, start}
use docsmint.Queue.Triples.{after}
use docsmint.Queue.Reuse.{full}
use docsmint.Queue.Prepare.{RunAnswer, Loaded, process_prepare_job}
use docsmint.Queue.Prepare.Laws.{Phase, fresh, next, Ends, prepare_refines}

abbrev finite : ℕ → Bool
finite x = true

abbrev is_null : ℕ → Bool
is_null x = x == 0

abbrev document : Loaded ℕ
document = record {
  revision = 3;
  context_hash = 8;
  chunks = record { index = 0; hash = 10 } ∷ record { index = 1; hash = 11 } ∷ [];
  provider = none;
  active_context_hash = none;
  active_rows = [];
}

-- Cancelled when it is asked for the third time.
abbrev late : Answers
late = record { cancelled = λ n. done (n == 2); current = λ _. done true; acted = λ _. done tt }

prepare_refines_example :
    let (r, l) =
      process_prepare_job
        (0 ∷ 1 ∷ [])
        2
        finite
        is_null
        3
        full
        1
        RunAnswer.prepared
        (done (some document))
        late
        start in
    (q : Phase) × (after next (some fresh) l.trace ≡ some q)
    × Ends late 1 (done (some document)) r q
prepare_refines_example =
    prepare_refines late 1 (done (some document)) (0 ∷ 1 ∷ []) 2 finite is_null full
      RunAnswer.prepared 3
