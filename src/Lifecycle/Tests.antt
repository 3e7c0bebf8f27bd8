-- ===== src/Lifecycle/Tests.antt =====
-- An operation whose lease runs out, and a second worker that takes it over.
use docsmint.Prelude.{◌≡◌, refl, none, some, [], ◌∷◌}
use docsmint.Lifecycle.{Operation, pending, acquired, acquire_lease, persist, call, after}
use docsmint.Lifecycle.Fencing.{writes_fenced}

abbrev fresh : Operation
fresh = record {
  status = pending;
  lease_owner = none;
  lease_expires_at = none;
  fence_token_hash = none;
  completed_steps = [];
  terminal_result = none;
  safe_error_code = none;
  attempt_count = 0;
  completed_at = none;
}

-- Worker 1 acquires the lease at 0, worker 2 at 70000.
abbrev held : Operation
held = acquired 0 1 fresh

abbrev taken_over : Operation
taken_over = acquired 70000 2 held

test-taken_over : acquire_lease 70000 2 held ≡ some taken_over
unfolding acquire_lease
test-taken_over = refl

test-too_early : acquire_lease 50000 2 held ≡ none
unfolding acquire_lease
test-too_early = refl

writes_fenced_example :
    call 70002 1
      (persist 7 [])
      (after taken_over (record { at = 70001; worker = 2; transaction = persist 6 [] } ∷ []))
    ≡ none
writes_fenced_example =
    writes_fenced held taken_over 2 1 70000 70002
      (record { at = 70001; worker = 2; transaction = persist 6 [] } ∷ []) (persist 7 []) refl
      test-taken_over refl refl
