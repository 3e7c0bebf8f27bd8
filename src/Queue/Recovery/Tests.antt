-- ===== src/Queue/Recovery/Tests.antt =====
-- Two batches of one run, and a stage that has used up its attempts.
use docsmint.Prelude.{ℕ, ◌≤◌, ◌≡◌, refl, Bool, true, [], ◌∷◌}
use docsmint.Queue.Recovery.{
  Candidate, mark_exhausted, claim_retry, add, embed, graph, recover, calls_for, remember,
}
use docsmint.Queue.Recovery.Once.{times_settled, recover-once}
use docsmint.Queue.Recovery.Claimed.{IsAllowed, recover-IsAllowed}

abbrev batch : ℕ → Candidate
batch job = record { run = 1; stage = embed; job = job; attempts = 2; observed = 9 }

abbrev spent : Candidate
spent = record { run = 2; stage = graph; job = 7; attempts = 5; observed = 9 }

abbrev yields : Candidate → Bool
yields c = true

test-recover :
    recover 5 yields [] (batch 0 ∷ spent ∷ batch 1 ∷ [])
    ≡ claim_retry (batch 0) true ∷ add (batch 0) ∷ mark_exhausted spent ∷ add (batch 1) ∷ []
unfolding recover calls_for remember
test-recover = refl

recover-once_example :
    times_settled (batch 1) (recover 5 yields [] (batch 0 ∷ spent ∷ batch 1 ∷ [])) ≤ 1
recover-once_example = recover-once 5 yields (batch 1) (batch 0 ∷ spent ∷ batch 1 ∷ [])

recover-IsAllowed_example : IsAllowed 5 [] (recover 5 yields [] (batch 0 ∷ spent ∷ batch 1 ∷ []))
recover-IsAllowed_example = recover-IsAllowed 5 yields (batch 0 ∷ spent ∷ batch 1 ∷ [])
