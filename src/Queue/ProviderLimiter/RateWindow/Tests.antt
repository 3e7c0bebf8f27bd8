-- ===== src/Queue/ProviderLimiter/RateWindow/Tests.antt =====
-- Runs of the rate window.
use docsmint.Prelude.{ℕ, ◌≤◌, ◌≡◌, refl, List, [], ◌∷◌, length, keep, arith}
use docsmint.Queue.ProviderLimiter.RateWindow.{run, step, attempt}
use docsmint.Queue.ProviderLimiter.RateWindow.Bound.{in_minute, run-few}

abbrev times : List ℕ
times = 10 ∷ 20 ∷ 30 ∷ 60015 ∷ 60018 ∷ 60021 ∷ []

at_once : (run 0 (10 ∷ 10 ∷ 10 ∷ [])).history ≡ 10 ∷ 10 ∷ 10 ∷ []
unfolding run step attempt
at_once = refl

admissions : (run 2 times).history ≡ 10 ∷ 20 ∷ 60015 ∷ 60021 ∷ []
unfolding run step attempt
admissions = refl

run-few_example : length (keep (in_minute 60020) (run 2 times).history) ≤ 2
run-few_example = run-few 2 times (omega arith) (omega arith) 60020
