-- ===== src/Queue/ProviderLimiter/Retry/Tests.antt =====
-- One provider that answers at the second call, and one that is down, run by the model.
use docsmint.Prelude.{ℕ, zero, suc, ◌+◌, ◌*◌, ◌≡◌, refl, none, some, List, [], ◌∷◌, arith}
use docsmint.Queue.ProviderLimiter.RateWindow
use docsmint.Queue.ProviderLimiter.RateWindow.{round_of}
use docsmint.Queue.ProviderLimiter.Retry.{
  rate, backoff, Seen, waits, rate_sleeps, Profile, Failure, Outcome, value, fails, circuit_open,
  attempts, give_up, succeed, pause, with_permit, remote,
}
use docsmint.Queue.ProviderLimiter.Retry.Laws.{IsTried, with_permit-IsTried}
use docsmint.Queue.ProviderLimiter.Retry.Circuits.{Call, perform, after, circuit_refuses}

abbrev profile : Profile
profile = record {
  mode = remote;
  max_concurrency = some 2;
  max_retries = some 1;
  requests_per_minute = some 1;
  base_backoff = none;
  failure_threshold = some 2;
  cooldown = some 1000;
}

abbrev busy : Failure
busy = record { status = some 429; retry_after = none }

abbrev second : ℕ → Outcome ℕ
second zero = fails busy
second (suc k) = value k

abbrev clock : ℕ → ℕ
clock k = 100 + k * 300

-- The window holds one other request, which leaves it after two seconds.
abbrev seen : ℕ → List Seen
seen k =
    record { now = 60000; window = 2000 ∷ [] } ∷ record { now = 62000; window = 2000 ∷ [] } ∷ []

seen-LetsIn : (k : ℕ) → (ds : List ℕ) × (waits profile seen remote k ≡ some ds)
unfolding waits rate_sleeps RateWindow.attempt round_of
seen-LetsIn k = (2000 ∷ [], refl)

test-second :
    (with_permit profile second clock seen 0 none).slept ≡ rate 2000 ∷ backoff 250 ∷ rate 2000 ∷ []
unfolding with_permit attempts give_up succeed pause waits rate_sleeps RateWindow.attempt round_of
test-second = refl

with_permit-IsTried_example : IsTried second 0 2 (with_permit profile second clock seen 50 none)
with_permit-IsTried_example =
    with_permit-IsTried second profile clock seen 50 none refl (omega arith) (omega arith)
      seen-LetsIn

abbrev first_call : Call profile
first_call = record { now = 0; outcome = λ _. fails busy; clock = clock; seen = seen }

abbrev second_call : Call profile
second_call = record {
  now = 500;
  outcome = λ _. fails busy;
  clock = λ k. 500 + clock k;
  seen = seen;
}

abbrev third_call : Call profile
third_call = record { now = 1500; outcome = second; clock = λ k. 1500 + clock k; seen = seen }

circuit_refuses_example :
    let refusal = perform profile third_call (after profile (first_call ∷ second_call ∷ []) none) in
    (refusal.ending ≡ circuit_open) × (refusal.calls ≡ 0)
circuit_refuses_example =
    circuit_refuses profile refl (omega arith) first_call (second_call ∷ []) none third_call
      ((λ k. (busy, refl, refl)), seen-LetsIn, ((λ k. (busy, refl, refl)), seen-LetsIn, tt)) refl
      refl (omega arith)
