-- ===== src/Queue/ProviderLimiter/Retry.antt =====
-- `withPermit` of one call, between its permit and its release: the circuit of its key, the retries
-- and their sleeps, those in the rate window before each attempt included. The provider's answers, the
-- clock and the rate window are arguments: `outcome k` is what the k-th call of `fn` does, `clock k` the
-- time at which it ends, and `seen k` what the rounds of the rate window before it find.
mod Laws
mod Circuits
mod Tests
use docsmint.Prelude.{
  ℕ, zero, suc, ◌+◌, ◌*◌, ◌^◌, Bool, true, false, not, ◌||◌, Option, none, some, List, [], ◌∷◌, leb,
  ltb, ◌==◌, if◌then◌else◌, map, ◌++◌,
}
use docsmint.Queue.ProviderLimiter.RateWindow
use docsmint.Queue.ProviderLimiter.RateWindow.{Round, unlimited, admitted, sleeps}

pub data Mode : Type 0 where
  disabled local remote : Mode

-- What the retries read of `ProviderLimiterProfile`; an absent field is `none`. The name is part of
-- the key.
pub record Profile : Type 0 where
  pub mode : Mode
  pub max_concurrency : Option ℕ
  pub max_retries : Option ℕ
  pub requests_per_minute : Option ℕ
  pub base_backoff : Option ℕ
  pub failure_threshold : Option ℕ
  pub cooldown : Option ℕ

abbrev pub or_default : Option ℕ → ℕ → ℕ
or_default none d = d
or_default (some n) d = n

-- An error: its HTTP status, if it has one, and what `retryAfterMs` reads from it.
pub record Failure : Type 0 where
  pub status : Option ℕ
  pub retry_after : Option ℕ

pub data Outcome (V : Type 0) : Type 0 where
  value : V → Outcome V
  fails : Failure → Outcome V

-- `retryable`
abbrev pub retryable_status : Option ℕ → Bool
retryable_status none = false
retryable_status (some s) = s == 429 || leb 500 s

abbrev pub retryable : Failure → Bool
retryable e = retryable_status e.status

pub record Circuit : Type 0 where
  pub failures : ℕ
  pub open_until : ℕ

-- What a round of `waitForRateWindow` finds: the time, and the timestamps of the key, which other
-- callers share.
pub record Seen : Type 0 where
  pub now : ℕ
  pub window : List ℕ

abbrev pub after_round : Round → Option (List ℕ) → Option (List ℕ)
after_round unlimited rest = some []
after_round (admitted w) rest = some []
after_round (sleeps d) none = none
after_round (sleeps d) (some ds) = some (d ∷ ds)

-- `waitForRateWindow`: its sleeps until a round admits the request; `none` if none of these rounds does.
-- Without a limit there is none to wait for.
unfoldable pub rate_sleeps : ℕ → List Seen → Option (List ℕ)
rate_sleeps per_minute [] = if leb per_minute 0 then some [] else none
rate_sleeps per_minute (s ∷ rest) =
    after_round (RateWindow.attempt per_minute s.now s.window) (rate_sleeps per_minute rest)

-- A sleep in the rate window or between two attempts.
pub data Sleep : Type 0 where
  rate backoff : ℕ → Sleep

-- What the call ends with; `waiting` if it is still in the rate window when its rounds are used up.
pub data Ending (V : Type 0) : Type 0 where
  returned : V → Ending V
  thrown : Failure → Ending V
  circuit_open bad_concurrency waiting : Ending V

pub record Report (V : Type 0) : Type 0 where
  pub ending : Ending V
  pub calls : ℕ
  pub slept : List Sleep
  pub circuit : Option Circuit

abbrev pub failures_of : Option Circuit → ℕ
failures_of none = 0
failures_of (some c) = c.failures

abbrev pub open_until_of : Option Circuit → ℕ
open_until_of none = 0
open_until_of (some c) = c.open_until

-- The state of the circuit after a retryable error that is thrown on at the time `now`.
unfoldable pub record_failure : Profile → ℕ → Option Circuit → Circuit
record_failure p now c =
    let failures = failures_of c + 1 in
    record {
      failures = failures;
      open_until =
          if leb (or_default p.failure_threshold 5) failures
          then now + or_default p.cooldown 30000
          else open_until_of c;
    }

module _ {V : Type 0} where
  abbrev pub after_pause : ℕ → Report V → Report V
  after_pause d r = record r { slept = backoff d ∷ r.slept }

  abbrev pub direct : Option Circuit → Outcome V → Report V
  direct c (value v) = record { ending = returned v; calls = 1; slept = []; circuit = c }
  direct c (fails e) = record { ending = thrown e; calls = 1; slept = []; circuit = c }

  abbrev pub refused : Ending V → Option Circuit → Report V
  refused e c = record { ending = e; calls = 0; slept = []; circuit = c }

-- `const maxRetries = profile.mode === "remote" ? (profile.maxRetries ?? 3) : 0`
abbrev pub max_retries : Profile → Mode → ℕ
max_retries p remote = or_default p.max_retries 3
max_retries p _ = 0

-- `if (profile.mode === "remote") await waitForRateWindow(key, profile.requestsPerMinute ?? 0)`
unfoldable pub waits : Profile → (ℕ → List Seen) → Mode → ℕ → Option (List ℕ)
waits p seen remote attempt = rate_sleeps (or_default p.requests_per_minute 0) (seen attempt)
waits p seen _ attempt = some []

module _ {V : Type 0} where
  -- What the call does after the wait before `attempt`.
  abbrev pub waited : ℕ → Option Circuit → Option (List ℕ) → Report V → Report V
  waited attempt c none r = record { ending = waiting; calls = attempt; slept = []; circuit = c }
  waited attempt c (some ds) r = record r { slept = map rate ds ++ r.slept }

module _ {V : Type 0} (p : Profile) (outcome : ℕ → Outcome V) (clock : ℕ → ℕ)
    (seen : ℕ → List Seen) where
  -- The `throw error` that ends the attempts.
  unfoldable pub give_up : ℕ → Failure → Option Circuit → Report V
  give_up attempt e c = record {
    ending = thrown e;
    calls = attempt + 1;
    slept = [];
    circuit = if retryable e then some (record_failure p (clock attempt) c) else c;
  }

  unfoldable pub succeed : ℕ → V → Report V
  succeed attempt v = record {
    ending = returned v;
    calls = attempt + 1;
    slept = [];
    circuit = none;
  }

  -- `retryAfter ?? exponential`
  unfoldable pub pause : ℕ → Failure → ℕ
  pause attempt e = or_default e.retry_after (or_default p.base_backoff 250 * 2 ^ attempt)

  -- The `for` loop from `attempt` on; `left` retries remain.
  unfoldable pub attempts : Mode → ℕ → ℕ → Option Circuit → Report V
  attempts m zero attempt c =
      waited attempt c (waits p seen m attempt)
        (elim (outcome attempt) [ value v ↦ succeed attempt v | fails e ↦ give_up attempt e c ])
  attempts m (suc left) attempt c =
      let rest = attempts m left (attempt + 1) c in
      waited attempt c (waits p seen m attempt) (elim (outcome attempt) [
        | value v ↦ succeed attempt v
        | fails e ↦
            let again = after_pause (pause attempt e) rest in
            if retryable e then again else give_up attempt e c
      ])

  abbrev pub limited : Mode → ℕ → Option Circuit → Report V
  limited m now c =
      if ltb now (open_until_of c)
      then refused circuit_open c
      else if ltb (or_default p.max_concurrency 1) 1
      then refused bad_concurrency c
      else attempts m (max_retries p m) 0 c

  abbrev pub by_mode : Mode → ℕ → Option Circuit → Report V
  by_mode disabled now c = direct c (outcome 0)
  by_mode local now c = limited local now c
  by_mode remote now c = limited remote now c

  -- `withPermit`, called at the time `now`.
  unfoldable pub with_permit : ℕ → Option Circuit → Report V
  with_permit now c = by_mode p.mode now c
