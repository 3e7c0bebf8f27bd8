-- ===== src/Queue/ProviderLimiter/RateWindow.antt =====
-- `waitForRateWindow`: the timestamps of one key, and what one round of its loop does.
mod Bound
mod Tests
use docsmint.Prelude.{
  ℕ, zero, suc, ◌+◌, ◌-◌, max, Bool, Option, none, some, List, [], ◌∷◌, ◌++◌, leb, ltb,
  if◌then◌else◌, keep, length,
}

abbrev pub minute : ℕ
minute = 60000

-- `current - timestamp < 60_000`
abbrev pub is_recent : ℕ → ℕ → Bool
is_recent current timestamp = ltb (current - timestamp) minute

-- A round admits the request, at once where there is no limit and else with the new window, or sleeps.
pub data Round : Type 0 where
  unlimited : Round
  admitted : List ℕ → Round
  sleeps : ℕ → Round

abbrev pub oldest : ℕ → List ℕ → ℕ
oldest current [] = current
oldest current (x ∷ xs) = x

unfoldable pub round_of : ℕ → ℕ → List ℕ → Round
round_of per_minute current window =
    if ltb (length window) per_minute
    then admitted (window ++ current ∷ [])
    else sleeps (max 1 (minute - (current - oldest current window)))

-- One round of the loop at the time `current`, after the guard `requestsPerMinute <= 0`.
unfoldable pub attempt : ℕ → ℕ → List ℕ → Round
unfolding round_of
attempt per_minute current window =
    if leb per_minute 0
    then unlimited
    else round_of per_minute current (keep (is_recent current) window)

-- The window of the key after a round: a round that sleeps does not store the filtered window.
abbrev pub stored : List ℕ → Round → List ℕ
stored window unlimited = window
stored window (admitted w) = w
stored window (sleeps d) = window

-- The rounds of all callers in order, each at its time: the window and the times of admission.
pub record Run : Type 0 where
  pub window : List ℕ
  pub history : List ℕ

abbrev pub recorded : ℕ → List ℕ → Round → List ℕ
recorded current history unlimited = history ++ current ∷ []
recorded current history (admitted w) = history ++ current ∷ []
recorded current history (sleeps d) = history

unfoldable pub step : ℕ → ℕ → Run → Run
step per_minute current r =
    let round = attempt per_minute current r.window in
    record { window = stored r.window round; history = recorded current r.history round }

unfoldable pub run_from : ℕ → List ℕ → Run → Run
run_from per_minute [] r = r
run_from per_minute (t ∷ ts) r = run_from per_minute ts (step per_minute t r)

unfoldable pub run : ℕ → List ℕ → Run
unfolding run_from
run per_minute times = run_from per_minute times (record { window = []; history = [] })
