-- ===== src/Queue/ProviderLimiter/Semaphore.antt =====
-- `class Semaphore`: its two fields, and the waiting callers whose promise was resolved but which
-- have not run on yet. A caller is a number. `await` splits `acquire` in two steps.
mod Bound
mod Tests
use docsmint.Prelude.{ℕ, ◌+◌, ◌-◌, List, [], ◌∷◌, ◌++◌, leb, if◌then◌else◌}

pub record Semaphore : Type 0 where
  pub active : ℕ
  pub waiters : List ℕ
  pub woken : List ℕ

unfoldable pub idle : Semaphore
idle = record { active = 0; waiters = []; woken = [] }

-- `acquire` up to its `await`: the caller queues, or takes a permit.
unfoldable pub acquire : ℕ → ℕ → Semaphore → Semaphore
acquire limit caller s =
    if leb limit s.active
    then record s { waiters = s.waiters ++ caller ∷ [] }
    else record s { active = s.active + 1 }

-- `acquire` after its `await`, for the first caller that was woken.
unfoldable pub resume_with : List ℕ → Semaphore → Semaphore
resume_with [] s = s
resume_with (caller ∷ rest) s = record s { active = s.active + 1; woken = rest }

unfoldable pub resume : Semaphore → Semaphore
unfolding resume_with
resume s = resume_with s.woken s

-- `this.waiters.shift()?.()`
unfoldable pub wake : List ℕ → Semaphore → Semaphore
wake [] s = s
wake (caller ∷ rest) s = record s { waiters = rest; woken = s.woken ++ caller ∷ [] }

-- The function that `acquire` returns, at its first call; a second call does nothing.
unfoldable pub release : Semaphore → Semaphore
unfolding wake
release s = wake s.waiters (record s { active = s.active - 1 })
