-- ===== src/Queue/ProviderLimiter/Semaphore/Tests.antt =====
-- Runs of the semaphore.
use docsmint.Prelude.{◌+◌, ◌≡◌, refl, [], arith}
use docsmint.Queue.ProviderLimiter.Semaphore.{Semaphore, idle, acquire, resume, release}
use docsmint.Queue.ProviderLimiter.Semaphore.Bound.{
  Reach, start, later, calls, resumes, releases, Settled, Anytime, IsWithin, Reach-IsWithin,
  semaphore_overrun,
}

-- Two callers, one permit: the second waits, is woken and runs on.
abbrev handed : Semaphore
handed = resume (release (acquire 1 2 (acquire 1 1 idle)))

handed_over : handed ≡ record { active = 1; waiters = []; woken = [] }
unfolding idle acquire resume release
handed_over = refl

Reach-handed : Reach 1 Settled handed
unfolding idle acquire resume release
Reach-handed =
    later (later (later (later start (calls 1 refl)) (calls 2 refl)) (releases (omega arith)))
      resumes

Reach-IsWithin_example : IsWithin 1 handed
Reach-IsWithin_example = Reach-IsWithin 1 Reach-handed

semaphore_overrun_example : (s : Semaphore) × Reach 4 Anytime s × (s.active ≡ 4 + 1)
semaphore_overrun_example = semaphore_overrun 4 (omega arith)
