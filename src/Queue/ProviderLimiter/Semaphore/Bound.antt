-- ===== src/Queue/ProviderLimiter/Semaphore/Bound.antt =====
-- How many permits can be out at once.
use docsmint.Prelude.{
  ℕ, zero, suc, ◌+◌, ◌-◌, ◌≤◌, ◌<◌, ◌≡◌, ◌≢◌, refl, sym, ap, ◌∙◌, List, [], ◌∷◌, arith, length,
  length-append,
}
use docsmint.Queue.ProviderLimiter.Semaphore.{
  Semaphore, idle, acquire, resume, resume_with, release, wake,
}

-- What the event loop may run next. `calls` says whether a new call may come before the callers that
-- were woken have run on.
pub data Step (limit : ℕ) (MayCall : Semaphore → Type 0) (s : Semaphore) : Semaphore → Type 0 where
  calls : (caller : ℕ) → MayCall s → Step limit MayCall s (acquire limit caller s)
  resumes : Step limit MayCall s (resume s)
  releases : 0 < s.active → Step limit MayCall s (release s)

pub data Reach (limit : ℕ) (MayCall : Semaphore → Type 0) : Semaphore → Type 0 where
  start : Reach limit MayCall idle
  later : {s t : Semaphore} → Reach limit MayCall s → Step limit MayCall s t → Reach limit MayCall t

abbrev pub Settled : Semaphore → Type 0
Settled s = s.woken ≡ []

abbrev pub Anytime : Semaphore → Type 0
Anytime s = Unit {0}

-- The permits out and those promised stay within the limit, and a caller waits only if they reach it.
pub record IsWithin (limit : ℕ) (s : Semaphore) : Type 0 where
  pub bounded : s.active + length s.woken ≤ limit
  pub busy : s.waiters ≢ [] → s.active + length s.woken ≡ limit

acquire-IsWithin :
    (limit caller : ℕ) (s : Semaphore)
    → Settled s
    → IsWithin limit s
    → IsWithin limit (acquire limit caller s)
unfolding acquire
acquire-IsWithin limit caller s q w = ground arith

resume-IsWithin : (limit : ℕ) (s : Semaphore) → IsWithin limit s → IsWithin limit (resume s)
unfolding resume
resume-IsWithin limit s w = go s.woken refl
  where
    go : (l : List ℕ) → s.woken ≡ l → IsWithin limit (resume_with l s)
    go [] e = w
    go (c ∷ l) e = record {
      bounded = omega (arith, w.bounded, ap length e);
      busy = λ n. omega (arith, ap length e, w.busy n);
    }

release-IsWithin :
    (limit : ℕ) (s : Semaphore) → 0 < s.active → IsWithin limit s → IsWithin limit (release s)
unfolding release
release-IsWithin limit s h w = go s.waiters refl
  where
    cons-ne-nil : {c : ℕ} {l : List ℕ} → c ∷ l ≡ [] → ⊥
    cons-ne-nil h = cc

    go : (l : List ℕ) → s.waiters ≡ l → IsWithin limit (wake l (record s { active = s.active - 1 }))
    go [] e = record { bounded = omega (arith, w.bounded); busy = λ n. absurd (n e) }
    go (c ∷ l) e =
        let full : s.active + length s.woken ≡ limit = w.busy (λ n. cons-ne-nil (sym e ∙ n)) in
        let longer = length-append s.woken (c ∷ []) in
        record { bounded = omega (arith, full, longer); busy = λ n. omega (arith, full, longer) }

Step-IsWithin :
    (limit : ℕ) {s t : Semaphore} → Step limit Settled s t → IsWithin limit s → IsWithin limit t
Step-IsWithin limit {s} (calls caller q) w = acquire-IsWithin limit caller s q w
Step-IsWithin limit {s} resumes w = resume-IsWithin limit s w
Step-IsWithin limit {s} (releases h) w = release-IsWithin limit s h w

-- If no call comes between a release and the moment at which the caller that it woke runs on, the
-- permits out and promised never exceed the limit, and a caller waits only while they reach it.
pub Reach-IsWithin : (limit : ℕ) {s : Semaphore} → Reach limit Settled s → IsWithin limit s
Reach-IsWithin limit start =
    unfold idle in record { bounded = omega arith; busy = λ n. absurd (n refl) }
Reach-IsWithin limit (later r st) = Step-IsWithin limit st (Reach-IsWithin limit r)

-- `n` permits out, nobody waiting.
abbrev filled : ℕ → Semaphore
filled n = record { active = n; waiters = []; woken = [] }

Reach-filled : (limit n : ℕ) → n ≤ limit → Reach limit Anytime (filled n)
unfolding idle acquire
Reach-filled limit zero h = start
Reach-filled limit (suc n) h =
    rw (← taken) (later (Reach-filled limit n (omega arith)) (calls n tt))
  where
    taken : acquire limit n (filled n) ≡ filled (suc n)
    taken = ground arith

-- A call that comes in between takes the permit that was promised: with any limit, one permit more
-- than the limit can be out.
pub semaphore_overrun :
    (limit : ℕ) → 0 < limit → (s : Semaphore) × Reach limit Anytime s × (s.active ≡ limit + 1)
unfolding acquire release resume
semaphore_overrun limit h = (
  resume passed_over,
  later (later (later full (releases (ground arith))) (calls 2 tt)) resumes,
  ground arith,
)
  where
    waiting : Semaphore
    waiting = acquire limit 1 (filled limit)

    passed_over : Semaphore
    passed_over = acquire limit 2 (release waiting)

    full : Reach limit Anytime waiting
    full = later (Reach-filled limit limit (omega arith)) (calls 1 tt)
