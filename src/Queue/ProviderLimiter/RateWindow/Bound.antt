-- ===== src/Queue/ProviderLimiter/RateWindow/Bound.antt =====
-- No minute sees more admissions than the limit, and a caller that sleeps is admitted afterwards.
use docsmint.Prelude.{
  subst, ℕ, ◌+◌, ◌-◌, ◌≤◌, ◌<◌, ◌≡◌, refl, ap, Bool, true, false, ◌&&◌, inl, inr, List, [], ◌∷◌,
  ◌++◌, arith, leb, ltb, length, length-append, length-keep, keep, keep-append, keep_agree, All,
  All-append, All-keep, lt→ltb, if◌then◌else◌, Bool-cases, max,
}
use docsmint.Queue.ProviderLimiter.RateWindow.{
  minute, is_recent, unlimited, admitted, sleeps, round_of, attempt, Run, step, run_from, run,
}

-- The times of attempts never fall.
abbrev pub Ascends : ℕ → List ℕ → Type 0
Ascends t [] = Unit
Ascends t (u ∷ us) = (t ≤ u) × Ascends u us

-- The admissions in the minute that ends at `t`.
abbrev pub in_minute : ℕ → ℕ → Bool
in_minute t x = leb x t && ltb t (x + minute)

pub record IsBounded (limit now : ℕ) (r : Run) : Type 0 where
  pub past : All (λ x. x ≤ now) r.history
  pub agrees : (t : ℕ) → now ≤ t → keep (is_recent t) r.window ≡ keep (is_recent t) r.history
  pub few : (t : ℕ) → length (keep (in_minute t) r.history) ≤ limit

past-recent :
    (now t : ℕ) (l : List ℕ)
    → now ≤ t
    → All (λ x. x ≤ now) l
    → keep (in_minute t) l ≡ keep (is_recent t) l
past-recent now t [] h a = refl
past-recent now t (x ∷ l) h (p, a) = ground (arith, past-recent now t l h a)

-- What is recent later was recent before.
later_recent :
    (t u : ℕ) (l : List ℕ) → t ≤ u → All (λ x. is_recent u x ≡ true → is_recent t x ≡ true) l
later_recent t u [] h = tt
later_recent t u (x ∷ l) h = ((λ e. ground arith), later_recent t u l h)

All-mono : (now t : ℕ) (l : List ℕ) → now ≤ t → All (λ x. x ≤ now) l → All (λ x. x ≤ t) l
All-mono now t [] h a = tt
All-mono now t (x ∷ l) h (p, a) = (omega arith, All-mono now t l h a)

minute-before : (t u : ℕ) → u < t → in_minute u t ≡ false
minute-before t u h = ground arith

minute-le :
    (t u : ℕ) (l : List ℕ)
    → t ≤ u
    → All (λ x. x ≤ t) l
    → length (keep (in_minute u) l) ≤ length (keep (is_recent t) l)
minute-le t u [] h a = omega arith
minute-le t u (x ∷ l) h (p, a) = ground (arith, minute-le t u l h a)

module _ (limit now t : ℕ) (r : Run) (pos : 0 < limit) (h : now ≤ t)
    (b : IsBounded limit now r) where
  same : keep (is_recent t) r.window ≡ keep (is_recent t) r.history
  same = b.agrees t h

  full_agrees :
      (u : ℕ)
      → t ≤ u
      → keep (is_recent u) (keep (is_recent t) r.window ++ t ∷ [])
        ≡ keep (is_recent u) (r.history ++ t ∷ [])
  full_agrees u k =
      rw
        (
          same,
          keep-append (is_recent u) (keep (is_recent t) r.history) (t ∷ []),
          keep-append (is_recent u) r.history (t ∷ []),
          keep_agree (is_recent u) (is_recent t) r.history (later_recent t u r.history k),
        )
        refl

  minute-last :
      (u : ℕ)
      → length (keep (in_minute u) (r.history ++ t ∷ []))
        ≡ length (keep (in_minute u) r.history) + (if in_minute u t then 1 else 0)
  minute-last u =
      rw
        (keep-append (in_minute u) r.history (t ∷ []), length-append (keep (in_minute u) r.history))
        (last (in_minute u t))
    where
      last :
          (c : Bool)
          → length (keep (in_minute u) r.history) + length (if c then t ∷ [] else [])
            ≡ length (keep (in_minute u) r.history) + (if c then 1 else 0)
      last true = refl
      last false = refl

  full_few :
      length (keep (is_recent t) r.window) < limit
      → (u : ℕ) → length (keep (in_minute u) (r.history ++ t ∷ [])) ≤ limit
  full_few room u = elim (Bool-cases (ltb u t)) [
    | inl before ↦ ground (arith, minute-last u, b.few u)
    | inr after ↦ ground (
      arith,
      minute-last u,
      ap length same,
      minute-le t u r.history (ground arith) (All-mono now t r.history h b.past),
    )
  ]

  step-IsBounded : IsBounded limit t (step limit t r)
  unfolding step attempt
  step-IsBounded =
      let limited : leb limit 0 ≡ false = ground arith in
      elim (Bool-cases (ltb (length (keep (is_recent t) r.window)) limit)) [
        | inl e ↦
            rw (limited, e)
              (record {
                past =
                    All-append _ r.history (t ∷ []) (All-mono now t r.history h b.past)
                      (omega arith);
                agrees = full_agrees;
                few = full_few (ground arith);
              })
        | inr e ↦
            rw (limited, e)
              (record {
                past = All-mono now t r.history h b.past;
                agrees = λ u k. b.agrees u (omega arith);
                few = b.few;
              })
      ]

run_from-few :
    (limit now : ℕ) (ts : List ℕ) (r : Run)
    → 0 < limit
    → Ascends now ts
    → IsBounded limit now r
    → (u : ℕ) → length (keep (in_minute u) (run_from limit ts r).history) ≤ limit
unfolding run_from
run_from-few limit now [] r pos a b = b.few
run_from-few limit now (t ∷ ts) r pos (h, a) b =
    run_from-few limit t ts (step limit t r) pos a (step-IsBounded limit now t r pos h b)

-- If the limit is positive, then however many callers try, at times that do not fall, every minute
-- sees at most the limit of admissions.
pub run-few :
    (limit : ℕ) (times : List ℕ)
    → 0 < limit
    → Ascends 0 times
    → (u : ℕ) → length (keep (in_minute u) (run limit times).history) ≤ limit
unfolding run
run-few limit times pos a =
    run_from-few limit 0 times (record { window = []; history = [] }) pos a
      (record { past = tt; agrees = λ t h. refl; few = λ t. omega arith })

drop-oldest :
    (t u x : ℕ) (xs : List ℕ) → x ≤ t → max 1 (minute - (t - x)) + t ≤ u → is_recent u x ≡ false
drop-oldest t u x xs h k = ground arith

-- With the window full at `t`, one timestamp at least has left it when the sleep is over.
room-after_sleep :
    (limit t u delay : ℕ) (l : List ℕ)
    → All (λ x. x ≤ t) l
    → length l ≤ limit
    → 0 < limit
    → round_of limit t l ≡ sleeps delay
    → t + delay ≤ u
    → length (keep (is_recent u) l) < limit
unfolding round_of
room-after_sleep limit t u delay [] past full pos slept late = pos
room-after_sleep limit t u delay (x ∷ xs) (p, past) full pos slept late =
    elim (Bool-cases (ltb (length (x ∷ xs)) limit)) [
      | inl room ↦ ground (arith, length-keep (is_recent u) (x ∷ xs))
      | inr none_left ↦
          let asleep : max 1 (minute - (t - x)) ≡ delay = ground arith in
          rw (drop-oldest t u x xs p (omega arith)) (omega (arith, length-keep (is_recent u) xs))
    ]

-- If a request finds the window full and sleeps, and nobody else is admitted meanwhile, then its next
-- round, once the sleep is over, admits it.
pub attempt-after_sleep :
    (limit t u delay : ℕ) (window : List ℕ)
    → All (λ x. x ≤ t) window
    → length (keep (is_recent t) window) ≤ limit
    → 0 < limit
    → attempt limit t window ≡ sleeps delay
    → t + delay ≤ u
    → attempt limit u window ≡ admitted (keep (is_recent u) window ++ u ∷ [])
unfolding attempt
attempt-after_sleep limit t u delay window past full pos slept late =
    unfold round_of in rw (limited, lt→ltb _ _ room) refl
  where
    limited : leb limit 0 ≡ false
    limited = ground arith

    asleep : round_of limit t (keep (is_recent t) window) ≡ sleeps delay
    asleep =
        subst
          (λ b.
            (if b then unlimited else round_of limit t (keep (is_recent t) window)) ≡ sleeps delay)
          limited slept

    same : keep (is_recent u) (keep (is_recent t) window) ≡ keep (is_recent u) window
    same = keep_agree (is_recent u) (is_recent t) window (later_recent t u window (omega arith))

    room : length (keep (is_recent u) window) < limit
    room = rw (← same) (
        room-after_sleep limit t u delay (keep (is_recent t) window)
          (All-keep (λ x. x ≤ t) (is_recent t) window past) full pos asleep late)
