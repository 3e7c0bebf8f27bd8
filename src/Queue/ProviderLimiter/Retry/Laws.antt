-- ===== src/Queue/ProviderLimiter/Retry/Laws.antt =====
-- How often a call is tried, and what it ends with.
use docsmint.Prelude.{
  Bool, some, List, [], ◌∷◌, ◌++◌, map, keep, if◌then◌else◌, ℕ, zero, suc, ◌+◌, ◌≤◌, ◌<◌, ◌≡◌, ◌⊎◌,
  inl, inr, refl, true, false, Option, none, arith, length, Bool-cases, ltb, leb,
}
use docsmint.Queue.ProviderLimiter.Retry.{
  Profile, Seen, Mode, Sleep, rate, backoff, waits, waited, Failure, Outcome, value, fails,
  retryable, Circuit, Ending, returned, thrown, Report, give_up, succeed, pause, after_pause,
  attempts, with_permit, open_until_of, or_default, remote,
}

Outcome-cases :
    {V : Type 0} (o : Outcome V) → ((v : V) × (o ≡ value v)) ⊎ ((e : Failure) × (o ≡ fails e))
Outcome-cases (value v) = inl (v, refl)
Outcome-cases (fails e) = inr (e, refl)

module _ {V : Type 0} (outcome : ℕ → Outcome V) where
  -- The ending agrees with the last outcome; an error is thrown on if it is not retryable or the
  -- `limit` of calls is used up; and a value closes the circuit.
  abbrev pub Matches : ℕ → Option Circuit → Ending V → Type 0
  Matches last c (returned v) = (outcome last ≡ value v) × (c ≡ none)
  Matches last c (thrown e) = outcome last ≡ fails e
  Matches last c _ = ⊥

  abbrev pub Exhausted : ℕ → ℕ → Ending V → Type 0
  Exhausted limit calls (thrown e) = (retryable e ≡ false) ⊎ (calls ≡ limit)
  Exhausted limit calls _ = Unit

  -- The sleeps between two attempts.
  abbrev is_backoff : Sleep → Bool
  is_backoff (rate d) = false
  is_backoff (backoff d) = true

  abbrev pub backoffs : List Sleep → ℕ
  backoffs ds = length (keep is_backoff ds)

  -- From call `first` on, `limit` calls at most.
  pub record IsTried (first limit : ℕ) (r : Report V) : Type 0 where
    pub last : ℕ
    pub counted : r.calls ≡ last + 1
    pub begun : first ≤ last
    pub bounded : r.calls ≤ limit
    pub paused : backoffs r.slept + first ≡ last
    pub before :
        (k : ℕ)
        → first ≤ k
        → k < last
        → (e : Failure) × (outcome k ≡ fails e) × (retryable e ≡ true)
    pub matches : Matches last r.circuit r.ending
    pub exhausted : Exhausted limit r.calls r.ending

  backoffs-rate : (ds : List ℕ) (xs : List Sleep) → backoffs (map rate ds ++ xs) ≡ backoffs xs
  backoffs-rate [] xs = refl
  backoffs-rate (d ∷ ds) xs = backoffs-rate ds xs

  module _ (p : Profile) (clock : ℕ → ℕ) (seen : ℕ → List Seen) where
    later-IsTried :
        (first limit d : ℕ) (e : Failure) (r : Report V)
        → outcome first ≡ fails e
        → retryable e ≡ true
        → IsTried (first + 1) limit r
        → IsTried first limit (after_pause d r)
    later-IsTried first limit d e r o again t = record {
      last = t.last;
      counted = t.counted;
      begun = omega (arith, t.begun);
      bounded = t.bounded;
      paused = omega (arith, t.paused);
      before = λ k h l. elim (Bool-cases (leb k first)) [
        | inl now ↦ let same : k ≡ first = ground arith in rw same (e, o, again)
        | inr later ↦ t.before k (ground arith) l
      ];
      matches = t.matches;
      exhausted = t.exhausted;
    }

    waited-IsTried :
        (first limit : ℕ) (c : Option Circuit) (w : Option (List ℕ)) (r : Report V)
        → (ds : List ℕ) × (w ≡ some ds)
        → IsTried first limit r
        → IsTried first limit (waited first c w r)
    waited-IsTried first limit c w r (ds, e) t = rw e (record {
      last = t.last;
      counted = t.counted;
      begun = t.begun;
      bounded = t.bounded;
      paused = rw (backoffs-rate ds r.slept) t.paused;
      before = t.before;
      matches = t.matches;
      exhausted = t.exhausted;
    })

    succeed-IsTried :
        (first limit : ℕ) (v : V)
        → outcome first ≡ value v
        → first < limit
        → IsTried first limit (succeed p outcome clock seen first v)
    unfolding succeed
    succeed-IsTried first limit v o h = record {
      last = first;
      counted = refl;
      begun = omega arith;
      bounded = omega arith;
      paused = omega arith;
      before = λ k h l. absurd (omega arith);
      matches = (o, refl);
      exhausted = tt;
    }

    give_up-IsTried :
        (first limit : ℕ) (e : Failure) (c : Option Circuit)
        → outcome first ≡ fails e
        → first < limit
        → (retryable e ≡ false) ⊎ (first + 1 ≡ limit)
        → IsTried first limit (give_up p outcome clock seen first e c)
    unfolding give_up
    give_up-IsTried first limit e c o h x = record {
      last = first;
      counted = refl;
      begun = omega arith;
      bounded = omega arith;
      paused = omega arith;
      before = λ k h l. absurd (omega arith);
      matches = o;
      exhausted = x;
    }

    -- What happens after the wait before an attempt, when no retry is left.
    final-IsTried :
        (first limit : ℕ) (c : Option Circuit)
        → limit ≡ first + 1
        → IsTried first limit (elim (outcome first) [
          | value v ↦ succeed p outcome clock seen first v
          | fails e ↦ give_up p outcome clock seen first e c
        ])
    final-IsTried first limit c q = elim (Outcome-cases (outcome first)) [
      | inl (v, o) ↦ rw o (succeed-IsTried first limit v o (omega arith))
      | inr (e, o) ↦ rw o (give_up-IsTried first limit e c o (omega arith) (inr (omega arith)))
    ]

    -- The same when retries are left.
    again-IsTried :
        (first limit : ℕ) (c : Option Circuit) (rest : Report V)
        → first < limit
        → IsTried (first + 1) limit rest
        → IsTried first limit (elim (outcome first) [
          | value v ↦ succeed p outcome clock seen first v
          | fails e ↦
              let again = after_pause (pause p outcome clock seen first e) rest in
              if retryable e then again else give_up p outcome clock seen first e c
        ])
    again-IsTried first limit c rest h t = elim (Outcome-cases (outcome first)) [
      | inl (v, o) ↦ rw o (succeed-IsTried first limit v o h)
      | inr (e, o) ↦ elim (Bool-cases (retryable e)) [
        | inl again ↦
            rw (o, again)
              (later-IsTried first limit (pause p outcome clock seen first e) e rest o again t)
        | inr final ↦ rw (o, final) (give_up-IsTried first limit e c o h (inl final))
      ]
    ]

    -- Before every attempt, the rate window lets the request in after these rounds.
    abbrev pub LetsIn : Mode → Type 0
    LetsIn m = (k : ℕ) → (ds : List ℕ) × (waits p seen m k ≡ some ds)

    attempts-IsTried :
        (m : Mode) (left first limit : ℕ) (c : Option Circuit)
        → LetsIn m
        → limit ≡ first + left + 1
        → IsTried first limit (attempts p outcome clock seen m left first c)
    unfolding attempts
    attempts-IsTried m zero first limit c a q =
        waited-IsTried first limit c (waits p seen m first) _ (a first)
          (final-IsTried first limit c (omega arith))
    attempts-IsTried m (suc left) first limit c a q =
        waited-IsTried first limit c (waits p seen m first) _ (a first) (
          again-IsTried first limit c (attempts p outcome clock seen m left (first + 1) c)
            (omega arith) (attempts-IsTried m left (first + 1) limit c a (omega arith)))

    -- A remote call whose circuit is not open, whose concurrency is positive and that the rate window
    -- lets in before every attempt makes one call of `fn` at least and the allowed retries more at most.
    -- Apart from the sleeps in the rate window it sleeps once between two of them, it retries retryable
    -- errors only, and it ends with the last outcome; a value closes the circuit, and an error is thrown
    -- on only if it is not retryable or the calls are used up.
    pub with_permit-IsTried :
        (now : ℕ) (c : Option Circuit)
        → p.mode ≡ remote
        → open_until_of c ≤ now
        → 0 < or_default p.max_concurrency 1
        → LetsIn remote
        → IsTried 0 (or_default p.max_retries 3 + 1) (with_permit p outcome clock seen now c)
    unfolding with_permit
    with_permit-IsTried now c m o k a =
        simp (m, closed, valid)
          (attempts-IsTried remote (or_default p.max_retries 3) 0 _ c a (omega arith))
      where
        closed : ltb now (open_until_of c) ≡ false
        closed = ground arith

        valid : ltb (or_default p.max_concurrency 1) 1 ≡ false
        valid = ground arith
