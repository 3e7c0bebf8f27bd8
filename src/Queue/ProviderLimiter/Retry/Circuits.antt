-- ===== src/Queue/ProviderLimiter/Retry/Circuits.antt =====
-- The circuit over several calls: it opens at the threshold and then refuses calls.
use docsmint.Prelude.{
  ℕ, zero, suc, ◌+◌, ◌≤◌, ◌<◌, ◌≡◌, refl, subst, true, false, Option, some, List, [], ◌∷◌, arith,
  length, ltb, leb,
}
use docsmint.Queue.ProviderLimiter.Retry.{
  Profile, Seen, Failure, Outcome, fails, retryable, Circuit, circuit_open, Report, give_up,
  attempts, record_failure, max_retries, with_permit, open_until_of, failures_of, or_default,
  remote,
}
use docsmint.Queue.ProviderLimiter.Retry.Laws.{LetsIn}

module _ (p : Profile) where
  -- Every answer of the provider is a retryable error.
  abbrev pub Down : {V : Type 0} → (ℕ → Outcome V) → Type 0
  Down outcome = (k : ℕ) → (e : Failure) × (outcome k ≡ fails e) × (retryable e ≡ true)

  module _ {V : Type 0} (outcome : ℕ → Outcome V) (clock : ℕ → ℕ) (seen : ℕ → List Seen) where
    give_up_circuit :
        (first : ℕ) (e : Failure) (c : Option Circuit)
        → retryable e ≡ true
        → (give_up p outcome clock seen first e c).circuit
          ≡ some (record_failure p (clock (first + 0)) c)
    unfolding give_up
    give_up_circuit first e c again =
        let same : first + 0 ≡ first = omega arith in simp (again, same) refl

    -- A provider that is down: one more failure is recorded, after the last retry.
    attempts-Down :
        (left first : ℕ) (c : Option Circuit)
        → Down outcome
        → LetsIn outcome p clock seen remote
        → (attempts p outcome clock seen remote left first c).circuit
          ≡ some (record_failure p (clock (first + left)) c)
    unfolding attempts
    attempts-Down zero first c d a =
        let (e, o, again) = d first in
        let (ds, w) = a first in rw (w, o, attempts) (give_up_circuit first e c again)
    attempts-Down (suc left) first c d a =
        let (e, o, again) = d first in
        let (ds, w) = a first in
        let same : first + suc left ≡ first + 1 + left = omega arith in
        rw (w, o, attempts) (rw again (rw same (attempts-Down left (first + 1) c d a)))

  abbrev threshold : ℕ
  threshold = or_default p.failure_threshold 5

  abbrev cooldown : ℕ
  cooldown = or_default p.cooldown 30000

  -- One call of `withPermit`: the time it is made, the provider's answers and the times they come, and
  -- what the rounds of the rate window find.
  pub record Call : Type 0 where
    pub now : ℕ
    pub outcome : ℕ → Outcome ℕ
    pub clock : ℕ → ℕ
    pub seen : ℕ → List Seen

  abbrev pub perform : Call → Option Circuit → Report ℕ
  perform k c = with_permit p k.outcome k.clock k.seen k.now c

  -- The circuit after calls made one after the other.
  unfoldable pub after : List Call → Option Circuit → Option Circuit
  after [] c = c
  after (k ∷ ks) c = after ks (perform k c).circuit

  -- When the last attempt of the last call ends.
  abbrev pub last_end : Call → List Call → ℕ
  last_end k [] = k.clock (max_retries p remote)
  last_end k (m ∷ ks) = last_end m ks

  -- The provider is down in every call, and the rate window lets every attempt in.
  abbrev pub AllDown : List Call → Type 0
  AllDown [] = Unit
  AllDown (k ∷ ks) = Down k.outcome × LetsIn k.outcome p k.clock k.seen remote × AllDown ks

  module _ (m : p.mode ≡ remote) (valid : 0 < or_default p.max_concurrency 1) where
    perform-Down :
        (k : Call) (c : Option Circuit)
        → Down k.outcome
        → LetsIn k.outcome p k.clock k.seen remote
        → open_until_of c ≤ k.now
        → (perform k c).circuit ≡ some (record_failure p (k.clock (max_retries p remote)) c)
    unfolding with_permit
    perform-Down k c d a o =
        let closed : ltb k.now (open_until_of c) ≡ false = ground arith in
        let good : ltb (or_default p.max_concurrency 1) 1 ≡ false = ground arith in
        let same : 0 + max_retries p remote ≡ max_retries p remote = omega arith in
        simp (m, closed, good)
          (subst
            (λ n.
              (attempts p k.outcome k.clock k.seen remote (max_retries p remote) 0 c).circuit
              ≡ some (record_failure p (k.clock n) c))
            same (attempts-Down k.outcome k.clock k.seen (max_retries p remote) 0 c d a))

    after_down :
        (k : Call) (ks : List Call) (c : Option Circuit)
        → AllDown (k ∷ ks)
        → open_until_of c ≡ 0
        → failures_of c + length (k ∷ ks) ≡ threshold
        → open_until_of (after (k ∷ ks) c) ≡ last_end k ks + cooldown
    unfolding after record_failure
    after_down k [] c (d, a, _) o n =
        let reached : leb threshold (failures_of c + 1) ≡ true = ground arith in
        rw (perform-Down k c d a (omega (arith, o))) (rw reached refl)
    after_down k (l ∷ ks) c (d, a, ds) o n =
        let below : leb threshold (failures_of c + 1) ≡ false = ground arith in
        rw (perform-Down k c d a (omega (arith, o)))
          (after_down l ks _ ds (rw below o) (omega (arith, n)))

    -- For a remote profile with a positive concurrency: from a closed circuit, calls that the rate
    -- window lets in, that all end in retryable errors and that bring the number of failures up to the
    -- threshold open the circuit. Until the cooldown after the last attempt has passed, every further
    -- call is refused without a call of the provider.
    pub circuit_refuses :
        (k : Call) (ks : List Call) (c : Option Circuit) (next : Call)
        → AllDown (k ∷ ks)
        → open_until_of c ≡ 0
        → failures_of c + length (k ∷ ks) ≡ threshold
        → next.now < last_end k ks + cooldown
        → ((perform next (after (k ∷ ks) c)).ending ≡ circuit_open)
          × ((perform next (after (k ∷ ks) c)).calls ≡ 0)
    unfolding with_permit
    circuit_refuses k ks c next d o n l =
        let opened = after_down k ks c d o n in
        let refused : ltb next.now (open_until_of (after (k ∷ ks) c)) ≡ true = ground arith in
        simp (m, refused) (refl, refl)
