-- ===== src/Queue/Recovery/Once.antt =====
-- A stalled stage of a run is settled once, and enqueued only if it was claimed.
use docsmint.Prelude.{
  ℕ, ◌+◌, ◌≤◌, ◌≡◌, inl, inr, refl, ap, sym, ◌∙◌, Bool, true, false, ◌&&◌, Option, none, some, List,
  [], ◌∷◌, ◌++◌, ◌==◌, leb, length, keep, keep-append, length-append, Bool-cases, Option-cases,
  arith, and-eq-true, ==_iff,
}
use docsmint.Queue.Recovery.{
  Candidate, stage_number, Call, mark_exhausted, claim_retry, add, same_key, Entry, look, settled,
  added, settling, calls_for, remember, recover,
}

-- The call settles the key of `k`.
abbrev pub settles : Candidate → Call → Bool
settles k (mark_exhausted c) = same_key c k
settles k (claim_retry c b) = same_key c k
settles k (add c) = false

abbrev pub times_settled : Candidate → List Call → ℕ
times_settled k calls = length (keep (settles k) calls)

abbrev missing : Option Bool → ℕ
missing none = 1
missing (some b) = 0

same_key-look : (c k : Candidate) (es : List Entry) → same_key c k ≡ true → look c es ≡ look k es
same_key-look c k [] h = refl
same_key-look c k (e ∷ es) h =
    let rest = same_key-look c k es h in
    let (r, s) = and-eq-true (c.run == k.run) _ h in
    let run = (==_iff c.run k.run).0 r in
    let stage = (==_iff (stage_number c.stage) (stage_number k.stage)).0 s in
    let alike : same_key e.first c ≡ same_key e.first k =
      ap (λ n. e.first.run == n && stage_number e.first.stage == stage_number c.stage) run
      ∙ ap (λ n. e.first.run == k.run && stage_number e.first.stage == n) stage in
    simp alike (simp rest refl)

module _ (max_attempts : ℕ) (claim : Candidate → Bool) where
  settling-settles : (k c : Candidate) → settles k (settling max_attempts claim c) ≡ same_key c k
  settling-settles k c = elim (Bool-cases (leb max_attempts c.attempts)) [
    | inl over ↦ simp over refl
    | inr under ↦ simp under refl
  ]

  added-settles : (k c : Candidate) (b : Bool) → times_settled k (added b c) ≡ 0
  added-settles k c true = refl
  added-settles k c false = refl

  times-append :
      (k : Candidate) (xs ys : List Call)
      → times_settled k (xs ++ ys) ≡ times_settled k xs + times_settled k ys
  times-append k xs ys =
      ap length (keep-append (settles k) xs ys)
      ∙ length-append (keep (settles k) xs) (keep (settles k) ys)

  -- Each key is settled at most once, and not at all if it stands in the map already.
  recover-settles :
      (k : Candidate) (es : List Entry) (cs : List Candidate)
      → times_settled k (recover max_attempts claim es cs) ≤ missing (look k es)
  unfolding recover calls_for remember
  recover-settles k es [] = omega arith
  recover-settles k es (c ∷ cs) = elim (Option-cases (look c es)) [
    | inl new ↦
        let entry : Entry = record { first = c; claimed = settled max_attempts claim c } in
        let later = recover-settles k (entry ∷ es) cs in
        let now = settling-settles k c in
        let nothing = added-settles k c (settled max_attempts claim c) in
        let rest =
          times-append k (added (settled max_attempts claim c) c)
            (recover max_attempts claim (entry ∷ es) cs) in
        elim (Bool-cases (same_key c k)) [
          | inl mine ↦
              let absent : look k es ≡ none = sym (same_key-look c k es mine) ∙ new in
              let none_later : times_settled k (recover max_attempts claim (entry ∷ es) cs) ≤ 0 =
                simp mine at later in
              rw new (simp (absent, now, mine) (omega (arith, rest, nothing, none_later)))
          | inr other ↦
              let bounded : times_settled k (recover max_attempts claim (entry ∷ es) cs)
                  ≤ missing (look k es) =
                simp other at later in
              rw new (simp (now, other) (omega (arith, rest, nothing, bounded)))
        ]
    | inr (b, old) ↦
        let later = recover-settles k es cs in
        let nothing = added-settles k c b in
        let rest = times-append k (added b c) (recover max_attempts claim es cs) in
        rw old (omega (arith, rest, nothing, later))
  ]

  -- In one scan for stalled stages, each stage of a run is claimed or marked exhausted at most once,
  -- however often the scan lists it.
  pub recover-once :
      (k : Candidate) (cs : List Candidate) → times_settled k (recover max_attempts claim [] cs) ≤ 1
  recover-once k cs = recover-settles k [] cs
