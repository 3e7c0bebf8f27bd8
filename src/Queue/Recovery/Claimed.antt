-- ===== src/Queue/Recovery/Claimed.antt =====
-- What is enqueued was claimed, and what is claimed is enqueued.
use docsmint.Prelude.{
  ℕ, ◌≤◌, ◌<◌, ◌≡◌, inl, inr, refl, ap, Bool, true, false, some, List, [], ◌∷◌, leb, Bool-cases,
  Option-cases, arith, All, any, ==_refl, leb→le,
}
use docsmint.Queue.Recovery.{
  Candidate, stage_number, Call, mark_exhausted, claim_retry, add, same_key, Entry, look, calls_for,
  remember, recover,
}

same_key_refl : (c : Candidate) → same_key c c ≡ true
same_key_refl c = ground (arith, ==_refl c.run, ==_refl (stage_number c.stage))

module _ (max_attempts : ℕ) where
  -- The automaton of allowed calls; `won` are the candidates whose claim succeeded so far.
  abbrev pub IsAllowed : List Candidate → List Call → Type 0
  IsAllowed won [] = Unit
  IsAllowed won (add c ∷ calls) = (any (λ w. same_key w c) won ≡ true) × IsAllowed won calls
  IsAllowed won (mark_exhausted c ∷ calls) = (max_attempts ≤ c.attempts) × IsAllowed won calls
  IsAllowed won (claim_retry c true ∷ calls) =
      (c.attempts < max_attempts) × IsAllowed (c ∷ won) calls
  IsAllowed won (claim_retry c false ∷ calls) = (c.attempts < max_attempts) × IsAllowed won calls

  -- What the map calls claimed was claimed.
  IsTrue : List Candidate → List Entry → Type 0
  IsTrue won es = (c : Candidate) → look c es ≡ some true → any (λ w. same_key w c) won ≡ true

  IsTrue-lost :
      (won : List Candidate) (es : List Entry) (c : Candidate)
      → IsTrue won es
      → IsTrue won (record { first = c; claimed = false } ∷ es)
  unfolding IsTrue
  IsTrue-lost won es c t k h = elim (Bool-cases (same_key c k)) [
    | inl mine ↦ absurd (ground (arith, simp mine at h))
    | inr other ↦ t k (simp other at h)
  ]

  IsTrue-won :
      (won : List Candidate) (es : List Entry) (c : Candidate)
      → IsTrue won es
      → IsTrue (c ∷ won) (record { first = c; claimed = true } ∷ es)
  unfolding IsTrue
  IsTrue-won won es c t k h = elim (Bool-cases (same_key c k)) [
    | inl mine ↦ simp mine refl
    | inr other ↦ simp other (t k (simp other at h))
  ]

  module _ (claim : Candidate → Bool) where
    recover_from-IsAllowed :
        (won : List Candidate) (es : List Entry) (cs : List Candidate)
        → IsTrue won es
        → IsAllowed won (recover max_attempts claim es cs)
    unfolding recover calls_for remember
    recover_from-IsAllowed won es [] t = tt
    recover_from-IsAllowed won es (c ∷ cs) t = elim (Option-cases (look c es)) [
      | inl new ↦ elim (Bool-cases (leb max_attempts c.attempts)) [
        | inl over ↦ rw new (
            simp over (
              leb→le max_attempts c.attempts over,
              recover_from-IsAllowed won _ cs (IsTrue-lost won es c t),
            ))
        | inr under ↦
            let room : c.attempts < max_attempts = ground arith in
            elim (Bool-cases (claim c)) [
              | inl yielded ↦ rw new (
                  simp (under, yielded)
                    (
                      room,
                      (
                        simp (same_key_refl c) refl,
                        recover_from-IsAllowed (c ∷ won) _ cs (IsTrue-won won es c t),
                      ),
                    ))
              | inr refused ↦ rw new (
                  simp (under, refused)
                    (room, recover_from-IsAllowed won _ cs (IsTrue-lost won es c t)))
            ]
      ]
      | inr (b, old) ↦ elim (Bool-cases b) [
        | inl held ↦
            let mine : look c es ≡ some true = rw (← held) old in
            rw mine (unfold IsTrue in t c mine, recover_from-IsAllowed won es cs t)
        | inr lost ↦
            let mine : look c es ≡ some false = rw (← lost) old in
            rw mine (recover_from-IsAllowed won es cs t)
      ]
    ]

    -- A stage is enqueued only after the claim of its key succeeded; a claim is made only below the
    -- limit of attempts, and a stage marked exhausted only from it on.
    pub recover-IsAllowed : (cs : List Candidate) → IsAllowed [] (recover max_attempts claim [] cs)
    recover-IsAllowed cs =
        recover_from-IsAllowed [] [] cs (unfold IsTrue in λ c h. absurd (ground arith))

    abbrev pub enqueued : List Call → List Candidate
    enqueued [] = []
    enqueued (add c ∷ calls) = c ∷ enqueued calls
    enqueued (_ ∷ calls) = enqueued calls

    -- Every entry is one of a claim that succeeded.
    AllWon : List Entry → Type 0
    AllWon es = All (λ e. e.claimed ≡ true) es

    look-AllWon :
        (c : Candidate) (b : Bool) (es : List Entry) → AllWon es → look c es ≡ some b → b ≡ true
    unfolding AllWon
    look-AllWon c b [] a h = absurd (ground arith)
    look-AllWon c b (e ∷ es) (won, a) h = elim (Bool-cases (same_key e.first c)) [
      | inl mine ↦ let found : some e.claimed ≡ some b = simp mine at h in ground arith
      | inr other ↦ look-AllWon c b es a (simp other at h)
    ]

    recover-enqueued :
        (es : List Entry) (cs : List Candidate)
        → AllWon es
        → All (λ c. (c.attempts < max_attempts) × (claim c ≡ true)) cs
        → enqueued (recover max_attempts claim es cs) ≡ cs
    unfolding recover calls_for remember AllWon
    recover-enqueued es [] a h = refl
    recover-enqueued es (c ∷ cs) a ((room, yielded), h) = elim (Option-cases (look c es)) [
      | inl new ↦
          let under : leb max_attempts c.attempts ≡ false = ground arith in
          rw new (simp (under, yielded) (ap (λ l. c ∷ l) (recover-enqueued _ cs (refl, a) h)))
      | inr (b, old) ↦
          let mine : look c es ≡ some true = rw (← look-AllWon c b es a old) old in
          rw mine (ap (λ l. c ∷ l) (recover-enqueued es cs a h))
    ]

    -- If no candidate has used up its attempts and the store grants every claim, all candidates are
    -- enqueued, in the order in which they were found.
    pub recover_everything :
        (cs : List Candidate)
        → All (λ c. (c.attempts < max_attempts) × (claim c ≡ true)) cs
        → enqueued (recover max_attempts claim [] cs) ≡ cs
    recover_everything cs h = recover-enqueued [] cs (unfold AllWon in tt) h
