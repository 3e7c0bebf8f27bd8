-- ===== src/Queue/Triples.antt =====
-- Rules for the workers' programs against an automaton of allowed calls: from phase `p` the program
-- `m` makes calls that the automaton allows, and its result and last phase satisfy `Q`. A call that
-- rejects must be allowed as well, and leaves the phase.
pub mod Calls
use docsmint.Prelude.{
  ◌≡◌, refl, sym, ◌∙◌, ap, subst, All, ◌⊎◌, inl, inr, Bool, true, false, Option, none, some, List,
  [], ◌∷◌, ◌++◌, if◌then◌else◌, length,
}
use docsmint.Queue.Effects.{
  Answers, Log, Call, resolved, rejected, Result, done, raised, Failure, Program, IsThrown, ◌>>=◌,
  ◌>>◌, return, throw, act, await, noted, both, is_cancelled, is_current, catch, then_do, handle,
  act_all,
}

module _ {X P : Type 0} (next : P → X → Option P) where
  abbrev kept : P → Option P → Option P
  kept p none = none
  kept p (some q) = some p

  abbrev pub move : P → Call X → Option P
  move p (resolved a) = next p a
  move p (rejected a) = kept p (next p a)

  -- The phase after the calls `l`, or `none` if one of them is not allowed.
  abbrev pub after : Option P → List (Call X) → Option P
  after o [] = o
  after none (a ∷ l) = none
  after (some p) (a ∷ l) = after (move p a) l

  after-append :
      (o : Option P) (l : List (Call X)) (a : Call X) {p : P}
      → after o l ≡ some p
      → after o (l ++ a ∷ []) ≡ move p a
  after-append none [] a h = cc
  after-append (some q) [] a {p} h = let e : q ≡ p = cc in ap (λ x. move x a) e
  after-append none (b ∷ l) a h = cc
  after-append (some q) (b ∷ l) a h = after-append (move q b) l a h

  -- The log is in phase `q`, and `Q` holds of the result there.
  abbrev pub Reaches : {A : Type 0} → P → (Result A → P → Type 0) → Result A × Log X → Type 0
  Reaches init Q (r, l) = (q : P) × (after (some init) l.trace ≡ some q) × Q r q

-- How calls before the rest end: in a phase with `R`, or rejected in one with `S`.
abbrev pub Either :
    {P : Type 0} → Answers → (P → Type 0) → (P → Type 0) → Result (Unit {0}) → P → Type 0
Either env R S (done u) q = R q
Either env R S (raised x) q = IsThrown env x × S q

-- A call that ends as `r` leads to the next phase, or keeps the phase if it rejects.
noted-Reaches :
    {X P : Type 0} (next : P → X → Option P) (init p q : P) (Q : Result (Unit {0}) → P → Type 0)
    (a : X) (r : Result (Unit {0})) (l : Log X)
    → after next (some init) l.trace ≡ some p
    → next p a ≡ some q
    → Q (done tt) q
    → ((x : Failure) → r ≡ raised x → Q (raised x) p)
    → Reaches next init Q (noted a l r)
noted-Reaches next init p q Q a (done u) l e n h k =
    (q, after-append next (some init) l.trace (resolved a) e ∙ n, h)
noted-Reaches next init p q Q a (raised x) l e n h k =
    (p, after-append next (some init) l.trace (rejected a) e ∙ ap (kept next p) n, k x refl)

-- From a log in phase `p`, the program `m` makes allowed calls, and its result and phase satisfy `Q`.
pub record Triple {X P A : Type 0} (next : P → X → Option P) (env : Answers) (init p : P)
    (m : Program X A) (Q : Result A → P → Type 0) : Type 0 where
  pub runs : (l : Log X) → after next (some init) l.trace ≡ some p → Reaches next init Q (m env l)

module _ {X P : Type 0} {next : P → X → Option P} {env : Answers} {init p : P} where
  module _ {A : Type 0} {Q : Result A → P → Type 0} where
    pub return_rule : (a : A) → Q (done a) p → Triple next env init p (return a) Q
    unfolding return
    return_rule a h = record { runs = λ l e. (p, e, h) }

    pub throw_rule : (x : Failure) → Q (raised x) p → Triple next env init p (throw x) Q
    unfolding throw
    throw_rule x h = record { runs = λ l e. (p, e, h) }

    -- The rest of a program after an answer that changes no phase.
    answered :
        {B : Type 0} {f : B → Program X A} (r : Result B) (l : Log X)
        → after next (some init) l.trace ≡ some p
        → ((b : B) → r ≡ done b → Triple next env init p (f b) Q)
        → ((x : Failure) → r ≡ raised x → Q (raised x) p)
        → Reaches next init Q (then_do f env (r, l))
    unfolding then_do
    answered (done b) l e h k = (h b refl).runs l e
    answered (raised x) l e h k = (p, e, k x refl)

    pub await_rule :
        {B : Type 0} {f : B → Program X A} (r : Result B)
        → ((b : B) → r ≡ done b → Triple next env init p (f b) Q)
        → ((x : Failure) → r ≡ raised x → Q (raised x) p)
        → Triple next env init p (await r >>= f) Q
    unfolding ◌>>=◌ await
    await_rule r h k = record { runs = λ l e. answered r l e h k }

    module _ (bad : (x : Failure) → IsThrown env x → Q (raised x) p) where
      pub ask_rule :
          {f : Bool → Program X A}
          → ((b : Bool) → Triple next env init p (f b) Q)
          → Triple next env init p (is_cancelled >>= f) Q
      unfolding ◌>>=◌ is_cancelled
      ask_rule h = record {
        runs = λ l e.
            answered (env.cancelled l.asked_cancelled) _ e (λ b _. h b)
              (λ x r. bad x (inr (inl (l.asked_cancelled, r))));
      }

      pub live_rule :
          {f : Bool → Program X A}
          → ((b : Bool) → Triple next env init p (f b) Q)
          → Triple next env init p (is_current >>= f) Q
      unfolding ◌>>=◌ is_current
      live_rule h = record {
        runs = λ l e.
            answered (env.current l.asked_current) _ e (λ b _. h b)
              (λ x r. bad x (inr (inr (l.asked_current, r))));
      }

    pub if_rule :
        {m n : Program X A} (b : Bool)
        → Triple next env init p m Q
        → Triple next env init p n Q
        → Triple next env init p (if b then m else n) Q
    if_rule true h k = h
    if_rule false h k = k

    -- The same, where a branch needs the value of its test.
    pub test_rule :
        {m n : Program X A} (b : Bool)
        → (b ≡ true → Triple next env init p m Q)
        → (b ≡ false → Triple next env init p n Q)
        → Triple next env init p (if b then m else n) Q
    test_rule true h k = h refl
    test_rule false h k = k refl

  pub last_rule :
      {Q : Result (Unit {0}) → P → Type 0} (bad : (x : Failure) → IsThrown env x → Q (raised x) p)
      (a : X) {q : P}
      → next p a ≡ some q
      → Q (done tt) q
      → Triple next env init p (act a) Q
  unfolding act
  last_rule {Q} bad a {q} n h = record {
    runs = λ l e.
        noted-Reaches next init p q Q a (env.acted (length l.trace)) l e n h
          (λ x r. bad x (inl (length l.trace, r)));
  }

  module _ {A B : Type 0} (R : Result A → P → Type 0) {Q : Result B → P → Type 0} where
    pub bind_rule :
        {m : Program X A} {f : A → Program X B}
        → Triple next env init p m R
        → ((a : A) (q : P) → R (done a) q → Triple next env init q (f a) Q)
        → ((x : Failure) (q : P) → R (raised x) q → Q (raised x) q)
        → Triple next env init p (m >>= f) Q
    unfolding ◌>>=◌ then_do
    bind_rule {m} {f} h k x = record { runs = λ l e. go (m env l) (h.runs l e) }
      where
        go : (r : Result A × Log X) → Reaches next init R r → Reaches next init Q (then_do f env r)
        go (done a, l) (q, t, s) = (k a q s).runs l t
        go (raised y, l) (q, t, s) = (q, t, x y q s)

  pub seq_rule :
      {B : Type 0} (R S : P → Type 0) {Q : Result B → P → Type 0} {m : Program X (Unit {0})}
      {k : Program X B}
      → Triple next env init p m (Either env R S)
      → ((q : P) → R q → Triple next env init q k Q)
      → ((x : Failure) (q : P) → IsThrown env x → S q → Q (raised x) q)
      → Triple next env init p (m >> k) Q
  unfolding ◌>>◌
  seq_rule R S h k x = bind_rule (Either env R S) h (λ a q r. k q r) (λ y q r. x y q r.0 r.1)

  pub act_rule :
      {B : Type 0} {Q : Result B → P → Type 0}
      (bad : (x : Failure) → IsThrown env x → Q (raised x) p) (a : X) {k : Program X B} {q : P}
      → next p a ≡ some q
      → Triple next env init q k Q
      → Triple next env init p (act a >> k) Q
  act_rule {Q = Q} bad a {k} {q} n h =
      seq_rule (λ r. q ≡ r) (λ r. p ≡ r) (last_rule (λ x t. (t, refl)) a n refl)
        (λ r e. subst (λ y. Triple next env init y k Q) e h)
        (λ x r t e. subst (λ y. Q (raised x) y) e (bad x t))

  module _ {A : Type 0} (R : Result A → P → Type 0) {Q : Result A → P → Type 0} where
    pub catch_rule :
        {m : Program X A} {f : Failure → Program X A}
        → Triple next env init p m R
        → ((a : A) (q : P) → R (done a) q → Q (done a) q)
        → ((x : Failure) (q : P) → R (raised x) q → Triple next env init q (f x) Q)
        → Triple next env init p (catch m f) Q
    unfolding catch handle
    catch_rule {m} {f} h k x = record { runs = λ l e. go (m env l) (h.runs l e) }
      where
        go : (r : Result A × Log X) → Reaches next init R r → Reaches next init Q (handle f env r)
        go (done a, l) (q, t, s) = (q, t, k a q s)
        go (raised y, l) (q, t, s) = (x y q s).runs l t
