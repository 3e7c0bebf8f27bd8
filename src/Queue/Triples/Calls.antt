-- ===== src/Queue/Triples/Calls.antt =====
-- Rules for calls that a worker makes together with `Promise.all`.
use docsmint.Prelude.{◌≡◌, refl, sym, ◌∙◌, ap, subst, All, Option, some, List, [], ◌∷◌}
use docsmint.Queue.Effects.{Answers, Log, Result, done, raised, act, act_all, both}
use docsmint.Queue.Triples.{Triple, Reaches, Either, after, last_rule}

abbrev pub Stays : {P : Type 0} → Answers → P → Result (Unit {0}) → P → Type 0
Stays env p r q = Either env (λ x. p ≡ x) (λ x. p ≡ x) r q

module _ {X P : Type 0} {next : P → X → Option P} {env : Answers} {init p : P} where
  -- Calls that the phase allows, and that keep it: each of them may reject.
  pub each_rule :
      (calls : List X)
      → All (λ a. next p a ≡ some p) calls
      → Triple next env init p (act_all calls) (Stays env p)
  unfolding act_all
  each_rule calls h = record { runs = each calls h }
    where
      same : (r : Result (Unit {0})) (q : P) → Stays env p r q → q ≡ p
      same (done u) q h = sym h
      same (raised x) q h = sym h.1

      one : (a : X) → next p a ≡ some p → Triple next env init p (act a) (Stays env p)
      one a h = last_rule {Q = Stays env p} (λ x t. (t, refl)) a h refl

      joined :
          (r s : Result (Unit {0})) (q : P)
          → Stays env p r p
          → Stays env p s q
          → Stays env p (both r s) q
      joined (done u) s q a b = b
      joined (raised x) (done u) q a b = (a.0, b)
      joined (raised x) (raised y) q a b = (a.0, b.1)

      each :
          (calls : List X)
          → All (λ a. next p a ≡ some p) calls
          → (l : Log X) → after next (some init) l.trace ≡ some p
          → Reaches next init (Stays env p) (act_all calls env l)
      each [] h l e = (p, e, refl)
      each (a ∷ rest) (h, hs) l e =
          let (q, t, s) = (one a h).runs l e in
          let (u, v, w) = each rest hs (act a env l).1 (t ∙ ap some (same _ q s)) in
          (u, v, joined _ _ u (subst (λ y. Stays env p (act a env l).0 y) (same _ q s) s) w)

module _ {X P : Type 0} (next : P → X → Option P) (env : Answers) (init p q : P) where
  abbrev Leads : List X → Type 0
  Leads calls = All (λ a. (next p a ≡ some q) × (next q a ≡ some q)) calls

  keeps : (calls : List X) → Leads calls → All (λ a. next q a ≡ some q) calls
  keeps [] h = tt
  keeps (a ∷ rest) (h, hs) = (h.1, keeps rest hs)

  one_rule :
      (a : X)
      → next p a ≡ some q
      → Triple next env init p (act a) (Either env (λ r. q ≡ r) (λ r. p ≡ r))
  one_rule a h = last_rule {Q = Either env (λ r. q ≡ r) (λ r. p ≡ r)} (λ x t. (t, refl)) a h refl

  -- After a call, whether it resolved or not, the others are allowed.
  others-Reaches :
      (rest : List X) (m : Result (Unit {0}) × Log X)
      → Leads rest
      → Reaches next init (Either env (λ r. q ≡ r) (λ r. p ≡ r)) m
      → Reaches next init (λ r u. Unit {0}) (act_all rest env m.1)
  unfolding act_all
  others-Reaches rest (done u, l) h (r, t, e) =
      let (s, v, w) = (each_rule {p = q} rest (keeps rest h)).runs l (t ∙ ap some (sym e)) in
      (s, v, tt)
  others-Reaches [] (raised x, l) h (r, t, (y, e)) = (r, t, tt)
  others-Reaches (a ∷ rest) (raised x, l) (h, hs) (r, t, (y, e)) =
      others-Reaches rest (act a env l) hs ((one_rule a h.0).runs l (t ∙ ap some (sym e)))

  -- Calls the first of which leads to a phase that the others keep; all are made, and one may reject.
  pub first_rule :
      (a : X) (rest : List X)
      → Leads (a ∷ rest)
      → Triple next env init p (act_all (a ∷ rest)) (Either env (λ r. q ≡ r) (λ r. Unit {0}))
  unfolding act_all
  first_rule a rest (h, hs) = record {
    runs = λ l e. joined (act a env l) ((one_rule a h.0).runs l e);
  }
    where
      loosen :
          (s : Result (Unit {0})) (r : P)
          → Stays env q s r
          → Either env (λ u. q ≡ u) (λ u. Unit {0}) s r
      loosen (done u) r k = k
      loosen (raised x) r k = (k.0, tt)

      joined :
          (m : Result (Unit {0}) × Log X)
          → Reaches next init (Either env (λ r. q ≡ r) (λ r. p ≡ r)) m
          → let (s, all) = act_all rest env m.1 in
            Reaches next init (Either env (λ r. q ≡ r) (λ r. Unit {0})) (both m.0 s, all)
      joined (done u, l) (r, t, e) =
          let (s, v, w) = (each_rule {p = q} rest (keeps rest hs)).runs l (t ∙ ap some (sym e)) in
          (s, v, loosen _ s w)
      joined (raised x, l) (r, t, (y, e)) =
          let (s, v, w) = others-Reaches rest (raised x, l) hs (r, t, (y, e)) in (s, v, (y, tt))
