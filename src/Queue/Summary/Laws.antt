-- ===== src/Queue/Summary/Laws.antt =====
-- What one run of the summary worker can do, whatever its dependencies answer.
use mathlib.Core.Path.{subst}
use docsmint.Prelude.{
  if◌then◌else◌, ◌≡◌, refl, Bool, true, false, Option, none, some, ◌⊎◌, inl, inr,
}
use docsmint.Queue.Status.{Identity, StageStatus, other_owner, other_revision, other_context}
use docsmint.Queue.Effects.{
  set_status, cancel_stale, enqueue_finalize, Answers, Result, done, raised, Failure, IsThrown,
  other, start, M, catch, ◌>>=◌, ◌>>◌, act, return, is_retryable,
}
use docsmint.Queue.Triples.{
  Triple, after, return_rule, throw_rule, ask_rule, live_rule, act_rule, if_rule, test_rule,
  last_rule, bind_rule, catch_rule, await_rule,
}
use docsmint.Queue.Summary.{
  Summary, ready, skipped, cancelled, continue_if_current, if_current, Flow, returned, fell_through,
  on_cancelled, on_finished, on_summary, rethrow, on_error, after_try, try_summary, when_enabled,
  summarize_stage, check_run, process_summary_stage,
}
use docsmint.Queue.Summary.Traces.{Phase, fresh, busy, settled, revoked, closed, next}

-- An error that a question about the job, a write or a queue rejected with, or that `getRun` or
-- `enabled` threw.
abbrev pub IsRejected : Answers → Result (Option Identity) → Result Bool → Failure → Type 0
IsRejected env run enabled e = IsThrown env e ⊎ (run ≡ raised e) ⊎ (enabled ≡ raised e)

-- How the worker ends: by a check of the run before any call, by the retryable error of `summarize`
-- after the final stage was queued, or by the error of another dependency.
abbrev pub Ends :
    Answers
    → Result (Option Identity)
    → Result Bool
    → Result Summary
    → Result (Unit {0})
    → Phase
    → Type 0
Ends env run enabled s (done u) q = Unit
Ends env run enabled s (raised e) q =
    ((e ≡ other) × (q ≡ fresh))
    ⊎ ((s ≡ raised e) × (is_retryable e ≡ true) × (q ≡ closed))
    ⊎ IsRejected env run enabled e

module _ (env : Answers) where
  abbrev Runs : {A : Type 0} → Phase → M A → (Result A → Phase → Type 0) → Type 0
  Runs p m Q = Triple next env fresh p m Q

  -- A dependency may reject in phase `p`.
  abbrev Bad : {A : Type 0} → Phase → (Result A → Phase → Type 0) → Type 0
  Bad p Q = (x : Failure) → IsThrown env x → Q (raised x) p

  abbrev Passed : Phase → Result Bool → Phase → Type 0
  Passed p (done true) q = p ≡ q
  Passed p (done false) q = (p ≡ q) ⊎ (closed ≡ q)
  Passed p (raised e) q = IsThrown env e × (p ≡ q)

  continue-Passed :
      (p : Phase) → next p (cancel_stale none) ≡ some closed → Runs p continue_if_current (Passed p)
  unfolding continue_if_current
  continue-Passed p n =
      ask_rule (λ x t. (t, refl))
        λ b. if_rule b (return_rule false (inl refl)) (
          live_rule (λ x t. (t, refl))
            λ c.
              if_rule c (return_rule true refl)
                (act_rule (λ x t. (t, refl)) (cancel_stale none) n (return_rule false (inr refl))))

  module _ {A : Type 0} {p : Phase} {Q : Result A → Phase → Type 0} where
    if_current_rule :
        (stop : A) (rest : M A)
        → Bad p Q
        → next p (cancel_stale none) ≡ some closed
        → Q (done stop) p
        → Q (done stop) closed
        → Runs p rest Q
        → Runs p (if_current stop rest) Q
    unfolding if_current
    if_current_rule stop rest bad n here gone h =
        bind_rule (Passed p) (continue-Passed p n) split
          (λ x q r. subst (λ y. Q (raised x) y) r.1 (bad x r.0))
      where
        split :
            (b : Bool) (q : Phase)
            → Passed p (done b) q
            → Runs q (if b then rest else return stop) Q
        split true q e = subst (λ x. Runs x rest Q) e h
        split false q (inl e) = return_rule stop (subst (λ x. Q (done stop) x) e here)
        split false q (inr e) = return_rule stop (subst (λ x. Q (done stop) x) e gone)

  module _ (run : Result (Option Identity)) (enabled : Result Bool) (s : Result Summary) where
    -- The error of the `try` block, or of `summarize`.
    abbrev IsCause : Failure → Type 0
    IsCause e = (s ≡ raised e) ⊎ IsThrown env e

    -- How the `try` block ends: with a result that was written, or by a `return`.
    abbrev Tried : Result Flow → Phase → Type 0
    Tried (done returned) q = Unit
    Tried (done fell_through) q = settled ≡ q
    Tried (raised e) q = IsCause e × ((busy ≡ q) ⊎ (revoked ≡ q))

    abbrev Caught : Result Flow → Phase → Type 0
    Caught (done returned) q = Unit
    Caught (done fell_through) q = settled ≡ q
    Caught (raised e) q = ((s ≡ raised e) × (is_retryable e ≡ true) × (q ≡ closed)) ⊎ IsThrown env e

    busy-Tried : Bad busy Tried
    busy-Tried x t = (inr t, inl refl)

    revoked-Tried : Bad revoked Tried
    revoked-Tried x t = (inr t, inr refl)

    on_finished-Tried :
        (status : StageStatus)
        → next busy (set_status status none) ≡ some settled
        → Runs busy (on_finished status) Tried
    unfolding on_finished
    on_finished-Tried status n = ask_rule busy-Tried λ b.
        if_rule b
          (act_rule busy-Tried (set_status StageStatus.cancelled none) refl
            (return_rule returned tt))
          (live_rule busy-Tried λ c.
            if_rule c
              (act_rule busy-Tried (set_status status none) n (return_rule fell_through refl))
              (ask_rule busy-Tried λ d. if_rule d (return_rule returned tt) (
                act_rule busy-Tried _ refl
                  (act_rule revoked-Tried _ refl (return_rule returned tt)))))

    on_summary-Tried : (found : Summary) → Runs busy (on_summary found) Tried
    unfolding on_summary on_cancelled
    on_summary-Tried ready = on_finished-Tried StageStatus.ready refl
    on_summary-Tried skipped = on_finished-Tried StageStatus.skipped refl
    on_summary-Tried cancelled = ask_rule busy-Tried λ b.
        if_rule b (act_rule busy-Tried _ refl (return_rule returned tt))
          (act_rule busy-Tried _ refl (act_rule revoked-Tried _ refl (return_rule returned tt)))

    try-Tried : Runs busy (try_summary s) Tried
    unfolding try_summary
    try-Tried =
        if_current_rule returned _ busy-Tried refl tt tt
          (await_rule s (λ found e. on_summary-Tried found) (λ x e. (inl e, inl refl)))

    rejected-Caught : (p : Phase) → Bad p Caught
    rejected-Caught p x t = inr t

    rethrow-Caught : (e : Failure) → IsCause e → Runs closed (rethrow e) Caught
    unfolding rethrow
    rethrow-Caught e h =
        test_rule (is_retryable e) (λ again. throw_rule e (thrown h again))
          (λ _. return_rule returned tt)
      where
        thrown : IsCause e → is_retryable e ≡ true → Caught (raised e) closed
        thrown (inl own) again = inl (own, again, refl)
        thrown (inr x) again = inr x

    on_error-Caught :
        (e : Failure) (p : Phase)
        → IsCause e
        → next p (cancel_stale none) ≡ some closed
        → ((c : _) → next p (set_status StageStatus.failed (some c)) ≡ some settled)
        → Runs p (on_error e) Caught
    unfolding on_error
    on_error-Caught e p h n m = if_current_rule returned _ (rejected-Caught p) n tt tt (
        act_rule (rejected-Caught p) _ (m _) (
          if_current_rule returned _ (rejected-Caught settled) refl tt tt
            (act_rule (rejected-Caught settled) enqueue_finalize refl (rethrow-Caught e h))))

    rejected-Ends : (p : Phase) → Bad p (Ends env run enabled s)
    rejected-Ends p x t = inr (inr (inl t))

    try-Ends : Runs busy (catch (try_summary s) on_error >>= after_try) (Ends env run enabled s)
    unfolding after_try
    try-Ends =
        bind_rule Caught tried finish
          (λ x q r. elim r [ inl own ↦ inr (inl own) | inr t ↦ inr (inr (inl t)) ])
      where
        caught : (x : Failure) (q : Phase) → Tried (raised x) q → Runs q (on_error x) Caught
        caught x q (h, inl at) =
            subst (λ y. Runs y (on_error x) Caught) at (on_error-Caught x busy h refl (λ c. refl))
        caught x q (h, inr at) =
            subst (λ y. Runs y (on_error x) Caught) at
              (on_error-Caught x revoked h refl (λ c. refl))

        tried : Runs busy (catch (try_summary s) on_error) Caught
        tried =
            catch_rule Tried try-Tried (elim [ returned ↦ λ q r. r | fell_through ↦ λ q r. r ])
              caught

        finish :
            (f : Flow) (q : Phase)
            → Caught (done f) q
            → Runs q (after_try f) (Ends env run enabled s)
        finish returned q r = return_rule tt tt
        finish fell_through q r =
            subst (λ y. Runs y (after_try fell_through) (Ends env run enabled s)) r
              (if_current_rule tt _ (rejected-Ends settled) refl tt tt
                (last_rule (rejected-Ends settled) enqueue_finalize refl tt))

    stage-Ends : (on : Bool) → Runs fresh (when_enabled s on) (Ends env run enabled s)
    unfolding when_enabled
    stage-Ends false = if_current_rule tt _ (rejected-Ends fresh) refl tt tt (
        act_rule (rejected-Ends fresh) _ refl (
          if_current_rule tt _ (rejected-Ends settled) refl tt tt
            (last_rule (rejected-Ends settled) enqueue_finalize refl tt)))
    stage-Ends true =
        if_current_rule tt _ (rejected-Ends fresh) refl tt tt
          (act_rule (rejected-Ends fresh) _ refl try-Ends)

    -- A run that is not the job's: "cancelled" is written.
    stop-Ends :
        (code : _)
        → Runs fresh
            (act (set_status StageStatus.cancelled (some code)) >> act (cancel_stale (some code)))
            (Ends env run enabled s)
    stop-Ends code =
        act_rule (rejected-Ends fresh) _ refl (last_rule (rejected-Ends revoked) _ refl tt)

    summary-Ends :
        (job : Identity)
        → Runs fresh (process_summary_stage job run enabled s) (Ends env run enabled s)
    unfolding process_summary_stage check_run summarize_stage
    summary-Ends job =
        if_current_rule tt _ (rejected-Ends fresh) refl tt tt
          (await_rule run (λ found e. checked found) (λ x e. inr (inr (inr (inl e)))))
      where
        checked :
            (r : Option Identity) → Runs fresh (check_run job enabled s r) (Ends env run enabled s)
        checked none = throw_rule other (inl (refl, refl))
        checked (some r) = if_rule (other_owner r job) (throw_rule other (inl (refl, refl))) (
            if_rule (other_revision r job) (stop-Ends "stale_revision") (
              if_rule (other_context r job) (stop-Ends "stale_context")
                (await_rule enabled (λ on e. stage-Ends on) (λ x e. inr (inr (inr (inr e)))))))

    -- Whatever its dependencies answer, and whichever of them reject, the calls of a summary worker
    -- are a run of the automaton of allowed calls. If it throws, then nothing was called and the
    -- error is no provider's, or summarize threw this error, it is retryable, and nothing may
    -- follow in the automaton, or the error is among those that its other dependencies answer with.
    pub summary_refines :
        (job : Identity)
        → let (r, l) = process_summary_stage job run enabled s env start in
          (q : Phase) × (after next (some fresh) l.trace ≡ some q) × Ends env run enabled s r q
    summary_refines job = (summary-Ends job).runs start refl
