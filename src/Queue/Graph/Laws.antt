-- ===== src/Queue/Graph/Laws.antt =====
-- What one run of the graph worker can do, whatever its dependencies answer.
use Prim.Native.String.{String}
use mathlib.Core.Path.{subst}
use docsmint.Prelude.{◌≡◌, refl, Bool, true, false, Option, none, some, arith, ◌⊎◌, inl, inr}
use docsmint.Queue.Status.{
  Identity, RunState, StageStatus, other_owner, other_revision, other_context,
}
use docsmint.Queue.Effects.{
  set_status, cancel_stale, enqueue_summarize, compensate, Answers, Result, done, raised, Failure,
  IsThrown, provider, stale, other, start, M, ◌>>◌, act, is_retryable,
}
use docsmint.Queue.Triples.{
  Triple, after, return_rule, throw_rule, ask_rule, act_rule, if_rule, test_rule, last_rule,
  seq_rule, catch_rule, await_rule,
}
use docsmint.Queue.Graph.{
  Outcome, ready, unavailable, failed, stale_graph, continue_pipeline, process_graph_stage_failure,
  onward, on_outcome, extract, on_error, graph_stage, check_run, process_graph_job,
}
use docsmint.Queue.Graph.Traces.{Phase, fresh, busy, settled, revoked, closed, next}

-- The error is that of `extract`, or one made from its warning.
abbrev pub IsCause : Result Outcome → Failure → Type 0
IsCause o e = (o ≡ raised e) ⊎ ((w : String) × (o ≡ done (failed w)) × (e ≡ provider w true))

-- How the worker ends: by a check of the run before any call, by the error of `extract`, which is not
-- a stale revision and is thrown on only if it is retryable or no provider's, or by the error that
-- another dependency rejected with.
abbrev pub Ends :
    Answers → Result (Option RunState) → Result Outcome → Result (Unit {0}) → Phase → Type 0
Ends env run o (done u) q = Unit
Ends env run o (raised e) q =
    ((e ≡ other) × (q ≡ fresh))
    ⊎ (IsCause o e × ((e ≡ other) ⊎ (is_retryable e ≡ true)))
    ⊎ (IsThrown env e ⊎ (run ≡ raised e))

next-onward :
    (final : Bool) (summarize : StageStatus) → next settled (onward final summarize) ≡ some closed
next-onward true summarize = ground arith
next-onward false summarize = ground arith

module _ (env : Answers) where
  abbrev Runs : {A : Type 0} → Phase → M A → (Result A → Phase → Type 0) → Type 0
  Runs p m Q = Triple next env fresh p m Q

  -- A dependency may reject in phase `p`.
  abbrev Bad : Phase → (Result (Unit {0}) → Phase → Type 0) → Type 0
  Bad p Q = (x : Failure) → IsThrown env x → Q (raised x) p

  -- The phases in which the `try` block may end.
  abbrev Fails : Phase → Type 0
  Fails q =
      (next q (set_status StageStatus.cancelled (some "stale_revision")) ≡ some revoked)
      × ((c : String) → next q (set_status StageStatus.failed (some c)) ≡ some settled)

  module _ (run : Result (Option RunState)) (o : Result Outcome) where
    abbrev Tried : Result (Unit {0}) → Phase → Type 0
    Tried (done u) q = Unit
    Tried (raised e) q = (IsCause o e ⊎ IsThrown env e) × Fails q

    rejected-Ends : (p : Phase) → Bad p (Ends env run o)
    rejected-Ends p x t = inr (inr (inl t))

    busy-Tried : Bad busy Tried
    busy-Tried x t = (inr t, (refl, λ c. refl))

    settled-Tried : Bad settled Tried
    settled-Tried x t = (inr t, (refl, λ c. refl))

    revoked-Tried : Bad revoked Tried
    revoked-Tried x t = (inr t, (refl, λ c. refl))

    module _ (final : Bool) (summarize : StageStatus) where
      continue_rule :
          {Q : Result (Unit {0}) → Phase → Type 0}
          → Bad settled Q
          → Q (done tt) settled
          → Q (done tt) closed
          → Runs settled (continue_pipeline final summarize) Q
      unfolding continue_pipeline
      continue_rule bad here gone = ask_rule bad λ b.
          if_rule b (return_rule tt here)
            (last_rule bad (onward final summarize) (next-onward final summarize) gone)

      on_outcome-Tried :
          (found : Outcome) → o ≡ done found → Runs busy (on_outcome final summarize found) Tried
      unfolding on_outcome
      on_outcome-Tried ready e = act_rule busy-Tried _ refl (continue_rule settled-Tried tt tt)
      on_outcome-Tried (unavailable w) e =
          act_rule busy-Tried _ refl (continue_rule settled-Tried tt tt)
      on_outcome-Tried (stale_graph w) e =
          act_rule busy-Tried _ refl (last_rule revoked-Tried _ refl tt)
      on_outcome-Tried (failed w) e =
          if_rule _ (throw_rule (provider w true) (inl (inr (w, e, refl)), (refl, λ c. refl)))
            (act_rule busy-Tried _ refl (continue_rule settled-Tried tt tt))

      extract-Tried : Runs busy (extract final summarize o) Tried
      unfolding extract
      extract-Tried = ask_rule busy-Tried λ b. if_rule b (return_rule tt tt) (
          await_rule o
            (λ found e.
              ask_rule busy-Tried
                λ c. if_rule c (last_rule busy-Tried compensate refl tt) (on_outcome-Tried found e))
            (λ x e. (inl (inl e), (refl, λ c. refl))))

      -- The error with which the `catch` block ends, if that is the one it was given.
      rethrown :
          (e : Failure) (q : Phase)
          → IsCause o e ⊎ IsThrown env e
          → (e ≡ other) ⊎ (is_retryable e ≡ true)
          → Ends env run o (raised e) q
      rethrown e q (inl c) h = inr (inl (c, h))
      rethrown e q (inr t) h = inr (inr (inl t))

      on_error-Ends :
          (e : Failure) (p : Phase)
          → IsCause o e ⊎ IsThrown env e
          → Fails p
          → Runs p (on_error final summarize e) (Ends env run o)
      unfolding on_error process_graph_stage_failure
      on_error-Ends (provider code retryable) p c (cancel, fail) =
          act_rule (rejected-Ends p) _ (fail code) (
            seq_rule (λ q. Unit {0}) (λ q. Unit {0}) (continue_rule (λ x t. (t, tt)) tt tt)
              (λ q r.
                test_rule retryable
                  (λ again.
                    throw_rule (provider code true)
                      (rethrown (provider code true) q (cause again) (inr refl)))
                  (λ _. return_rule tt tt))
              (λ x q t r. rejected-Ends q x t))
        where
          cause :
              retryable ≡ true → IsCause o (provider code true) ⊎ IsThrown env (provider code true)
          cause again =
              subst (λ b. IsCause o (provider code b) ⊎ IsThrown env (provider code b)) again c
      on_error-Ends stale p c (cancel, fail) =
          act_rule (rejected-Ends p) _ cancel (last_rule (rejected-Ends revoked) _ refl tt)
      on_error-Ends other p c (cancel, fail) = ask_rule (rejected-Ends p) λ b.
          if_rule b (throw_rule other (rethrown other p c (inl refl))) (
            act_rule (rejected-Ends p) _ (fail _) (
              ask_rule (rejected-Ends settled) λ d.
                if_rule d (throw_rule other (rethrown other settled c (inl refl))) (
                  act_rule (rejected-Ends settled) enqueue_summarize refl
                    (throw_rule other (rethrown other closed c (inl refl))))))

      stage-Ends :
          (embed : StageStatus) → Runs fresh (graph_stage final summarize embed o) (Ends env run o)
      unfolding graph_stage
      stage-Ends embed =
          if_rule _
            (ask_rule (rejected-Ends fresh) λ b.
              if_rule b (return_rule tt tt) (
                act_rule (rejected-Ends fresh) _ refl
                  (continue_rule (rejected-Ends settled) tt tt)))
            (ask_rule (rejected-Ends fresh) λ b. if_rule b (return_rule tt tt) (
              act_rule (rejected-Ends fresh) _ refl (
                catch_rule Tried extract-Tried (λ u q r. tt) (λ x q r. on_error-Ends x q r.0 r.1))))

    -- A run that is not the job's: "cancelled" is written.
    stop-Ends :
        (code : String)
        → Runs fresh
            (act (set_status StageStatus.cancelled (some code)) >> act (cancel_stale (some code)))
            (Ends env run o)
    stop-Ends code =
        act_rule (rejected-Ends fresh) _ refl (last_rule (rejected-Ends revoked) _ refl tt)

    graph-Ends :
        (final : Bool) (job : Identity)
        → Runs fresh (process_graph_job final job run o) (Ends env run o)
    unfolding process_graph_job check_run
    graph-Ends final job = ask_rule (rejected-Ends fresh) λ b.
        if_rule b (return_rule tt tt)
          (await_rule run (λ found e. checked found) (λ x e. inr (inr (inr e))))
      where
        checked : (r : Option RunState) → Runs fresh (check_run final job o r) (Ends env run o)
        checked none = throw_rule other (inl (refl, refl))
        checked (some r) =
            if_rule (other_owner r.identity job) (throw_rule other (inl (refl, refl))) (
              if_rule (other_revision r.identity job) (stop-Ends "stale_revision") (
                if_rule (other_context r.identity job) (stop-Ends "stale_context")
                  (stage-Ends final r.summarize r.embed)))

    -- Whatever its dependencies answer, and whichever of them reject, the calls of a graph worker
    -- are a run of the automaton of allowed calls. If it throws, then nothing was called and the
    -- error is no provider's, or it is the error that extract threw or that its warning stands for,
    -- never a stale revision and a provider's only if it is retryable, or the error is among those
    -- that its other dependencies answer with.
    pub graph_refines :
        (final : Bool) (job : Identity)
        → let (r, l) = process_graph_job final job run o env start in
          (q : Phase) × (after next (some fresh) l.trace ≡ some q) × Ends env run o r q
    graph_refines final job = (graph-Ends final job).runs start refl
