-- ===== src/Queue/Prepare/Laws.antt =====
-- What one run of the prepare worker can do, whatever its dependencies answer.
use docsmint.Prelude.{
  ℕ, zero, suc, ◌≡◌, ◌⊎◌, inl, inr, refl, subst, Bool, Option, none, some, List, [], ◌∷◌, map,
  length, arith, All,
}
use docsmint.Queue.Effects.{Result, done, raised, Answers, Failure, IsThrown, other, start}
use docsmint.Queue.Triples.{
  Triple, after, return_rule, throw_rule, ask_rule, act_rule, if_rule, test_rule, seq_rule,
  await_rule,
}
use docsmint.Queue.Triples.Calls.{each_rule}
use docsmint.Queue.Reuse.{RefreshMode, batches}
use docsmint.Queue.Prepare.{
  PrepareCall, mark_stale, prepare_run, complete_empty, enqueue_graph, claim_pending, enqueue_embed,
  RunAnswer, PrepareStatus, PrepareOutcome, P, Loaded, finish_empty, start_batches, after_run,
  prepared_run, prepare_document, no_batches, stale_revision, check_document, process_prepare_job,
}

-- `fresh`: nothing called; `planned n`: the run is prepared, with `n` batches; `emptied`: the empty
-- generation is complete; `queueing n`: some of the `n` batches were claimed; `staled`: the job was
-- marked stale; `queued`: the graph was queued. Nothing may follow the last two.
pub data Phase : Type 0 where
  fresh emptied staled queued : Phase
  planned queueing : ℕ → Phase

-- The calls that a prepare worker may make, as an automaton.
abbrev pub next : Phase → PrepareCall → Option Phase
next fresh (mark_stale c) = some staled
next fresh (prepare_run r) = some (planned (length r.batches))
next (planned n) (mark_stale c) = some staled
next (planned zero) complete_empty = some emptied
next (planned (suc n)) (claim_pending limit) = some (queueing (suc n))
next emptied enqueue_graph = some queued
next (queueing n) (enqueue_embed b) = some (queueing n)
next _ _ = none

-- What the status, with its number of batches, says of the calls that were made.
abbrev pub Means : PrepareStatus → ℕ → Phase → Type 0
Means PrepareStatus.prepared n queued = n ≡ 0
Means PrepareStatus.prepared n (queueing m) = n ≡ m
Means PrepareStatus.duplicate n (planned m) = n ≡ m
Means PrepareStatus.stale n staled = Unit {0}
Means PrepareStatus.cancelled n fresh = n ≡ 0
Means PrepareStatus.cancelled n (planned m) = (n ≡ 0) × (m ≡ 0)
Means PrepareStatus.cancelled n emptied = n ≡ 0
Means PrepareStatus.cancelled n (queueing m) = n ≡ m
Means _ n _ = ⊥

-- An error is the size of the batches, found before any call, or that of a dependency.
abbrev pub Ends :
    {V : Type 0} → Answers → ℕ → Result (Option (Loaded V)) → Result PrepareOutcome → Phase → Type 0
Ends env size document (done o) q = Means o.status o.batches q
Ends env size document (raised e) q =
    ((e ≡ other) × (size ≡ 0) × (q ≡ fresh)) ⊎ (IsThrown env e ⊎ (document ≡ raised e))

may_enqueue :
    (n : ℕ) (bs : List ℕ)
    → All (λ a. next (queueing n) a ≡ some (queueing n)) (map enqueue_embed bs)
may_enqueue n [] = tt
may_enqueue n (b ∷ bs) = (refl, may_enqueue n bs)

module _ {V : Type 0} (env : Answers) (size : ℕ) (document : Result (Option (Loaded V))) where
  abbrev Runs : Phase → P PrepareOutcome → Type 0
  Runs p m = Triple next env fresh p m (Ends env size document)

  bad : (p : Phase) (x : Failure) → IsThrown env x → Ends env size document (raised x) p
  bad p x t = inr (inl t)

  finish_empty-Ends : Runs (planned 0) finish_empty
  unfolding finish_empty
  finish_empty-Ends = ask_rule (bad _) λ b. if_rule b (return_rule _ (refl, refl)) (
      act_rule (bad _) complete_empty refl (
        ask_rule (bad _) λ c.
          if_rule c (return_rule _ refl)
            (act_rule (bad _) enqueue_graph refl (return_rule _ refl))))

  old-Ends : Runs fresh stale_revision
  unfolding stale_revision
  old-Ends = act_rule (bad _) (mark_stale "stale_revision") refl (return_rule _ tt)

  module _ (claimed : List ℕ) (max_active : ℕ) where
    start_batches-Ends : (n : ℕ) → Runs (planned (suc n)) (start_batches claimed max_active (suc n))
    unfolding start_batches
    start_batches-Ends n = act_rule (bad _) (claim_pending max_active) refl (
        ask_rule (bad _) λ b. if_rule b (return_rule _ refl) (
          seq_rule (λ q. queueing (suc n) ≡ q) (λ q. queueing (suc n) ≡ q)
            (each_rule _ (may_enqueue (suc n) claimed))
            (λ q r. return_rule _ (subst (Means PrepareStatus.prepared (suc n)) r refl))
            (λ x q t r. bad q x t)))

    after_run-Ends : (a : RunAnswer) (n : ℕ) → Runs (planned n) (after_run claimed max_active a n)
    unfolding after_run
    after_run-Ends RunAnswer.stale n =
        act_rule (bad _) (mark_stale "stale_prepare") refl (return_rule _ tt)
    after_run-Ends RunAnswer.duplicate n = return_rule _ refl
    after_run-Ends RunAnswer.prepared zero = finish_empty-Ends
    after_run-Ends RunAnswer.prepared (suc n) = start_batches-Ends n

    module _ (is_finite is_zero : V → Bool) (mode : RefreshMode) (answer : RunAnswer) where
      prepare_document-Ends :
          (d : Loaded V)
          → Runs fresh (prepare_document claimed max_active is_finite is_zero mode size answer d)
      unfolding prepare_document prepared_run
      prepare_document-Ends d = ask_rule (bad _) λ b. if_rule b (return_rule _ refl) (
          act_rule (bad _) (prepare_run _) refl
            (after_run-Ends answer (length (batches (length d.chunks) size))))

      prepare-Ends :
          (revision : ℕ)
          → Runs fresh (
              process_prepare_job claimed max_active is_finite is_zero revision mode size answer
                document)
      unfolding process_prepare_job check_document
      prepare-Ends revision = ask_rule (bad _) λ b.
          if_rule b (return_rule _ refl)
            (await_rule document (λ o e. checked o) (λ x e. inr (inr e)))
        where
          checked :
              (o : Option (Loaded V))
              → Runs fresh
                  (check_document claimed max_active is_finite is_zero revision mode size answer o)
          checked none = old-Ends
          checked (some d) = if_rule _ old-Ends (
              test_rule (no_batches size d) (λ e. throw_rule other (inl (refl, ground arith, refl)))
                (λ _. prepare_document-Ends d))

      -- Whatever its dependencies answer, and whichever of them reject, the calls of the prepare
      -- worker are a run of the automaton of allowed calls, and the status and number of batches
      -- that it returns tell where they ended. If it throws, then nothing was called and the size
      -- of the batches is 0, or the error is among those that its dependencies answer with.
      pub prepare_refines :
          (revision : ℕ)
          → let (r, l) =
              process_prepare_job claimed max_active is_finite is_zero revision mode size answer
                document env start in
            (q : Phase) × (after next (some fresh) l.trace ≡ some q) × Ends env size document r q
      prepare_refines revision = (prepare-Ends revision).runs start refl
