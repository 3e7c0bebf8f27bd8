-- ===== src/Queue/Embed/Laws.antt =====
-- What one run of the embedding worker can do, whatever its dependencies answer.
use Prim.Native.String.{String}
use docsmint.Prelude.{
  ℕ, ◌≡◌, ◌⊎◌, inl, inr, refl, sym, subst, Bool, true, false, not, Option, none, some, List, [],
  ◌∷◌, map, if◌then◌else◌, All, any, ltb,
}
use docsmint.Queue.Effects.{Result, Answers, start, other, act_all}
use docsmint.Queue.Triples.{
  Triple, after, return_rule, throw_rule, ask_rule, act_rule, if_rule, seq_rule, await_rule, Either,
}
use docsmint.Queue.Triples.Calls.{each_rule, first_rule}
use docsmint.Queue.Reuse.{Provider}
use docsmint.Queue.Embed.Traces.{
  Phase, fresh, asking, saved, queueing, closed, queued, completed, next, not_queued, only_reads,
  Means, Ends,
}
use docsmint.Queue.Embed.{
  EmbedJob, EmbedDocument, Completion, mark_stale, get_embedding, store_batch, complete_batch,
  claim_pending, enqueue_embed, activate_generation, enqueue_graph, StoreAnswer, EmbedStatus, E,
  EmbedOutcome, EmbedAnswers, results, is_stale_document, was_finished, to_embed, stop_stale,
  next_batch, activate, complete, after_store, store, check_profile, check_results, embed_selected,
  check_embed, check_loaded, process_embed_job, selected, context_differs,
}

may_embed :
    (is : List ℕ)
    → All (λ a. (next fresh a ≡ some asking) × (next asking a ≡ some asking)) (map get_embedding is)
may_embed [] = tt
may_embed (i ∷ is) = ((refl, refl), may_embed is)

may_enqueue : (bs : List ℕ) → All (λ a. next queueing a ≡ some queueing) (map enqueue_embed bs)
may_enqueue [] = tt
may_enqueue (b ∷ bs) = (refl, may_enqueue bs)

-- The phases in which a batch may be completed.
record Completes (p : Phase) : Type 0 where
  is_before : not_queued p ≡ true
  completes :
      (profile : Provider) (c : Completion)
      → next p (complete_batch profile c) ≡ some (completed c.all_batches_complete)

-- The statuses with which `complete` is called.
abbrev Succeeds : EmbedStatus → Type 0
Succeeds s = (s ≡ EmbedStatus.stored) ⊎ (s ≡ EmbedStatus.duplicate)

Succeeds-Means : (s : EmbedStatus) → Succeeds s → Means s true queued
Succeeds-Means EmbedStatus.stored h = refl
Succeeds-Means EmbedStatus.duplicate h = refl
Succeeds-Means EmbedStatus.stale (inl e) = absurd cc
Succeeds-Means EmbedStatus.stale (inr e) = absurd cc
Succeeds-Means EmbedStatus.cancelled (inl e) = absurd cc
Succeeds-Means EmbedStatus.cancelled (inr e) = absurd cc

-- The phase behind the calls for the embeddings of `indexes`.
abbrev asked_for : List ℕ → Phase
asked_for [] = fresh
asked_for (i ∷ is) = asking

asked_for-only_reads : (indexes : List ℕ) → only_reads (asked_for indexes) ≡ true
asked_for-only_reads [] = refl
asked_for-only_reads (i ∷ is) = refl

asked_for-not_queued : (indexes : List ℕ) → not_queued (asked_for indexes) ≡ true
asked_for-not_queued [] = refl
asked_for-not_queued (i ∷ is) = refl

module _ (env : Answers) (document : Result (Option EmbedDocument)) where
  abbrev Runs : Phase → E EmbedOutcome → Type 0
  Runs p m = Triple next env fresh p m (Ends env document)

  -- The embeddings are all asked for, whichever of them rejects.
  ask-asked_for :
      (indexes : List ℕ)
      → Triple next env fresh fresh
          (act_all (map get_embedding indexes))
          (Either env (λ q. asked_for indexes ≡ q) (λ q. Unit {0}))
  unfolding act_all
  ask-asked_for [] = record { runs = λ l e. (fresh, e, refl) }
  ask-asked_for (i ∷ is) = first_rule next env fresh fresh asking _ _ (may_embed (i ∷ is))

  stop_stale-Ends :
      (p : Phase) (code : String)
      → next p (mark_stale code) ≡ some closed
      → Runs p (stop_stale code)
  unfolding stop_stale
  stop_stale-Ends p code h = act_rule (λ x t. inr (inl t)) (mark_stale code) h (return_rule _ refl)

  module _ (answers : EmbedAnswers) (job : EmbedJob) (d : EmbedDocument) where
    next_batch-Ends : Runs (completed false) (next_batch answers job d)
    unfolding next_batch
    next_batch-Ends =
        act_rule (λ x t. inr (inl t)) (claim_pending 1) refl
          (ask_rule (λ x t. inr (inl t))
            λ b. if_rule b (return_rule _ refl) (
              seq_rule (λ q. queueing ≡ q) (λ q. queueing ≡ q)
                (each_rule _ (may_enqueue answers.claimed)) (λ q r. return_rule _ (sym r))
                (λ x q e r. inr (inl e))))

    activate-Ends :
        (s : EmbedStatus) (profile : Provider)
        → Succeeds s
        → Runs (completed true) (activate answers job d s profile)
    unfolding activate
    activate-Ends s profile h =
        ask_rule (λ x t. inr (inl t))
          λ b. if_rule b (return_rule _ refl) (
            act_rule (λ x t. inr (inl t)) (activate_generation _ _ _) refl
              (ask_rule (λ x t. inr (inl t))
                λ c. if_rule c (return_rule _ refl) (
                  act_rule (λ x t. inr (inl t)) enqueue_graph refl
                    (return_rule _ (Succeeds-Means s h)))))

    complete-Ends :
        (p : Phase) (s : EmbedStatus) (profile : Provider)
        → Completes p
        → Succeeds s
        → Runs p (complete answers job d s profile)
    unfolding complete
    complete-Ends p s profile before h =
        ask_rule (λ x t. inr (inl t))
          λ b. if_rule b (return_rule _ before.is_before) (
            act_rule (λ x t. inr (inl t)) (complete_batch profile answers.completion)
              (before.completes profile answers.completion)
              (completed-Ends answers.completion.all_batches_complete))
      where
        completed-Ends :
            (all : Bool)
            → Runs
                (completed all)
                (if all then activate answers job d s profile else next_batch answers job d)
        completed-Ends true = activate-Ends s profile h
        completed-Ends false = next_batch-Ends

    after_store-Ends :
        (a : StoreAnswer) (profile : Provider) → Runs saved (after_store answers job d a profile)
    unfolding after_store
    after_store-Ends StoreAnswer.stale profile = stop_stale-Ends saved "stale_batch" refl
    after_store-Ends StoreAnswer.stored profile =
        complete-Ends saved _ profile (record { is_before = refl; completes = λ p c. refl })
          (inl refl)
    after_store-Ends StoreAnswer.duplicate profile =
        complete-Ends saved _ profile (record { is_before = refl; completes = λ p c. refl })
          (inr refl)

    store-Ends :
        (indexes : List ℕ) (profile : Provider)
        → Runs (asked_for indexes) (store answers job d indexes profile)
    unfolding store
    store-Ends [] profile =
        complete-Ends fresh _ profile (record { is_before = refl; completes = λ p c. refl })
          (kind (was_finished job d))
      where
        kind : (b : Bool) → Succeeds (if b then EmbedStatus.duplicate else EmbedStatus.stored)
        kind true = inr refl
        kind false = inl refl
    store-Ends (i ∷ is) profile =
        act_rule (λ x t. inr (inl t)) (store_batch _ _) refl
          (after_store-Ends answers.store profile)

    check_profile-Ends :
        (indexes : List ℕ) (found : List Provider) (profile : Option Provider)
        → Runs (asked_for indexes) (check_profile answers job d indexes found profile)
    unfolding check_profile
    check_profile-Ends indexes found none =
        throw_rule other (inl (refl, asked_for-only_reads indexes))
    check_profile-Ends indexes found (some profile) =
        if_rule _ (throw_rule other (inl (refl, asked_for-only_reads indexes))) (
          ask_rule (λ x t. inr (inl t))
            λ b.
              if_rule b (return_rule _ (asked_for-not_queued indexes)) (store-Ends indexes profile))

    check_results-Ends :
        (indexes : List ℕ) (found : Option (List Provider))
        → Runs (asked_for indexes) (check_results answers job d indexes found)
    unfolding check_results
    check_results-Ends indexes none = throw_rule other (inl (refl, asked_for-only_reads indexes))
    check_results-Ends indexes (some found) = check_profile-Ends indexes found _

    embed_selected-Ends : Runs fresh (embed_selected answers job d)
    unfolding embed_selected
    embed_selected-Ends =
        let indexes : List ℕ = to_embed job d in
        let found : Option (List Provider) = results answers.embedding indexes in
        seq_rule (λ q. asked_for indexes ≡ q) (λ q. Unit {0}) (ask-asked_for indexes)
          (λ q r.
            subst (λ p. Runs p (check_results answers job d indexes found)) r
              (check_results-Ends indexes found))
          (λ x q e r. inr (inl e))

    check_embed-Ends : Runs fresh (check_embed answers job d)
    unfolding check_embed
    check_embed-Ends =
        if_rule (is_stale_document job d) (stop_stale-Ends fresh "stale_revision" refl) (
          if_rule (context_differs job.context_hash d.context_hash)
            (stop_stale-Ends fresh "stale_context" refl)
            (if_rule (any (λ i. not (ltb i d.chunk_count)) (selected job d))
              (stop_stale-Ends fresh "stale_chunks" refl) embed_selected-Ends))

  embed-Ends :
      (answers : EmbedAnswers) (job : EmbedJob)
      → Runs fresh (process_embed_job answers job document)
  unfolding process_embed_job check_loaded
  embed-Ends answers job =
      ask_rule (λ x t. inr (inl t))
        λ b.
          if_rule b (return_rule _ refl)
            (await_rule document (λ o e. checked o) (λ x e. inr (inr e)))
    where
      checked : (o : Option EmbedDocument) → Runs fresh (check_loaded answers job o)
      checked none = stop_stale-Ends fresh _ refl
      checked (some d) = check_embed-Ends answers job d

  -- Whatever its dependencies answer, and whichever of them reject, the calls of the embedding
  -- worker are a run of the automaton of allowed calls, and how it ends tells where they ended: it
  -- reports an activation exactly if the graph is queued. If it throws, then it has at most asked
  -- for embeddings and the error is its own, or the error is among those that its dependencies
  -- answer with.
  pub embed_refines :
      (answers : EmbedAnswers) (job : EmbedJob)
      → let (r, l) = process_embed_job answers job document env start in
        (q : Phase) × (after next (some fresh) l.trace ≡ some q) × Ends env document r q
  embed_refines answers job = (embed-Ends answers job).runs start refl
