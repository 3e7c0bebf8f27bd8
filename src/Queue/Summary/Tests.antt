-- ===== src/Queue/Summary/Tests.antt =====
-- Runs of the summary worker.
use docsmint.Prelude.{◌≡◌, refl, true, false, none, some, [], ◌∷◌, leb, ◌==◌, if◌then◌else◌}
use docsmint.Queue.Status.{Identity, StageStatus}
use docsmint.Queue.Effects.{
  set_status, enqueue_finalize, Answers, done, raised, resolved, rejected, other, programs, start,
}
use docsmint.Queue.Triples.{after}
use docsmint.Queue.Summary.{
  ready, process_summary_stage, check_run, summarize_stage, when_enabled, try_summary,
  continue_if_current, if_current, on_summary, on_finished, on_error, rethrow, after_try,
}
use docsmint.Queue.Summary.Traces.{Phase, fresh, next}
use docsmint.Queue.Summary.Laws.{Ends, summary_refines}

abbrev job : Identity
job = record { owner = 1; document = 2; generation = 3; revision = 4; context_hash = some 5 }

-- The job is cancelled from the third question on.
abbrev late : Answers
late = record { cancelled = λ n. done (leb 3 n); current = λ _. done true; acted = λ _. done tt }

late_trace :
    (process_summary_stage job (done (some job)) (done true) (done ready) late start).1.trace
    ≡ resolved (set_status StageStatus.processing none)
      ∷ resolved (set_status StageStatus.cancelled none)
      ∷ []
unfolding process_summary_stage check_run summarize_stage when_enabled try_summary
    continue_if_current if_current on_summary on_finished after_try programs
late_trace = refl

-- The second write rejects.
abbrev unwritten : Answers
unwritten = record {
  cancelled = λ n. done false;
  current = λ _. done true;
  acted = λ n. if n == 1 then raised other else done tt;
}

unwritten_trace :
    (process_summary_stage job (done (some job)) (done true) (done ready) unwritten start).1.trace
    ≡ resolved (set_status StageStatus.processing none)
      ∷ rejected (set_status StageStatus.ready none)
      ∷ resolved (set_status StageStatus.failed (some "summary_failed"))
      ∷ resolved enqueue_finalize
      ∷ []
unfolding process_summary_stage check_run summarize_stage when_enabled try_summary
    continue_if_current if_current on_summary on_finished on_error rethrow after_try programs
unwritten_trace = refl

summary_refines_example :
    let (r, l) =
      process_summary_stage job (done (some job)) (done true) (done ready) unwritten start in
    (q : Phase) × (after next (some fresh) l.trace ≡ some q)
    × Ends unwritten (done (some job)) (done true) (done ready) r q
summary_refines_example = summary_refines unwritten (done (some job)) (done true) (done ready) job
