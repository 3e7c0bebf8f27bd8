-- ===== src/Queue/Graph/Tests.antt =====
-- Runs of the graph worker.
use docsmint.Prelude.{◌≡◌, refl, true, none, some, [], ◌∷◌, ◌==◌, if◌then◌else◌}
use docsmint.Queue.Status.{Identity, RunState, StageStatus}
use docsmint.Queue.Effects.{
  set_status, compensate, enqueue_summarize, Answers, done, raised, resolved, rejected, other,
  programs, start,
}
use docsmint.Queue.Triples.{after}
use docsmint.Queue.Graph.{
  ready, process_graph_job, graph_stage, check_run, extract, on_error, process_graph_stage_failure,
}
use docsmint.Queue.Graph.Traces.{Phase, fresh, next}
use docsmint.Queue.Graph.Laws.{Ends, graph_refines}

abbrev job : Identity
job = record { owner = 1; document = 2; generation = 3; revision = 4; context_hash = none }

abbrev embedded : RunState
embedded = record {
  identity = job;
  status = StageStatus.processing;
  embed = StageStatus.ready;
  graph = StageStatus.pending;
  summarize = StageStatus.pending;
}

-- The job is cancelled while `extract` runs, and the compensation rejects.
abbrev late : Answers
late = record {
  cancelled = λ n. done (n == 3);
  current = λ _. done true;
  acted = λ n. if n == 1 then raised other else done tt;
}

-- The error of the compensation is thrown on, after the failure was written.
late_trace :
    let (r, l) = process_graph_job true job (done (some embedded)) (done ready) late start in
    (r ≡ raised other)
    × (l.trace
        ≡ resolved (set_status StageStatus.processing none)
          ∷ rejected compensate
          ∷ resolved (set_status StageStatus.failed (some "graph_failed"))
          ∷ resolved enqueue_summarize
          ∷ [])
unfolding process_graph_job graph_stage check_run extract on_error process_graph_stage_failure
    programs
late_trace = (refl, refl)

graph_refines_example :
    let (r, l) = process_graph_job true job (done (some embedded)) (done ready) late start in
    (q : Phase) × (after next (some fresh) l.trace ≡ some q)
    × Ends late (done (some embedded)) (done ready) r q
graph_refines_example = graph_refines late (done (some embedded)) (done ready) true job
