-- ===== src/Queue/Graph.antt =====
-- backend/src/queue/workers/graph.worker.ts and `processGraphStageFailure` of stage-policies.ts: one
-- run of the graph worker against any answers of its dependencies, each of which may reject.
pub mod Traces
pub mod Laws
mod Tests
use Prim.Native.String.{String}
use text.Mathlib.Text.{◌==◌}
use docsmint.Prelude.{Bool, true, false, not, ◌||◌, Option, none, some, if◌then◌else◌}
use docsmint.Queue.Status.{
  StageStatus, Identity, RunState, is_ready, is_skipped, other_owner, other_revision, other_context,
}
use docsmint.Queue.Effects.{
  Action, set_status, cancel_stale, enqueue_summarize, enqueue_finalize, compensate, Result, await,
  Failure, provider, stale, other, M, ◌>>=◌, ◌>>◌, return, throw, act, is_cancelled, catch,
  pipeline_error_code, is_retryable,
}

-- `GraphStageOutcome`
pub data Outcome : Type 0 where
  ready : Outcome
  unavailable failed stale_graph : String → Outcome

-- The call that `continuePipeline` makes; `final` says that the dependency `enqueueFinalize` is given.
abbrev pub onward : Bool → StageStatus → Action
onward final summarize =
    if is_ready summarize || is_skipped summarize
    then (if final then enqueue_finalize else enqueue_summarize)
    else enqueue_summarize

-- `continuePipeline`
continue_pipeline : Bool → StageStatus → M (Unit {0})
continue_pipeline final summarize = do
  stopped ← is_cancelled
  if stopped then return tt else act (onward final summarize)

-- `processGraphStageFailure`
process_graph_stage_failure : Failure → M (Unit {0})
process_graph_stage_failure stale = do
  act (set_status StageStatus.cancelled (some "stale_revision"))
  act (cancel_stale none)
process_graph_stage_failure e = do
  stopped ← is_cancelled
  if stopped then throw e else (do
    act (set_status StageStatus.failed (some (pipeline_error_code e "graph_failed")))
    stopped_now ← is_cancelled
    if stopped_now then throw e else (do act enqueue_summarize; throw e))

is_provider_warning : String → Bool
is_provider_warning w =
    w == "provider_failure" || w == "provider_timeout" || w == "invalid_provider_response"

module _ (final : Bool) (summarize : StageStatus) where
  on_outcome : Outcome → M (Unit {0})
  on_outcome ready = do act (set_status StageStatus.ready none); continue_pipeline final summarize
  on_outcome (stale_graph warning) = do
    act (set_status StageStatus.cancelled (some warning))
    act (cancel_stale (some "stale_revision"))
  on_outcome (unavailable warning) = do
    act (set_status StageStatus.failed (some warning))
    continue_pipeline final summarize
  on_outcome (failed warning) =
      if is_provider_warning warning then throw (provider warning true) else (do
        act (set_status StageStatus.failed (some warning))
        continue_pipeline final summarize)

  -- The `try` block.
  extract : Result Outcome → M (Unit {0})
  extract outcome = do
    stopped ← is_cancelled
    if stopped then return tt else (do
      found ← await outcome
      stopped_now ← is_cancelled
      if stopped_now then act compensate else on_outcome found)

  -- The `catch` block.
  on_error : Failure → M (Unit {0})
  on_error (provider code retryable) = do
    act (set_status StageStatus.failed (some code))
    continue_pipeline final summarize
    if retryable then throw (provider code true) else return tt
  on_error stale = process_graph_stage_failure stale
  on_error other = process_graph_stage_failure other

  -- The part behind the checks of the run.
  graph_stage : StageStatus → Result Outcome → M (Unit {0})
  graph_stage embed outcome =
      if not (is_ready embed)
      then (do
        stopped ← is_cancelled
        if stopped then return tt else (do
          act (set_status StageStatus.skipped (some "embedding_not_ready"))
          continue_pipeline final summarize))
      else (do
        stopped ← is_cancelled
        if stopped then return tt else (do
          act (set_status StageStatus.processing none)
          catch (extract outcome) on_error))

check_run : Bool → Identity → Result Outcome → Option RunState → M (Unit {0})
check_run final job outcome none = throw other
check_run final job outcome (some run) =
    if other_owner run.identity job
    then throw other
    else if other_revision run.identity job
    then (do
      act (set_status StageStatus.cancelled (some "stale_revision"))
      act (cancel_stale (some "stale_revision")))
    else if other_context run.identity job
    then (do
      act (set_status StageStatus.cancelled (some "stale_context"))
      act (cancel_stale (some "stale_context")))
    else graph_stage final run.summarize run.embed outcome

-- `processGraphJob`, with what `getRun` and `extract` answer.
pub process_graph_job : Bool → Identity → Result (Option RunState) → Result Outcome → M (Unit {0})
process_graph_job final job run outcome = do
  stopped ← is_cancelled
  if stopped then return tt else (do found ← await run; check_run final job outcome found)
