-- ===== src/Queue/Summary.antt =====
-- backend/src/queue/stage-policies.ts, `processSummaryStage`: one run of the summary worker against
-- any answers of its dependencies, each of which may reject.
pub mod Traces
pub mod Laws
mod Tests
use docsmint.Prelude.{Bool, true, false, Option, none, some, if◌then◌else◌}
use docsmint.Queue.Status.{StageStatus, Identity, other_owner, other_revision, other_context}
use docsmint.Queue.Effects.{
  Action, set_status, cancel_stale, enqueue_finalize, Result, await, Failure, provider, stale,
  other, M, ◌>>=◌, ◌>>◌, return, throw, act, is_cancelled, is_current, catch, pipeline_error_code,
  is_retryable,
}

-- What `summarize(job)` resolves to.
pub data Summary : Type 0 where
  ready skipped cancelled : Summary

-- `continueIfCurrent`
unfoldable pub continue_if_current : M Bool
continue_if_current = do
  stopped ← is_cancelled
  if stopped then return false else (do
    live ← is_current
    if live then return true else (do act (cancel_stale none); return false))

-- `if (!(await continueIfCurrent())) return;` before the rest of the worker.
unfoldable pub if_current : {A : Type 0} → A → M A → M A
if_current stop rest = do go ← continue_if_current; if go then rest else return stop

-- How the `try` statement is left: by a `return`, or at its end.
pub data Flow : Type 0 where
  returned fell_through : Flow

-- After `summarize` resolved to "cancelled".
on_cancelled : M Flow
on_cancelled = do
  stopped ← is_cancelled
  if stopped then (do act (set_status StageStatus.cancelled none); return returned) else (do
    act (set_status StageStatus.cancelled (some "stale_revision"))
    act (cancel_stale none)
    return returned)

-- After `summarize` resolved to "ready" or "skipped".
on_finished : StageStatus → M Flow
on_finished status = do
  stopped ← is_cancelled
  if stopped then (do act (set_status StageStatus.cancelled none); return returned) else (do
    live ← is_current
    if live then (do act (set_status status none); return fell_through) else (do
      stopped_now ← is_cancelled
      if stopped_now then return returned else (do
        act (set_status StageStatus.cancelled (some "stale_revision"))
        act (cancel_stale none)
        return returned)))

on_summary : Summary → M Flow
on_summary ready = on_finished StageStatus.ready
on_summary skipped = on_finished StageStatus.skipped
on_summary cancelled = on_cancelled

-- The `catch` block.
rethrow : Failure → M Flow
rethrow e = if is_retryable e then throw e else return returned

on_error : Failure → M Flow
on_error e = if_current returned (do
  act (set_status StageStatus.failed (some (pipeline_error_code e "summary_failed")))
  if_current returned (do act enqueue_finalize; rethrow e))

after_try : Flow → M (Unit {0})
after_try returned = return tt
after_try fell_through = if_current tt (act enqueue_finalize)

-- The `try` block.
try_summary : Result Summary → M Flow
try_summary summary = if_current returned (do found ← await summary; on_summary found)

-- The part behind the checks of the run, with the answers of `enabled()` and of `summarize`.
when_enabled : Result Summary → Bool → M (Unit {0})
when_enabled summary false =
    if_current tt
      (do act (set_status StageStatus.skipped none); if_current tt (act enqueue_finalize))
when_enabled summary true = if_current tt (do
  act (set_status StageStatus.processing none)
  flow ← catch (try_summary summary) on_error
  after_try flow)

summarize_stage : Result Bool → Result Summary → M (Unit {0})
summarize_stage enabled summary = do on ← await enabled; when_enabled summary on

check_run : Identity → Result Bool → Result Summary → Option Identity → M (Unit {0})
check_run job enabled summary none = throw other
check_run job enabled summary (some run) =
    if other_owner run job
    then throw other
    else if other_revision run job
    then (do
      act (set_status StageStatus.cancelled (some "stale_revision"))
      act (cancel_stale (some "stale_revision")))
    else if other_context run job
    then (do
      act (set_status StageStatus.cancelled (some "stale_context"))
      act (cancel_stale (some "stale_context")))
    else summarize_stage enabled summary

-- `processSummaryStage`, with what `getRun`, `enabled` and `summarize` answer.
pub process_summary_stage :
    Identity → Result (Option Identity) → Result Bool → Result Summary → M (Unit {0})
process_summary_stage job run enabled summary =
    if_current tt (do found ← await run; check_run job enabled summary found)
