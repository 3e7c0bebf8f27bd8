-- ===== src/Queue/Final.antt =====
-- What the final stage reports: backend/src/queue/workers/finalize.worker.ts over `deriveFinalStatus`.
mod Tests
use docsmint.Prelude.{◌≡◌, ◌≢◌, refl, Bool, true, false, ◌||◌, ◌⊎◌, ◌↔◌, some, arith, if◌then◌else◌}
use docsmint.Queue.Status.{
  StageStatus, RunState, Identity, FinalStatus, is_ready, is_failed, is_skipped, is_cancelled,
  other_owner, other_revision, derive_final_status, Verdict, final, process_finalize_job,
}

-- A stage that has ended, but for the cancelled ones.
abbrev pub has_ended : StageStatus → Bool
has_ended s = is_ready s || is_failed s || is_skipped s

module _ (job : Identity) (run : RunState) (own : other_owner run.identity job ≡ false)
    (current : other_revision run.identity job ≡ false) where
  -- The run of a job ends "ready" exactly if it was not cancelled, its embedding is ready, and the
  -- graph and the summary are each ready or skipped.
  pub finalize-ready_iff : (process_finalize_job job (some run) ≡ final FinalStatus.ready) ↔ (
      (run.status ≢ StageStatus.cancelled)
      × (run.embed ≡ StageStatus.ready)
      × ((run.graph ≡ StageStatus.ready) ⊎ (run.graph ≡ StageStatus.skipped))
      × ((run.summarize ≡ StageStatus.ready) ⊎ (run.summarize ≡ StageStatus.skipped)))
  unfolding process_finalize_job derive_final_status
  finalize-ready_iff = ground arith

  -- Once the embedding is ready, a graph or a summary that failed only turns the result into
  -- "ready_with_warnings".
  pub finalize_optional :
      run.status ≢ StageStatus.cancelled
      → run.embed ≡ StageStatus.ready
      → has_ended run.graph ≡ true
      → has_ended run.summarize ≡ true
      → process_finalize_job job (some run)
        ≡ final (
            if is_failed run.graph || is_failed run.summarize
            then FinalStatus.ready_with_warnings
            else FinalStatus.ready)
  unfolding process_finalize_job derive_final_status
  finalize_optional nc e g s = ground arith
