-- ===== src/Queue/Final/Tests.antt =====
-- Final statuses of a run.
use docsmint.Prelude.{none}
use docsmint.Queue.Status.{StageStatus, RunState, Identity}

abbrev job : Identity
job = record { owner = 1; document = 2; generation = 3; revision = 4; context_hash = none }

abbrev run : RunState
run = record {
  identity = job;
  status = StageStatus.processing;
  embed = StageStatus.ready;
  graph = StageStatus.failed;
  summarize = StageStatus.skipped;
}
