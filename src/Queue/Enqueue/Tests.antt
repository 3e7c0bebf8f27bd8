-- ===== src/Queue/Enqueue/Tests.antt =====
-- Two requests for a revision of one document, and a forced one.
use docsmint.Prelude.{◌≤◌, ◌≡◌, refl, true, false, none, List, [], ◌∷◌}
use docsmint.Queue.Enqueue.{
  Document, Request, Run, new_run, supersede, answered, add_prepare, dropped,
  enqueue_document_pipeline, find_or_create, reuse_or_insert, insert_run, queue_prepare,
}
use docsmint.Queue.Enqueue.Single.{active_runs, start, next, enqueued, active_runs_le}

abbrev documents : List Document
documents = record { id = 1; owner = 5; workspace = none } ∷ []

abbrev edit : Request
edit = record {
  document = 1;
  owner = 5;
  workspace = none;
  revision = 3;
  generation = none;
  force_new_generation = false;
}

abbrev reindex : Request
reindex = record {
  document = 1;
  owner = 5;
  workspace = none;
  revision = 3;
  generation = none;
  force_new_generation = true;
}

test-first : enqueue_document_pipeline documents edit 7 false dropped [] ≡ record {
  runs = new_run edit 7 ∷ [];
  calls = add_prepare 1 7 none ∷ [];
  answer = answered 7 false;
}
unfolding enqueue_document_pipeline find_or_create reuse_or_insert insert_run queue_prepare
test-first = refl

test-again :
    enqueue_document_pipeline documents edit 8 false dropped (new_run edit 7 ∷ [])
    ≡ record { runs = new_run edit 7 ∷ []; calls = []; answer = answered 7 true }
unfolding enqueue_document_pipeline find_or_create reuse_or_insert insert_run queue_prepare
test-again = refl

test-forced :
    (enqueue_document_pipeline documents reindex 8 false dropped (new_run edit 7 ∷ [])).runs
    ≡ supersede reindex (new_run edit 7) ∷ new_run reindex 8 ∷ []
unfolding enqueue_document_pipeline find_or_create reuse_or_insert insert_run queue_prepare
test-forced = refl

abbrev last : List Run
last =
    (enqueue_document_pipeline documents reindex 8 false dropped
      (enqueue_document_pipeline documents edit 7 false dropped []).runs).runs

active_runs_le_example : active_runs edit last ≤ 1
active_runs_le_example = active_runs_le last edit (
    next (next start (enqueued documents edit 7 false dropped))
      (enqueued documents reindex 8 false dropped))
