-- ===== src/Queue/Summary/Traces.antt =====
-- The calls that a summary worker may make, as an automaton: what the stage promises to the rest of
-- the pipeline whatever its dependencies answer.
use docsmint.Prelude.{Option, none, some}
use docsmint.Queue.Status.{processing, ready, skipped, failed, cancelled}
use docsmint.Queue.Effects.{Action, set_status, cancel_stale, enqueue_finalize}

-- `fresh`: nothing written; `busy`: "processing" was written; `settled`: a result was written;
-- `revoked`: "cancelled" was written, and "failed" may follow when the call behind it rejects; `closed`: nothing may follow.
pub data Phase : Type 0 where
  fresh busy settled revoked closed : Phase

abbrev pub next : Phase → Action → Option Phase
next fresh (cancel_stale c) = some closed
next fresh (set_status cancelled c) = some revoked
next fresh (set_status skipped none) = some settled
next fresh (set_status processing none) = some busy
next busy (cancel_stale c) = some closed
next busy (set_status cancelled c) = some revoked
next busy (set_status ready none) = some settled
next busy (set_status skipped none) = some settled
next busy (set_status failed (some c)) = some settled
next settled (cancel_stale c) = some closed
next settled enqueue_finalize = some closed
next revoked (cancel_stale c) = some closed
next revoked (set_status failed (some c)) = some settled
next _ _ = none
