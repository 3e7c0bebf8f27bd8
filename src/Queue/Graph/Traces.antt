-- ===== src/Queue/Graph/Traces.antt =====
-- The calls that a graph worker may make, as an automaton.
use docsmint.Prelude.{Option, none, some}
use docsmint.Queue.Status.{processing, ready, skipped, failed, cancelled}
use docsmint.Queue.Effects.{
  Action, set_status, cancel_stale, enqueue_summarize, enqueue_finalize, compensate,
}

-- `fresh`: nothing written; `busy`: "processing" was written; `settled`: a result was written;
-- `revoked`: "cancelled" was written; `closed`: nothing may follow. When a call behind a write rejects,
-- the failure is written over it.
pub data Phase : Type 0 where
  fresh busy settled revoked closed : Phase

abbrev pub next : Phase → Action → Option Phase
next fresh (set_status cancelled c) = some revoked
next fresh (set_status skipped (some c)) = some settled
next fresh (set_status processing none) = some busy
next busy compensate = some closed
next busy (set_status cancelled c) = some revoked
next busy (set_status ready none) = some settled
next busy (set_status failed (some c)) = some settled
next settled (set_status cancelled c) = some revoked
next settled (set_status failed (some c)) = some settled
next settled enqueue_summarize = some closed
next settled enqueue_finalize = some closed
next revoked (cancel_stale c) = some closed
next revoked (set_status cancelled c) = some revoked
next revoked (set_status failed (some c)) = some settled
next _ _ = none
