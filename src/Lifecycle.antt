-- ===== src/Lifecycle.antt =====
-- The leases of the purge of an account, in backend/src/lib/lifecycle-service.ts: the transactions on
-- the row of one lifecycle operation, which workers make in any order. Each holds the row's lock, so
-- that it is one step. `none` is a lost lease: an update that meets no row. A worker's name is a UUID
-- that it makes for its run; a step's name is a number; times are milliseconds.
mod Fencing
mod Tests
use Prim.Native.String.{String}
use docsmint.Prelude.{
  ℕ, ◌+◌, Bool, true, false, not, ◌&&◌, ◌||◌, Option, none, some, List, [], ◌∷◌, ◌++◌, ◌==◌, ltb,
  if◌then◌else◌, is_id, any,
}

-- `lifecycleOperationStatusEnum`
pub data OperationStatus : Type 0 where
  pending running retryable completed rejected : OperationStatus

-- How many rows each step deleted, the latest first.
abbrev pub Counts : Type 0
Counts = List (ℕ × ℕ)

pub record Operation : Type 0 where
  pub status : OperationStatus
  pub lease_owner : Option ℕ
  pub lease_expires_at : Option ℕ
  pub fence_token_hash : Option ℕ
  pub completed_steps : List ℕ
  pub terminal_result : Option Counts
  pub safe_error_code : Option String
  pub attempt_count : ℕ
  pub completed_at : Option ℕ

-- The errors that `safeErrorCode` tells apart.
pub data LifecycleError : Type 0 where
  aborted fence_rejected lease_lost pending_uploads other : LifecycleError

abbrev pub safe_error_code : LifecycleError → String
safe_error_code aborted = "aborted"
safe_error_code fence_rejected = "fence_rejected"
safe_error_code lease_lost = "lease_lost"
safe_error_code pending_uploads = "pending_attachment_uploads"
safe_error_code other = "persistence_failed"

abbrev pub lease_ms : ℕ
lease_ms = 60000

-- `lt(leaseExpiresAt, now)`, which holds of no absent time.
abbrev pub has_expired : ℕ → Option ℕ → Bool
has_expired now none = false
has_expired now (some t) = ltb t now

abbrev pub is_running : OperationStatus → Bool
is_running running = true
is_running _ = false

abbrev pub may_acquire : ℕ → Operation → Bool
may_acquire now o = elim o.status [
  | pending ↦ true
  | retryable ↦ true
  | running ↦ has_expired now o.lease_expires_at
  | _ ↦ false
]

abbrev pub acquired : ℕ → ℕ → Operation → Operation
acquired now owner o = record o {
  status = running;
  lease_owner = some owner;
  lease_expires_at = some (now + lease_ms);
  attempt_count = o.attempt_count + 1;
}

unfoldable pub acquire_lease : ℕ → ℕ → Operation → Option Operation
acquire_lease now owner o = if may_acquire now o then some (acquired now owner o) else none

-- An update of the row of which the worker has the lease, with `requireLeaseWrite`.
unfoldable pub lease_write : ℕ → (Operation → Operation) → Operation → Option Operation
lease_write owner set o = if is_id o.lease_owner owner then some (set o) else none

-- The update that binds the fence's token to the operation; the actor's row may be gone.
unfoldable pub bind_fence : ℕ → ℕ → Bool → Operation → Option Operation
bind_fence owner hash false o = none
bind_fence owner hash true o = lease_write owner (λ o. record o { fence_token_hash = some hash }) o

abbrev pub includes : List ℕ → ℕ → Bool
includes steps s = any (λ x. x == s) steps

abbrev pub with_step : List ℕ → ℕ → List ℕ
with_step steps s = if includes steps s then steps else steps ++ s ∷ []

unfoldable pub persist_step : ℕ → ℕ → ℕ → Counts → Operation → Option Operation
persist_step now owner s counts o =
    if not (is_id o.lease_owner owner)
      || not (is_running o.status)
      || has_expired now o.lease_expires_at
    then none
    else lease_write owner
        (λ o. record o {
          completed_steps = with_step o.completed_steps s;
          terminal_result = some counts;
        })
        o

-- The last update of a run that succeeded.
unfoldable pub complete : ℕ → ℕ → Counts → Operation → Option Operation
complete now owner counts = lease_write owner (λ o. record o {
  status = completed;
  terminal_result = some counts;
  completed_at = some now;
  lease_owner = none;
  lease_expires_at = none;
})

abbrev pub is_fence_rejection : LifecycleError → Bool
is_fence_rejection fence_rejected = true
is_fence_rejection _ = false

-- The update of a run that threw; of a lost lease there is none.
unfoldable pub fail_run : ℕ → ℕ → LifecycleError → Operation → Option Operation
fail_run now owner lease_lost o = none
fail_run now owner e o =
    lease_write owner
      (λ o. record o {
        status = if is_fence_rejection e then rejected else retryable;
        safe_error_code = some (safe_error_code e);
        lease_owner = none;
        lease_expires_at = none;
        completed_at = if is_fence_rejection e then some now else none;
      })
      o

-- A transaction of a worker.
pub data Call : Type 0 where
  acquire : Call
  bind : ℕ → Bool → Call
  persist : ℕ → Counts → Call
  finish : Counts → Call
  fail : LifecycleError → Call

unfoldable pub call : ℕ → ℕ → Call → Operation → Option Operation
call now owner acquire = acquire_lease now owner
call now owner (bind hash has_actor) = bind_fence owner hash has_actor
call now owner (persist s counts) = persist_step now owner s counts
call now owner (finish counts) = complete now owner counts
call now owner (fail e) = fail_run now owner e

pub record Event : Type 0 where
  pub at : ℕ
  pub worker : ℕ
  pub transaction : Call

abbrev pub after_call : Operation → Option Operation → Operation
after_call o none = o
after_call o (some p) = p

-- The row after these transactions; a refused one leaves it.
unfoldable pub after : Operation → List Event → Operation
after o [] = o
after o (e ∷ es) = after (after_call o (call e.at e.worker e.transaction o)) es
