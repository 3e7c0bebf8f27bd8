-- ===== src/Queue/OwnerSlots.antt =====
-- The leases of one owner and stage in backend/src/queue/fair-scheduler.ts: the two scripts that Redis
-- runs, each of them one step, with the commands in them as Redis documents them, on a sorted set whose
-- key expires. Times are milliseconds, and Redis and the callers read one clock; a lease identifier is
-- a number.
mod Live
mod Limit
mod Tests
use docsmint.Prelude.{
  ℕ, ◌+◌, ◌-◌, max, Bool, true, false, not, List, [], ◌∷◌, ◌++◌, ◌==◌, ltb, leb, if◌then◌else◌,
  length, keep,
}

pub record Lease : Type 0 where
  pub id : ℕ
  pub expires : ℕ

-- The sorted set, and the time at which its key expires.
pub record Slots : Type 0 where
  pub leases : List Lease
  pub key_expires : ℕ

-- What Redis finds under the key.
unfoldable pub visible : ℕ → Slots → List Lease
visible now s = if leb s.key_expires now then [] else s.leases

-- What `ZREMRANGEBYSCORE key -inf now` leaves.
abbrev pub is_live : ℕ → Lease → Bool
is_live now l = ltb now l.expires

abbrev pub is_other : ℕ → Lease → Bool
is_other id l = not (l.id == id)

-- `ZADD`, which replaces an entry with the same name.
unfoldable pub put : Lease → List Lease → List Lease
put l ls = keep (is_other l.id) ls ++ l ∷ []

pub record Answer : Type 0 where
  pub acquired : Bool
  pub slots : Slots

-- `ACQUIRE_LEASE_SCRIPT` with `expires = now + ttl`.
unfoldable pub acquire_lease : ℕ → ℕ → ℕ → ℕ → Slots → Answer
acquire_lease limit ttl now id s =
    let live = keep (is_live now) (visible now s) in
    if leb limit (length live)
    then record { acquired = false; slots = record s { leases = live } }
    else record {
      acquired = true;
      slots = record {
        leases = put (record { id = id; expires = now + ttl }) live;
        key_expires = now + max 1 (now + ttl - now);
      };
    }

-- `RELEASE_LEASE_SCRIPT`
unfoldable pub release_lease : ℕ → ℕ → Slots → Slots
release_lease now id s = record s { leases = keep (is_other id) (visible now s) }

-- The scripts that run, in order, each at its time.
pub data Request : Type 0 where
  acquires releases : ℕ → Request

-- The slots, and the leases that callers hold: those that they were given, less those they released.
pub record World : Type 0 where
  pub slots : Slots
  pub held : List Lease

module _ (limit ttl : ℕ) where
  unfoldable pub request : ℕ → Request → World → World
  request now (acquires id) w =
      let answer = acquire_lease limit ttl now id w.slots in
      record {
        slots = answer.slots;
        held =
            if answer.acquired
            then put (record { id = id; expires = now + ttl }) w.held
            else w.held;
      }
  request now (releases id) w = record {
    slots = release_lease now id w.slots;
    held = keep (is_other id) w.held;
  }

pub record Event : Type 0 where
  pub at : ℕ
  pub request : Request

-- From an empty set.
unfoldable pub nobody : World
nobody = record { slots = record { leases = []; key_expires = 0 }; held = [] }

module _ (limit ttl : ℕ) where
  unfoldable pub history : List Event → World → World
  history [] w = w
  history (e ∷ es) w = history es (request limit ttl e.at e.request w)
