-- ===== src/Queue/Recovery.antt =====
-- `recoverStalledPipeline` of backend/src/queue/recovery.ts: from the stalled jobs that the store
-- found, the calls that are made. What `claimRetry` answers is a function of the candidate it is
-- called for; jobs, runs and dates are numbers.
mod Once
mod Claimed
mod Tests
use docsmint.Prelude.{
  ℕ, ◌+◌, Bool, true, false, ◌&&◌, Option, none, some, List, [], ◌∷◌, ◌++◌, ◌==◌, leb,
  if◌then◌else◌, length, keep,
}

pub data Stage : Type 0 where
  prepare embed graph summarize finalize : Stage

abbrev pub stage_number : Stage → ℕ
stage_number prepare = 0
stage_number embed = 1
stage_number graph = 2
stage_number summarize = 3
stage_number finalize = 4

-- `RecoverablePipelineJob`
pub record Candidate : Type 0 where
  pub run : ℕ
  pub stage : Stage
  pub job : ℕ
  pub attempts : ℕ
  pub observed : ℕ

-- The calls of the store and of the queue.
pub data Call : Type 0 where
  mark_exhausted : Candidate → Call
  claim_retry : Candidate → Bool → Call
  add : Candidate → Call

-- `${candidate.runId}:${candidate.stage}`, compared.
abbrev pub same_key : Candidate → Candidate → Bool
same_key a b = a.run == b.run && stage_number a.stage == stage_number b.stage

-- An entry of `claimedRuns`, which stands under the key of its candidate.
pub record Entry : Type 0 where
  pub first : Candidate
  pub claimed : Bool

abbrev pub look : Candidate → List Entry → Option Bool
look c [] = none
look c (e ∷ es) = if same_key e.first c then some e.claimed else look c es

abbrev pub added : Bool → Candidate → List Call
added claimed c = if claimed then add c ∷ [] else []

module _ (max_attempts : ℕ) (claim : Candidate → Bool) where
  -- `claimed`, after the store was asked for a new key.
  abbrev pub settled : Candidate → Bool
  settled c = if leb max_attempts c.attempts then false else claim c

  abbrev pub settling : Candidate → Call
  settling c = if leb max_attempts c.attempts then mark_exhausted c else claim_retry c (claim c)

  -- The calls for one candidate.
  unfoldable pub calls_for : Candidate → Option Bool → List Call
  calls_for c none = settling c ∷ added (settled c) c
  calls_for c (some claimed) = added claimed c

  unfoldable pub remember : Candidate → Option Bool → List Entry → List Entry
  remember c none es = record { first = c; claimed = settled c } ∷ es
  remember c (some claimed) es = es

  -- The loop of `recoverStalledPipeline`.
  unfoldable pub recover : List Entry → List Candidate → List Call
  recover es [] = []
  recover es (c ∷ cs) = calls_for c (look c es) ++ recover (remember c (look c es) es) cs
