-- ===== src/Embedding/Generation/Defs.antt =====
-- The tables of backend/src/embedding/generation.ts, the transition table of the lifecycle, and what
-- the transactions are written in.
use Prim.Native.String.{String}
use docsmint.Prelude.{
  ℕ, Bool, true, false, ◌&&◌, Option, List, [], ◌∷◌, map, ◌==◌, if◌then◌else◌, is_id, any,
}

pub data LifecycleState : Type 0 where
  pending processing ready failed stale : LifecycleState

same_state : LifecycleState → LifecycleState → Bool
same_state pending pending = true
same_state processing processing = true
same_state ready ready = true
same_state failed failed = true
same_state stale stale = true
same_state _ _ = false

-- `TRANSITIONS`
transitions : LifecycleState → List LifecycleState
transitions pending = processing ∷ []
transitions processing = ready ∷ failed ∷ []
transitions ready = stale ∷ processing ∷ []
transitions failed = processing ∷ []
transitions stale = processing ∷ []

unfoldable pub can_transition : LifecycleState → LifecycleState → Bool
unfolding same_state transitions
can_transition from to = any (λ s. same_state s to) (transitions from)

-- The columns of `documents` that the lifecycle reads and writes.
pub record Document : Type 0 where
  pub id : ℕ
  pub active : Option ℕ
  pub candidate : Option ℕ
  pub profile : Option String
  pub context_hash : Option String
  pub status : LifecycleState
  pub error_code : Option (List ℕ)
  pub updated_at : Option ℕ

-- The columns of `documentEmbeddings`.
pub record EmbeddingRow : Type 0 where
  pub document : ℕ
  pub generation : ℕ
  pub is_valid : Bool
  pub profile : String
  pub model : String
  pub dimensions : ℕ

-- A row of `documentPipelineRuns`: its generation, and whether its status is "cancelled".
pub record PipelineRun : Type 0 where
  pub generation : ℕ
  pub cancelled : Bool

pub record Tables : Type 0 where
  pub documents : List Document
  pub embeddings : List EmbeddingRow
  pub runs : List PipelineRun

-- `EmbeddingGenerationProfile | string`
pub data ProfileArg : Type 0 where
  id_of : String → ProfileArg
  full : String → ℕ → String → ProfileArg

pub data Error : Type 0 where
  pipeline_cancelled generation_context_mismatch generation_not_pending : Error
  generation_incomplete generation_invalid_profile : Error

pub data Outcome (A : Type 0) : Type 0 where
  ok : A → Outcome A
  throw : Error → Outcome A

infixl 5 ◌>>◌
abbrev pub ◌>>◌ : {A : Type 0} → Outcome (Unit {0}) → Outcome A → Outcome A
ok u >> k = k
throw e >> k = throw e

-- `if (c) throw e`
abbrev pub throw_if : Bool → Error → Outcome (Unit {0})
throw_if true e = throw e
throw_if false e = ok tt

abbrev pub owned : ℕ → Document → Bool
owned doc d = d.id == doc

-- `and(eq(documents.id, doc), eq(documents.pendingEmbeddingGeneration, gen))`
abbrev pub waits : ℕ → ℕ → Document → Bool
waits doc gen d = d.id == doc && is_id d.candidate gen

abbrev pub staged : ℕ → ℕ → EmbeddingRow → Bool
staged doc gen r = r.document == doc && r.generation == gen

-- `update(table).set(f).where(p)`
abbrev pub update_where : {A : Type 0} → (A → Bool) → (A → A) → List A → List A
update_where p f = map (λ x. if p x then f x else x)
