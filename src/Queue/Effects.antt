-- ===== src/Queue/Effects.antt =====
-- What a stage worker of backend/src/queue does to the outside: the calls of its dependencies, in
-- order. Every dependency may reject. `isCancelled` and `isCurrent` may answer differently each time
-- they are asked, so their answers are sequences, and so is whether the calls resolve. What a dependency
-- that is asked once answers is a `Result`. `await` is a bind, `throw` ends the worker.
use Prim.Native.String.{String}
use docsmint.Prelude.{ℕ, ◌+◌, ◌≡◌, ◌⊎◌, length, Bool, false, Option, List, [], ◌∷◌, ◌++◌}
use docsmint.Queue.Status.{StageStatus}

-- `setGraphStatus` and `setSummaryStatus` are `set_status` of the worker's own stage.
pub data Action : Type 0 where
  set_status : StageStatus → Option String → Action
  cancel_stale : Option String → Action
  enqueue_summarize enqueue_finalize compensate : Action

-- The errors that the workers tell apart: `PipelineProviderError`, an error named
-- "stale_revision", and the others.
pub data Failure : Type 0 where
  provider : String → Bool → Failure
  stale other : Failure

pub data Result (A : Type 0) : Type 0 where
  done : A → Result A
  raised : Failure → Result A

-- `acted n` is how the call with `n` calls before it ends.
pub record Answers : Type 0 where
  pub cancelled : ℕ → Result Bool
  pub current : ℕ → Result Bool
  pub acted : ℕ → Result (Unit {0})

-- A call that was made, with how it ended.
pub data Call (X : Type 0) : Type 0 where
  resolved rejected : X → Call X

-- How often each question was asked, and the calls so far.
pub record Log (X : Type 0) : Type 0 where
  pub asked_cancelled : ℕ
  pub asked_current : ℕ
  pub trace : List (Call X)

abbrev pub Program : Type 0 → Type 0 → Type 0
Program X A = Answers → Log X → Result A × Log X

-- The programs of the summary and graph workers.
abbrev pub M : Type 0 → Type 0
M A = Program Action A

-- The first rejection of two calls.
abbrev pub both : Result (Unit {0}) → Result (Unit {0}) → Result (Unit {0})
both (done u) r = r
both (raised e) r = raised e

module _ {X : Type 0} where
  unfoldable pub then_do :
      {A B : Type 0} → (A → Program X B) → Answers → Result A × Log X → Result B × Log X
  then_do f env (done a, l) = f a env l
  then_do f env (raised e, l) = (raised e, l)

  infixl 5 ◌>>=◌ ◌>>◌
  unfoldable pub ◌>>=◌ : {A B : Type 0} → Program X A → (A → Program X B) → Program X B
  unfolding then_do
  ◌>>=◌ m f env l = then_do f env (m env l)

  unfoldable pub ◌>>◌ : {B : Type 0} → Program X (Unit {0}) → Program X B → Program X B
  m >> k = m >>= λ _. k

  unfoldable pub return : {A : Type 0} → A → Program X A
  return a env l = (done a, l)

  unfoldable pub throw : {A : Type 0} → Failure → Program X A
  throw e env l = (raised e, l)

  -- A call of a dependency that answers nothing, or whose answer the program has as an argument.
  abbrev pub noted : X → Log X → Result (Unit {0}) → Result (Unit {0}) × Log X
  noted a l (done u) = (done tt, record l { trace = l.trace ++ resolved a ∷ [] })
  noted a l (raised e) = (raised e, record l { trace = l.trace ++ rejected a ∷ [] })

  unfoldable pub act : X → Program X (Unit {0})
  act a env l = noted a l (env.acted (length l.trace))

  -- `await Promise.all(...)` of calls: all are made, and one that rejects makes it reject.
  unfoldable pub act_all : List X → Program X (Unit {0})
  act_all [] env l = (done tt, l)
  act_all (a ∷ rest) env l =
      let (r, made) = act a env l in let (s, all) = act_all rest env made in (both r s, all)

  -- `await` of a dependency that is asked once.
  unfoldable pub await : {A : Type 0} → Result A → Program X A
  await r env l = (r, l)

  -- `await isCancelled(job)` and `await isCurrent(job)`; without the optional dependency the answers
  -- are all false and all true.
  unfoldable pub is_cancelled : Program X Bool
  is_cancelled env l =
      (env.cancelled l.asked_cancelled, record l { asked_cancelled = l.asked_cancelled + 1 })

  unfoldable pub is_current : Program X Bool
  is_current env l = (env.current l.asked_current, record l { asked_current = l.asked_current + 1 })

  -- `try { m } catch (error) { h(error) }`
  unfoldable pub handle :
      {A : Type 0} → (Failure → Program X A) → Answers → Result A × Log X → Result A × Log X
  handle h env (done a, l) = (done a, l)
  handle h env (raised e, l) = h e env l

  unfoldable pub catch : {A : Type 0} → Program X A → (Failure → Program X A) → Program X A
  unfolding handle
  catch m h env l = handle h env (m env l)

  abbrev pub start : Log X
  start = record { asked_cancelled = 0; asked_current = 0; trace = [] }

-- `pipelineErrorCode(error, fallback)`
abbrev pub pipeline_error_code : Failure → String → String
pipeline_error_code (provider code retryable) fallback = code
pipeline_error_code _ fallback = fallback

-- `error instanceof PipelineProviderError && error.retryable`
abbrev pub is_retryable : Failure → Bool
is_retryable (provider code retryable) = retryable
is_retryable _ = false

-- An error with which a call rejects, or a question about the job.
abbrev pub IsThrown : Answers → Failure → Type 0
IsThrown env e =
    ((n : ℕ) × (env.acted n ≡ raised e))
    ⊎ ((n : ℕ) × (env.cancelled n ≡ raised e))
    ⊎ ((n : ℕ) × (env.current n ≡ raised e))

-- Unfolds the programs, in a test.
unfoldable pub programs : Unit {0}
unfolding ◌>>=◌ ◌>>◌ return throw act act_all await is_cancelled is_current catch
programs = tt
