-- ===== src/Queue/Enqueue/Single.antt =====
-- A revision of a document has one active run at most.
use docsmint.Prelude.{
  keep-none, keep_ext, keep-map_le, keep-map_none, ℕ, ◌+◌, ◌≤◌, ◌≡◌, ◌⊎◌, ◌∙◌, inl, inr, refl, sym,
  subst, ap, Bool, true, false, ◌&&◌, Option, none, some, List, [], ◌∷◌, ◌++◌, map, ◌==◌, is_id,
  find?, any, keep, length, length-append, keep-append, arith, Bool-cases, Option-cases,
  and-eq-true, ==_iff,
}
use docsmint.Queue.Enqueue.{
  cancelled, Run, Document, Request, is_active, within_boundary, is_own, is_current, is_exact,
  Found, refused, found, new_run, insert_run, supersede, reuse_or_insert, find_or_create, Removal,
  should_queue_prepare, queue_prepare, enqueue_document_pipeline,
}

-- The number of active runs of the request's document in its boundary and revision.
abbrev pub active_runs : Request → List Run → ℕ
active_runs q runs = length (keep (is_current q) runs)

IsSingle : List Run → Type 0
IsSingle runs = (q : Request) → active_runs q runs ≤ 1

boundary-same :
    (v w u : Option ℕ) (m n o : ℕ)
    → within_boundary v m w n ≡ true
    → within_boundary v m u o ≡ within_boundary w n u o
boundary-same (some a) (some b) u m n o h = let e : b ≡ a = (==_iff b a).0 h in ap (is_id u) (sym e)
boundary-same (some a) none u m n o h = absurd (ground arith)
boundary-same none (some b) u m n o h = absurd (ground arith)
boundary-same none none none m n o h = let e : n ≡ m = (==_iff n m).0 h in ap (λ x. o == x) (sym e)
boundary-same none none (some c) m n o h = refl

-- A request that the run of another one belongs to asks for the same runs.
is_own-same :
    (p q : Request) (g : ℕ) (r : Run) → is_own p (new_run q g) ≡ true → is_own p r ≡ is_own q r
is_own-same p q g r h =
    let (d, b) =
      and-eq-true (q.document == p.document)
        (within_boundary p.workspace p.owner q.workspace q.owner) h in
    let same : q.document ≡ p.document = (==_iff q.document p.document).0 d in
    rw (boundary-same p.workspace q.workspace r.workspace p.owner q.owner r.owner b) (
      ap (λ n. r.document == n && within_boundary q.workspace q.owner r.workspace r.owner)
        (sym same))

is_current-same :
    (p q : Request) (g : ℕ) (r : Run)
    → is_current p (new_run q g) ≡ true
    → is_current p r ≡ is_current q r
is_current-same p q g r h =
    let (both, _) = and-eq-true (is_own p (new_run q g) && q.revision == p.revision) true h in
    let (own, v) = and-eq-true (is_own p (new_run q g)) (q.revision == p.revision) both in
    let same : q.revision ≡ p.revision = (==_iff q.revision p.revision).0 v in
    rw (is_own-same p q g r own)
      (ap (λ n. is_own q r && r.revision == n && is_active r.status) (sym same))

-- The run of a superseded request is not active; other runs stay as they were.
supersede-cases :
    (q : Request) (r : Run)
    → ((supersede q r).status ≡ cancelled)
      ⊎ ((supersede q r ≡ r) × ((is_own q r && is_active r.status) ≡ false))
supersede-cases q r = elim (Bool-cases (is_own q r && is_active r.status)) [
  | inl hit ↦ inl (simp hit refl)
  | inr left ↦ inr (simp left refl, left)
]

cancelled-current : (p : Request) (r : Run) → r.status ≡ cancelled → is_current p r ≡ false
cancelled-current p r h =
    let idle : is_active r.status ≡ false = ap is_active h in ground (arith, idle)

supersede-inactive :
    (p q : Request) (r : Run) → is_own p r ≡ is_own q r → is_current p (supersede q r) ≡ false
supersede-inactive p q r h = elim (supersede-cases q r) [
  | inl hit ↦ cancelled-current p (supersede q r) hit
  | inr (same, left) ↦
      let idle : is_current p r ≡ false = rw h (ground (arith, left)) in
      subst (λ x. is_current p x ≡ false) (sym same) idle
]

supersede-current :
    (p q : Request) (r : Run) → is_current p (supersede q r) ≡ true → is_current p r ≡ true
supersede-current p q r h = elim (supersede-cases q r) [
  | inl hit ↦ absurd (
      let t = cancelled-current p (supersede q r) hit in
      let u : true ≡ false = sym h ∙ t in ground arith)
  | inr (same, _) ↦ subst (λ x. is_current p x ≡ true) same h
]

-- The table with a run for which the request had no active run.
append-IsSingle :
    (q : Request) (g : ℕ) (runs : List Run)
    → IsSingle runs
    → ((p : Request) → is_current p (new_run q g) ≡ true → keep (is_current p) runs ≡ [])
    → IsSingle (runs ++ new_run q g ∷ [])
unfolding IsSingle
append-IsSingle q g runs single empty p =
    let parts = ap length (keep-append (is_current p) runs (new_run q g ∷ [])) in
    let sum = length-append (keep (is_current p) runs) (keep (is_current p) (new_run q g ∷ [])) in
    subst (λ n. n ≤ 1) (sym (parts ∙ sum)) (bound (Bool-cases (is_current p (new_run q g))))
  where
    bound :
        ((is_current p (new_run q g) ≡ true) ⊎ (is_current p (new_run q g) ≡ false))
        → length (keep (is_current p) runs) + length (keep (is_current p) (new_run q g ∷ [])) ≤ 1
    bound (inl own) =
        let none_there : length (keep (is_current p) runs) ≡ 0 = ap length (empty p own) in
        simp own (omega arith)
    bound (inr other) = let most = single p in simp other (omega (arith, most))

abbrev Settled : Found → Type 0
Settled refused = Unit {0}
Settled (found r b table) = IsSingle table

insert_run-Settled :
    (q : Request) (g : ℕ) (runs : List Run)
    → IsSingle runs
    → ((p : Request) → is_current p (new_run q g) ≡ true → keep (is_current p) runs ≡ [])
    → Settled (insert_run q g runs)
unfolding insert_run
insert_run-Settled q g runs single empty =
    elim (Bool-cases (any (λ r. r.document == q.document && r.generation == g) runs)) [
      | inl there ↦ simp there tt
      | inr new ↦ simp new (append-IsSingle q g runs single empty)
    ]

mapped-IsSingle :
    (f : Run → Run) (runs : List Run)
    → ((p : Request) (r : Run) → is_current p (f r) ≡ true → is_current p r ≡ true)
    → IsSingle runs
    → IsSingle (map f runs)
unfolding IsSingle
mapped-IsSingle f runs h single p =
    let le : length (keep (is_current p) (map f runs)) ≤ length (keep (is_current p) runs) =
      keep-map_le (is_current p) f runs (h p) in
    let most = single p in omega (arith, le, most)

is_own-new :
    (p q : Request) (g : ℕ) → is_current p (new_run q g) ≡ true → is_own p (new_run q g) ≡ true
is_own-new p q g h =
    let (both, _) = and-eq-true (is_own p (new_run q g) && q.revision == p.revision) true h in
    (and-eq-true (is_own p (new_run q g)) (q.revision == p.revision) both).0

reuse_or_insert-Settled :
    (q : Request) (g : ℕ) (runs : List Run) (o : Option Run)
    → IsSingle runs
    → find? (is_current q) runs ≡ o
    → Settled (reuse_or_insert q g runs o)
unfolding reuse_or_insert
reuse_or_insert-Settled q g runs (some existing) single e = single
reuse_or_insert-Settled q g runs none single absent = insert_run-Settled q g runs single (λ p h.
    keep_ext (is_current p) (is_current q) runs (λ r. is_current-same p q g r h)
    ∙ keep-none (is_current q) runs absent)

find_or_create-Settled :
    (documents : List Document) (q : Request) (g : ℕ) (runs : List Run)
    → IsSingle runs
    → Settled (find_or_create documents q g runs)
unfolding find_or_create
find_or_create-Settled documents q g runs single =
    elim (Bool-cases (
      any (λ d. d.id == q.document && within_boundary q.workspace q.owner d.workspace d.owner)
        documents)) [
          | inr missing ↦ simp missing tt
          | inl there ↦ elim (Option-cases (find? (is_exact q g) runs)) [
            | inr (r, exact) ↦ simp (there, exact) single
            | inl absent ↦ elim (Bool-cases q.force_new_generation) [
              | inr kept ↦
                  simp (there, absent, kept)
                    (reuse_or_insert-Settled q g runs (find? (is_current q) runs) single refl)
              | inl forced ↦
                  simp (there, absent, forced)
                    (insert_run-Settled q g (map (supersede q) runs)
                      (mapped-IsSingle (supersede q) runs (λ p. supersede-current p q) single)
                      (λ p h.
                        keep-map_none (is_current p) (supersede q) runs (λ r.
                          supersede-inactive p q r (is_own-same p q g r (is_own-new p q g h)))))
            ]
          ]
        ]

queue_prepare-IsSingle :
    (q : Request) (stopped : Bool) (removal : Removal) (runs : List Run) (f : Found)
    → IsSingle runs
    → Settled f
    → IsSingle (queue_prepare q stopped removal runs f).runs
unfolding queue_prepare
queue_prepare-IsSingle q stopped removal runs refused single s = single
queue_prepare-IsSingle q true removal runs (found r created table) single s =
    elim (Bool-cases (should_queue_prepare q r created)) [
      | inl yes_queue ↦ simp yes_queue s
      | inr not_queue ↦ simp not_queue s
    ]
queue_prepare-IsSingle q false removal runs (found r created table) single s =
    elim (Bool-cases (should_queue_prepare q r created)) [
      | inl yes_queue ↦ simp yes_queue s
      | inr not_queue ↦ simp not_queue s
    ]

-- A request, or changes of runs that make none active that was not.
pub data Step (runs : List Run) : List Run → Type 0 where
  enqueued :
      (documents : List Document) (q : Request) (proposed : ℕ) (stopped : Bool) (removal : Removal)
      → Step runs (enqueue_document_pipeline documents q proposed stopped removal runs).runs
  advanced :
      (f : Run → Run)
      → ((p : Request) (r : Run) → is_current p (f r) ≡ true → is_current p r ≡ true)
      → Step runs (map f runs)

pub data Reach (runs : List Run) : List Run → Type 0 where
  start : Reach runs runs
  next : {later last : List Run} → Reach runs later → Step later last → Reach runs last

nothing-IsSingle : IsSingle []
unfolding IsSingle
nothing-IsSingle q = omega arith

Reach-IsSingle : (runs : List Run) → Reach [] runs → IsSingle runs
unfolding IsSingle enqueue_document_pipeline
Reach-IsSingle _ start = nothing-IsSingle
Reach-IsSingle _ (next {later} r (enqueued documents q proposed stopped removal)) =
    queue_prepare-IsSingle q stopped removal later _ (Reach-IsSingle later r)
      (find_or_create-Settled documents q _ later (Reach-IsSingle later r))
Reach-IsSingle _ (next {later} r (advanced f h)) =
    mapped-IsSingle f later h (Reach-IsSingle later r)

-- From an empty table, whatever requests come, and however the workers change the runs without making
-- one active that was not: a document has at most one active run of a revision within a boundary.
pub active_runs_le : (runs : List Run) (q : Request) → Reach [] runs → active_runs q runs ≤ 1
unfolding IsSingle
active_runs_le runs q r = Reach-IsSingle runs r q
