-- ===== src/Embedding/Generation/Failure.antt =====
-- What a failed candidate leaves, and what no transaction on one document touches of the others.
use Prim.Native.String.{String}
use mathlib.Core.Path.{ap}
use docsmint.Prelude.{
  keep_agree, ℕ, ◌≡◌, ◌≢◌, ◌≤◌, refl, ◌∙◌, Bool, true, false, not, inl, inr, Option, none, some,
  List, [], ◌∷◌, arith, ◌==◌, is_id, keep, all, map, take, length, All, find?, Bool-cases,
  if◌then◌else◌, ==_refl, suc, length-take,
}
use docsmint.Embedding.Generation.{
  Document, EmbeddingRow, Tables, ProfileArg, committed, activate_generation, begin_generation,
  begin_row, fail_generation, fail_row, safe_unit, safe_code, or_unknown, active_of, ready,
  promoted, activate_row, waits, owned, staged,
}
use docsmint.Embedding.Generation.Activation.{activate-cases}
use docsmint.Embedding.Generation.Rows.{keep-update, find-update, find-holds}

-- A failure code that is stored: up to 64 units, not empty, each a letter, a digit, `_` or `-`.
pub record IsSafeCode (code : List ℕ) : Type 0 where
  pub short : length code ≤ 64
  pub nonempty : code ≢ []
  pub safe : all safe_unit code ≡ true

underscore-safe : safe_unit b'_' ≡ true
unfolding safe_unit
underscore-safe = refl

all-map-safe :
    (code : List ℕ) → all safe_unit (map (λ c. if safe_unit c then c else b'_') code) ≡ true
all-map-safe [] = refl
all-map-safe (c ∷ cs) = elim (Bool-cases (safe_unit c)) [
  | inl e ↦ rw e (rw e (all-map-safe cs))
  | inr e ↦ rw e (rw underscore-safe (all-map-safe cs))
]

length-map-safe : (f : ℕ → ℕ) (code : List ℕ) → length (map f code) ≡ length code
length-map-safe f [] = refl
length-map-safe f (c ∷ cs) = ap suc (length-map-safe f cs)

pub safe_code-IsSafeCode : (code : List ℕ) → IsSafeCode (or_unknown (safe_code code))
safe_code-IsSafeCode code =
    guarded (safe_code code)
      (unfold safe_code in
        omega (
          arith,
          length-map-safe (λ c. if safe_unit c then c else b'_') (take 64 code),
          length-take 64 code,
        ))
      (unfold safe_code in all-map-safe (take 64 code))
  where
    guarded : (c : List ℕ) → length c ≤ 64 → all safe_unit c ≡ true → IsSafeCode (or_unknown c)
    guarded [] h k =
        unfold or_unknown safe_unit in
        record { short = omega arith; nonempty = λ e. cc; safe = refl }
    guarded (c ∷ cs) h k = unfold or_unknown in record { short = h; nonempty = λ e. cc; safe = k }

module _ (doc gen g : ℕ) (code : List ℕ) (t : Tables) (d : Document)
    (found : find? (owned doc) t.documents ≡ some d) (active : d.active ≡ some g) where
  active_is : active_of (find? (owned doc) t.documents) ≡ some g
  active_is = ap active_of found ∙ active

  e : Document
  e = if waits doc gen d then fail_row ready (safe_code code) d else d

  e_same : (e.active ≡ some g) × (e.profile ≡ d.profile)
  unfolding e fail_row
  e_same = ground arith

  e_waiting : d.candidate ≡ some gen → (e.status ≡ ready) × (e.candidate ≡ none)
  unfolding e fail_row
  e_waiting w = let own = find-holds (owned doc) t.documents d found in ground (arith, ==_refl gen)

  -- A failure of another candidate leaves the active generation of its document in place: the
  -- pointer, the profile and every row of it; if that candidate was waiting, it is cleared and the
  -- document is "ready" again.
  pub fail-active :
      g ≢ gen
      → let u = fail_generation doc gen code t in
        (x : Document) × (find? (owned doc) u.documents ≡ some x)
        × (x.active ≡ some g)
        × (x.profile ≡ d.profile)
        × (keep (staged doc g) u.embeddings ≡ keep (staged doc g) t.embeddings)
        × (d.candidate ≡ some gen → (x.status ≡ ready) × (x.candidate ≡ none))
  unfolding fail_generation
  fail-active ne = rw active_is (
      rw (other) (
        e,
        (find-update (owned doc) (waits doc gen) (fail_row ready (safe_code code)) t.documents
              (λ x. unfold fail_row in refl)
            ∙ (rw found (unfold e in refl))),
        e_same.0,
        e_same.1,
        keep_agree (staged doc g) (λ r. not (staged doc gen r)) t.embeddings (every t.embeddings),
        e_waiting,
      ))
    where
      other : (g == gen) ≡ false
      other = ground arith

      every :
          (xs : List EmbeddingRow)
          → All (λ r. staged doc g r ≡ true → not (staged doc gen r) ≡ true) xs
      every [] = tt
      every (r ∷ xs) = (λ h. ground arith, every xs)

-- The rows of other documents, in both tables.
pub record IsSameElsewhere (doc : ℕ) (t u : Tables) : Type 0 where
  pub documents :
      keep (λ d. not (owned doc d)) u.documents ≡ keep (λ d. not (owned doc d)) t.documents
  pub embeddings :
      keep (λ r. not (r.document == doc)) u.embeddings
      ≡ keep (λ r. not (r.document == doc)) t.embeddings

others_kept :
    (q : EmbeddingRow → Bool) (doc : ℕ) (xs : List EmbeddingRow)
    → ((r : EmbeddingRow) → not (r.document == doc) ≡ true → q r ≡ true)
    → keep (λ r. not (r.document == doc)) (keep q xs) ≡ keep (λ r. not (r.document == doc)) xs
others_kept q doc xs h = keep_agree _ q xs (every xs)
  where
    every : (ys : List EmbeddingRow) → All (λ r. not (r.document == doc) ≡ true → q r ≡ true) ys
    every [] = tt
    every (r ∷ ys) = (h r, every ys)

-- No transaction on one document changes a row of another.
pub transactions-IsSameElsewhere :
    (now doc gen expected : ℕ) (profile : Option ProfileArg) (hash : Option String) (code : List ℕ)
    (t : Tables)
    → IsSameElsewhere doc t (begin_generation doc gen t)
      × IsSameElsewhere doc t
          (committed t (activate_generation now doc gen expected profile hash t))
      × IsSameElsewhere doc t (fail_generation doc gen code t)
unfolding begin_generation begin_row fail_generation fail_row promoted activate_row
transactions-IsSameElsewhere now doc gen expected profile hash code t = (
  record {
    documents = keep-update _ (owned doc) _ t.documents (λ d h. (rw h refl, rw h refl));
    embeddings = refl;
  },
  elim (activate-cases now doc gen expected profile hash t) [
    | inl (e, refused) ↦ rw refused (record { documents = refl; embeddings = refl })
    | inr (inl again) ↦ rw again.result (record { documents = refl; embeddings = refl })
    | inr (inr pr) ↦ rw (pr.result) (record {
      documents = keep-update _ (waits doc gen) _ t.documents (λ d h. ground arith);
      embeddings = others_kept _ doc t.embeddings (λ r h. ground arith);
    })
  ],
  elim (Bool-cases (is_id (active_of (find? (owned doc) t.documents)) gen)) [
    | inl e ↦ rw e (record { documents = refl; embeddings = refl })
    | inr e ↦ rw e (record {
      documents = keep-update _ (waits doc gen) _ t.documents (λ d h. ground arith);
      embeddings = others_kept _ doc t.embeddings (λ r h. ground arith);
    })
  ],
)
