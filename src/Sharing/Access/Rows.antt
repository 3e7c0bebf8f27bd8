-- ===== src/Sharing/Access/Rows.antt =====
-- What a filter keeps of the rows of a table whose identifiers are its key.
use docsmint.Prelude.{
  has, ℕ, ◌≡◌, inl, inr, refl, ap, Bool, true, false, ◌&&◌, some, List, [], ◌∷◌, map, ◌==◌, keep,
  All, Bool-cases, arith, ==_refl, any,
}
use docsmint.Sharing.Tables.{Folder, Document, find_document}

pub keep_every :
    (o : ℕ) (fs : List Folder) → All (λ f. f.owner ≡ o) fs → keep (λ f. f.owner == o) fs ≡ fs
keep_every o [] a = refl
keep_every o (f ∷ fs) (e, a) =
    let own : (f.owner == o) ≡ true = rw e (==_refl o) in simp own (rw (keep_every o fs a) refl)

module _ (documents : List Document) where
  abbrev pub AllFound : List Document → Type 0
  AllFound ds = All (λ d. find_document documents d.id ≡ some d) ds

  -- A filter on the rows of a table decides by the row of the identifier.
  has-keep :
      (p : Document → Bool) (n : ℕ) (d : Document) (ds : List Document)
      → find_document documents n ≡ some d
      → AllFound ds
      → has (map (λ x. x.id) (keep p ds)) n ≡ (any (λ x. x.id == n) ds && p d)
  has-keep p n d [] found a = refl
  has-keep p n d (x ∷ xs) found (own, a) =
      let rest = has-keep p n d xs found a in
      elim (Bool-cases (x.id == n)) [
        | inl met ↦
            let id : x.id ≡ n = ground arith in
            let moved : find_document documents n ≡ some x = rw (← id) own in
            let same : x ≡ d = cc in
            let test : p x ≡ p d = ap p same in
            elim (Bool-cases (p d)) [
              | inl hit ↦ let py : p x ≡ true = rw test hit in simp (py, met, hit) refl
              | inr miss ↦
                  let pn : p x ≡ false = rw test miss in simp (pn, met, miss) (ground (arith, rest))
            ]
        | inr other ↦ elim (Bool-cases (p x)) [
          | inl hit ↦ simp (hit, other) rest
          | inr miss ↦ simp (miss, other) rest
        ]
      ]

  any-found :
      (n : ℕ) (d : Document) (ds : List Document)
      → find_document ds n ≡ some d
      → any (λ x. x.id == n) ds ≡ true
  any-found n d [] found = absurd (ground arith)
  any-found n d (x ∷ xs) found = elim (Bool-cases (x.id == n)) [
    | inl met ↦ simp met refl
    | inr other ↦ simp other (any-found n d xs (simp other at found))
  ]

  pub has-rows :
      (p : Document → Bool) (n : ℕ) (d : Document)
      → find_document documents n ≡ some d
      → AllFound documents
      → has (map (λ x. x.id) (keep p documents)) n ≡ p d
  has-rows p n d found a =
      let all = has-keep p n d documents found a in
      let one = any-found n d documents found in simp one at all

pub find_document-id :
    (ds : List Document) (n : ℕ) (d : Document) → find_document ds n ≡ some d → d.id ≡ n
find_document-id [] n d e = absurd (ground arith)
find_document-id (x ∷ xs) n d e = elim (Bool-cases (x.id == n)) [
  | inl met ↦ let same : x ≡ d = ground arith in let id : x.id ≡ n = ground arith in rw (← same) id
  | inr other ↦ find_document-id xs n d (simp other at e)
]
