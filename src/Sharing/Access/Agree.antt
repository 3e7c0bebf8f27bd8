-- ===== src/Sharing/Access/Agree.antt =====
-- The two answers of a share link agree on every document of its owner.
use docsmint.Prelude.{
  has, ℕ, suc, ◌≡◌, ◌↔◌, inl, inr, refl, ap, sym, ◌∙◌, Bool, true, false, ◌&&◌, ◌||◌, Option, none,
  some, List, [], ◌∷◌, ◌==◌, if◌then◌else◌, is_id, keep, All, Bool-cases, arith, ==_refl, keep_fuse,
}
use docsmint.Sharing.Tables.{
  Folder, Document, Link, Tables, find_document, find_link, has_expired, IsKeyed,
}
use docsmint.Sharing.Climb.{rounds, is_folder_descendant, inherit, folder_category}
use docsmint.Sharing.Climb.Under.{Under, here, is_folder_descendant_iff}
use docsmint.Sharing.Climb.Category.{inherit_agrees}
use docsmint.Sharing.Spread.{folder_ids}
use docsmint.Sharing.Spread.Reached.{folder_ids_iff}
use docsmint.Sharing.Access.Rows.{keep_every, AllFound, has-rows, find_document-id}
use docsmint.Sharing.Access.{
  inherits, granted, no_access, folder_grants, category_grants, link_access, share_token_access,
  Scope, owner_folders, effective_category, category_rows, in_folders, scope_rows, scope_of,
  link_scope, resolve_share_scope,
}

-- What a link is made for: one document, one folder or one category.
pub data HasOneTarget (l : Link) : Type 0 where
  to_document : (n : ℕ) → l.document ≡ some n → l.folder ≡ none → l.category ≡ none → HasOneTarget l
  to_folder :
      (root : ℕ) → l.document ≡ none → l.folder ≡ some root → l.category ≡ none → HasOneTarget l
  to_category : (k : ℕ) → l.document ≡ none → l.folder ≡ none → l.category ≡ some k → HasOneTarget l

-- Both answers for the document `doc`, with the same verdict.
pub record AgreesOn (t : Tables) (l : Link) (doc : ℕ) : Type 0 where
  pub verdict : Bool
  pub scope : Scope
  pub answers : link_access t doc l ≡ some (if verdict then granted else no_access)
  pub resolves : link_scope t l ≡ some scope
  pub lists : has scope.document_ids doc ≡ verdict

link_scope-of :
    (t : Tables) (l : Link) (folders : List Folder) (ids : List ℕ) (rows : List Document)
    → owner_folders l.created_by l.folder l.category t.folders ≡ folders
    → folder_ids folders l.folder ≡ some ids
    → scope_rows folders t.documents ids l ≡ some rows
    → link_scope t l ≡ some (scope_of l rows)
unfolding link_scope
link_scope-of t l folders ids rows f e r =
    rw (f, link_scope) (rw (e, link_scope) (rw (f, link_scope) (rw (r, link_scope) refl)))

link_access-of :
    (t : Tables) (l : Link) (doc : ℕ) (b k : Bool)
    → is_id l.document doc ≡ false
    → folder_grants t doc l.folder ≡ some b
    → category_grants t doc l.category ≡ some k
    → link_access t doc l ≡ some (if b || k then granted else no_access)
unfolding link_access
link_access-of t l doc true k n f c = simp (n, f) refl
link_access-of t l doc false true n f c = simp (n, f, c) refl
link_access-of t l doc false false n f c = simp (n, f, c) refl

category_scope :
    (folders : List Folder) (documents : List Document) (l : Link) (k : ℕ)
    → l.category ≡ some k
    → scope_rows folders documents [] l
      ≡ category_rows folders k (keep (λ x. x.owner == l.created_by) documents)
unfolding scope_rows
category_scope folders documents l k c = rw (c, scope_rows) refl

or_false : (b : Bool) → (b || false) ≡ b
or_false true = refl
or_false false = refl

module _ (t : Tables) (l : Link) (doc : ℕ) (d : Document)
    (found : find_document t.documents doc ≡ some d) (keyed : AllFound t.documents t.documents)
    (owned : d.owner ≡ l.created_by) where
  own : (d.owner == l.created_by) ≡ true
  own = rw owned (==_refl l.created_by)

  document_link :
      (n : ℕ) → l.document ≡ some n → l.folder ≡ none → l.category ≡ none → AgreesOn t l doc
  unfolding link_access folder_grants category_grants folder_ids scope_rows
  document_link n a b c = record {
    verdict = n == doc;
    scope = scope_of l (keep in_scope t.documents);
    answers = simp (a, b, c) (ground arith);
    resolves =
        link_scope-of t l [] [] _ (simp (b, c) refl) (simp b refl)
          (rw (c, scope_rows) (rw (a, scope_rows) refl));
    lists = has-rows t.documents in_scope doc d found keyed ∙ simp (own) verdict_same;
  }
    where
      in_scope : Document → Bool
      in_scope x = (x.owner == l.created_by) && (x.id == n)

      verdict_same : (d.id == n) ≡ (n == doc)
      verdict_same = let id = find_document-id t.documents doc d found in ground arith

  -- The tables hold the folders of the link's creator.
  module _ (tree : IsKeyed t.folders)
      (all_owned : All (λ f. f.owner ≡ l.created_by) t.folders) where
    folder_verdict :
        (root : ℕ) (ids : List ℕ) (inside : Option ℕ)
        → ((c : ℕ) → (has ids c ≡ true) ↔ Under t.folders root c)
        → elim inside [ none ↦ some false | some f ↦ is_folder_descendant t.folders f root ]
          ≡ some (elim inside [ none ↦ false | some f ↦ has ids f ])
    folder_verdict root ids none iff = refl
    folder_verdict root ids (some f) iff =
        let (b, e, says) = is_folder_descendant_iff t.folders f root in
        let up = says.0 in
        let down = says.1 in
        let up_ids = (iff f).0 in
        let down_ids = (iff f).1 in
        let same : b ≡ has ids f = elim (Bool-cases b) [
          | inl said ↦ said ∙ sym (down_ids (up said))
          | inr denied ↦ elim (Bool-cases (has ids f)) [
            | inl listed ↦ down (up_ids listed) ∙ sym listed
            | inr unlisted ↦ denied ∙ sym unlisted
          ]
        ] in
        e ∙ ap some same

    folder_rows :
        (root : ℕ) (folders : List Folder) (ids : List ℕ)
        → l.document ≡ none
        → l.category ≡ none
        → has ids root ≡ true
        → scope_rows folders t.documents ids l
          ≡ some (keep (λ x. (x.owner == l.created_by) && in_folders ids x) t.documents)
    unfolding scope_rows
    folder_rows root folders [] a c top = absurd (ground arith)
    folder_rows root folders (i ∷ is) a c top = rw (c, scope_rows) (rw (a, scope_rows) refl)

    folder_link :
        (root : ℕ) → l.document ≡ none → l.folder ≡ some root → l.category ≡ none → AgreesOn t l doc
    unfolding link_access folder_grants category_grants
    folder_link root a b c =
        let (ids, e, iff) = folder_ids_iff t.folders root tree in
        let owners = keep_every l.created_by t.folders all_owned in
        let verdict = folder_verdict root ids d.folder iff in
        let back = (iff root).1 in
        record {
          verdict = in_folders ids d;
          scope =
              scope_of l (keep (λ x. (x.owner == l.created_by) && in_folders ids x) t.documents);
          answers =
              link_access-of t l doc (in_folders ids d) false (simp a refl)
                (simp (b, found) verdict) (simp c refl)
              ∙ simp or_false refl;
          resolves =
              link_scope-of t l t.folders ids _ (simp (b, c) owners) (simp b e)
                (folder_rows root t.folders ids a c (back here));
          lists =
              has-rows t.documents (λ x. (x.owner == l.created_by) && in_folders ids x) doc d found
                keyed
              ∙ simp own refl;
        }

    effective :
        (x : Document)
        → (c : Option ℕ) × (effective_category t.folders x ≡ some c)
          × (inherit t.folders (suc (rounds t.folders)) [] x.category x.folder ≡ some c)
    effective x = by_category x.category
      where
        by_category :
            (o : Option ℕ)
            → (c : Option ℕ) × (elim o [
              | some k ↦ some (some k)
              | none ↦ folder_category t.folders (rounds t.folders) [] x.folder
            ]
                ≡ some c)
              × (inherit t.folders (suc (rounds t.folders)) [] o x.folder ≡ some c)
        by_category none = inherit_agrees t.folders x.folder
        by_category (some k) = (some k, refl, unfold inherit in refl)

    abbrev is_in : ℕ → Document → Bool
    is_in k x = is_id (effective x).0 k

    category_rows-keep :
        (k : ℕ) (ds : List Document) → category_rows t.folders k ds ≡ some (keep (is_in k) ds)
    unfolding category_rows
    category_rows-keep k [] = refl
    category_rows-keep k (x ∷ xs) =
        let (c, e, _) = effective x in rw (e, category_rows) (rw (category_rows-keep k xs) refl)

    category_verdict : (k : ℕ) → category_grants t doc (some k) ≡ some (is_in k d)
    unfolding category_grants
    category_verdict k = let (_, _, i) = effective d in rw found (rw (i, inherits) refl)

    category_link :
        (k : ℕ) → l.document ≡ none → l.folder ≡ none → l.category ≡ some k → AgreesOn t l doc
    unfolding folder_grants category_grants folder_ids scope_rows
    category_link k a b c =
        let owners = keep_every l.created_by t.folders all_owned in
        let fused =
          keep_fuse (is_in k) (λ x. x.owner == l.created_by) owned_in t.documents (λ x. refl) in
        record {
          verdict = is_in k d;
          scope = scope_of l (keep owned_in t.documents);
          answers =
              link_access-of t l doc false (is_in k d) (simp a refl) (simp b refl)
                (ap (category_grants t doc) c ∙ category_verdict k);
          resolves = link_scope-of t l t.folders [] _ (simp (b, c) owners) (simp b refl) (
              category_scope t.folders t.documents l k c
              ∙ category_rows-keep k (keep (λ x. x.owner == l.created_by) t.documents)
              ∙ ap some fused);
          lists = has-rows t.documents owned_in doc d found keyed ∙ simp own refl;
        }
      where
        owned_in : Document → Bool
        owned_in x = (x.owner == l.created_by) && is_in k x

    -- A link with one target answers for the document, and lists it in its scope, alike: if the
    -- document belongs to the link's creator, the folders are the creator's, and identifiers are unique.
    pub target-AgreesOn : HasOneTarget l → AgreesOn t l doc
    target-AgreesOn (to_document n a b c) = document_link n a b c
    target-AgreesOn (to_folder root a b c) = folder_link root a b c
    target-AgreesOn (to_category k a b c) = category_link k a b c

-- For a token of a live link with one target, and a document of the link's creator, in tables with
-- unique identifiers whose folders are the creator's: `shareTokenAccessForDocument` and
-- `resolveShareDocumentScope` both return, and the one grants the document exactly if the other's
-- scope lists it.
pub share_access_agrees :
    (now : ℕ) (t : Tables) (doc token : ℕ) (l : Link) (d : Document)
    → find_link t.links token ≡ some l
    → has_expired now l.expires_at ≡ false
    → HasOneTarget l
    → find_document t.documents doc ≡ some d
    → d.owner ≡ l.created_by
    → AllFound t.documents t.documents
    → IsKeyed t.folders
    → All (λ f. f.owner ≡ l.created_by) t.folders
    → (granting : Bool) × (scope : Scope) × (share_token_access now t doc token
        ≡ some (if granting then granted else no_access))
      × (resolve_share_scope now t token ≡ some (some scope))
      × (has scope.document_ids doc ≡ granting)
unfolding share_token_access resolve_share_scope
share_access_agrees now t doc token l d known live target found owned keyed tree all_owned =
    let both = target-AgreesOn t l doc d found keyed owned tree all_owned target in
    (
      both.verdict,
      both.scope,
      rw (known, share_token_access) (rw live both.answers),
      rw (known, resolve_share_scope) (rw live (rw both.resolves refl)),
      both.lists,
    )
