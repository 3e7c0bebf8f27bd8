-- ===== src/Embedding/Chunker/Sanitize/Urls.antt =====
-- What `sanitizeEmbeddingText` omits: data URLs, from left to right, and nothing else.
use mathlib.Core.Option.{map}
use docsmint.Prelude.{
  starts_with, take-drop, ℕ, zero, suc, ◌+◌, ◌≤◌, ◌<◌, ◌≡◌, ◌≢◌, inl, inr, refl, ap, subst, sym,
  ◌∙◌, Bool, true, false, Option, none, some, List, [], ◌∷◌, ◌++◌, ◌==◌, if◌then◌else◌, length,
  take, drop, any, All, Bool-cases, Option-cases, ==_iff, length-take, length-drop, arith,
}
use docsmint.Embedding.Chunker.Slices.{drop-drop}
use docsmint.Embedding.Chunker.Sanitize.{
  data_prefix, inline_data_marker, index_of_data, comma_in, is_break, is_terminator, valid_header,
  after_payload, after_url, after_match, in_its_place, sanitize, sanitize_embedding_text,
}

-- `data:` stands nowhere in the first `n` places of the text.
abbrev pub NoneBefore : ℕ → List ℕ → Type 0
NoneBefore n text = (i : ℕ) → i < n → starts_with data_prefix (drop i text) ≡ false

-- The header of a data URL: at most 507 code units, and no comma and no white space among them.
abbrev pub IsHeader : List ℕ → Type 0
IsHeader header =
    (length header ≤ 507) × All (λ c. ((c == 44) ≡ false) × (is_break c ≡ false)) header

abbrev pub IsPayload : List ℕ → Type 0
IsPayload payload = All (λ c. is_terminator c ≡ false) payload

-- A payload ends with the text or before a terminator.
abbrev pub IsEnd : List ℕ → Type 0
IsEnd [] = Unit
IsEnd (c ∷ cs) = is_terminator c ≡ true

-- The text and its sanitized form.
pub data Sanitizes : List ℕ → List ℕ → Type 0 where
  finish : (text : List ℕ) → NoneBefore (length text) text → Sanitizes text text
  omit :
      (before header payload rest output : List ℕ)
      → NoneBefore (length before) (before ++ (data_prefix ++ (header ++ (44 ∷ (payload ++ rest)))))
      → IsHeader header
      → IsPayload payload
      → IsEnd rest
      → Sanitizes rest output
      → Sanitizes
          (before ++ (data_prefix ++ (header ++ (44 ∷ (payload ++ rest)))))
          (before ++ (inline_data_marker ++ output))
  pass :
      (before rest output : List ℕ)
      → NoneBefore (length before) (before ++ (data_prefix ++ rest))
      → ((header others : List ℕ) → IsHeader header → rest ≢ header ++ (44 ∷ others))
      → Sanitizes rest output
      → Sanitizes (before ++ (data_prefix ++ rest)) (before ++ (data_prefix ++ output))

starts_with-cut : (p text : List ℕ) → starts_with p text ≡ true → text ≡ p ++ drop (length p) text
unfolding starts_with
starts_with-cut [] text h = refl
starts_with-cut (p ∷ ps) [] h = absurd (ground arith)
starts_with-cut (p ∷ ps) (c ∷ cs) h = elim (Bool-cases (p == c)) [
  | inl e ↦
      let same : c ≡ p = omega (arith, (==_iff p c).0 e) in
      ap (λ x. x ∷ cs) same ∙ ap (λ l. p ∷ l) (starts_with-cut ps cs (ground arith))
  | inr n ↦ absurd (ground arith)
]

index_of_data-None : (text : List ℕ) → index_of_data text ≡ none → NoneBefore (length text) text
unfolding index_of_data
index_of_data-None [] h i l = absurd (omega arith)
index_of_data-None (c ∷ cs) h i l = elim (Bool-cases (starts_with data_prefix (c ∷ cs))) [
  | inl here ↦ absurd (let t = simp here at h in ground arith)
  | inr there ↦ elim (Option-cases (index_of_data cs)) [
    | inl e ↦ later i l there (index_of_data-None cs e)
    | inr (n, e) ↦ absurd (let t = simp there at h in let u = simp e at t in ground arith)
  ]
]
  where
    later :
        (i : ℕ)
        → i < length (c ∷ cs)
        → starts_with data_prefix (c ∷ cs) ≡ false
        → NoneBefore (length cs) cs
        → starts_with data_prefix (drop i (c ∷ cs)) ≡ false
    later zero l there k = there
    later (suc i) l there k = k i (omega (arith, l))

-- `data:` stands at `n` and nowhere before.
abbrev First : ℕ → List ℕ → Type 0
First n text =
    (starts_with data_prefix (drop n text) ≡ true) × NoneBefore n text × (n < length text)

index_of_data-First : (text : List ℕ) (n : ℕ) → index_of_data text ≡ some n → First n text
unfolding index_of_data
index_of_data-First [] n h = absurd (ground arith)
index_of_data-First (c ∷ cs) n h = elim (Bool-cases (starts_with data_prefix (c ∷ cs))) [
  | inl here ↦
      let same : n ≡ 0 = (let t = simp here at h in ground arith) in
      subst (λ k. First k (c ∷ cs)) (sym same) (here, (λ i l. absurd (omega arith)), omega arith)
  | inr there ↦ elim (Option-cases (index_of_data cs)) [
    | inl e ↦ absurd (let t = simp there at h in let u = simp e at t in ground arith)
    | inr (m, e) ↦
        let same : n ≡ suc m = (let t = simp there at h in let u = simp e at t in ground arith) in
        let (stands, earlier, inside) = index_of_data-First cs m e in
        subst (λ k. First k (c ∷ cs)) (sym same) (stands, later m there earlier, omega arith)
  ]
]
  where
    later :
        (m : ℕ)
        → starts_with data_prefix (c ∷ cs) ≡ false
        → NoneBefore m cs
        → NoneBefore (suc m) (c ∷ cs)
    later m there k zero l = there
    later m there k (suc i) l = k i (omega (arith, l))

comma_in-header :
    (n : ℕ) (header others : List ℕ)
    → length header < n
    → All (λ c. ((c == 44) ≡ false) × (is_break c ≡ false)) header
    → comma_in n (header ++ (44 ∷ others)) ≡ some (length header)
unfolding comma_in
comma_in-header zero header others l a = absurd (omega arith)
comma_in-header (suc n) [] others l a = refl
comma_in-header (suc n) (c ∷ cs) others l ((e, b), a) =
    simp e (ap (map suc) (comma_in-header n cs others (omega (arith, l)) a))

-- Where the comma stands.
abbrev Comma : ℕ → List ℕ → Type 0
Comma j text =
    (text ≡ take j text ++ (44 ∷ drop (suc j) text))
    × All (λ c. (c == 44) ≡ false) (take j text)
    × (length (take j text) ≡ j)

comma_in-Comma : (n : ℕ) (text : List ℕ) (j : ℕ) → comma_in n text ≡ some j → Comma j text
unfolding comma_in
comma_in-Comma zero text j h = absurd (ground arith)
comma_in-Comma (suc n) [] j h = absurd (ground arith)
comma_in-Comma (suc n) (c ∷ cs) j h = elim (Bool-cases (c == 44)) [
  | inl here ↦
      let same : j ≡ 0 = (let t = simp here at h in ground arith) in
      subst (λ k. Comma k (c ∷ cs)) (sym same) (ap (λ x. x ∷ cs) ((==_iff c 44).0 here), tt, refl)
  | inr there ↦ elim (Option-cases (comma_in n cs)) [
    | inl e ↦ absurd (let t = simp there at h in let u = simp e at t in ground arith)
    | inr (m, e) ↦
        let same : j ≡ suc m = (let t = simp there at h in let u = simp e at t in ground arith) in
        let (cut, others, len) = comma_in-Comma n cs m e in
        subst (λ k. Comma k (c ∷ cs)) (sym same) (ap (λ l. c ∷ l) cut, (there, others), ap suc len)
  ]
]

after_payload-Cut :
    (text : List ℕ)
    → (payload : List ℕ) × IsPayload payload
      × IsEnd (after_payload text)
      × (text ≡ payload ++ after_payload text)
unfolding after_payload
after_payload-Cut [] = ([], tt, tt, refl)
after_payload-Cut (c ∷ cs) = elim (Bool-cases (is_terminator c)) [
  | inl stop ↦ simp stop ([], tt, refl, refl)
  | inr more ↦
      let (payload, a, e, cut) = after_payload-Cut cs in
      simp more (c ∷ payload, (more, a), e, ap (λ l. c ∷ l) cut)
]

take-header : (header rest : List ℕ) → take (length header) (header ++ rest) ≡ header
take-header [] rest = refl
take-header (c ∷ cs) rest = ap (λ l. c ∷ l) (take-header cs rest)

any-header :
    (header : List ℕ)
    → All (λ c. ((c == 44) ≡ false) × (is_break c ≡ false)) header
    → any is_break header ≡ false
any-header [] a = refl
any-header (c ∷ cs) ((e, b), a) = simp b (any-header cs a)

-- A header of a data URL passes the test.
valid_header-IsHeader :
    (header others rest : List ℕ)
    → IsHeader header
    → rest ≡ header ++ (44 ∷ others)
    → valid_header (comma_in 513 rest) rest ≡ true
unfolding valid_header
valid_header-IsHeader header others rest (l, a) e =
    ap (λ t. valid_header (comma_in 513 t) t) e
    ∙ ap (λ o. valid_header o (header ++ (44 ∷ others)))
        (comma_in-header 513 header others (omega arith) a)
    ∙ ground (arith, any-header header a, take-header header (44 ∷ others), l)

-- `data:` at `n`, and what stands before and after it.
cut_at :
    (n : ℕ) (text : List ℕ)
    → First n text
    → (text ≡ take n text ++ (data_prefix ++ drop (n + 5) text))
      × NoneBefore (length (take n text)) text
      × (length (drop (n + 5) text) < length text)
cut_at n text (stands, earlier, inside) =
    let five : drop n text ≡ data_prefix ++ drop (n + 5) text =
      starts_with-cut data_prefix (drop n text) stands
      ∙ ap (λ l. data_prefix ++ l) (drop-drop n 5 (n + 5) text refl) in
    (
      sym (take-drop n text) ∙ ap (λ l. take n text ++ l) five,
      λ i l. earlier i (omega (arith, l, length-take n text)),
      omega (arith, inside, length-drop (n + 5) text),
    )

url-IsHeader :
    (j : ℕ) (rest : List ℕ)
    → comma_in 513 rest ≡ some j
    → valid_header (some j) rest ≡ true
    → IsHeader (take j rest)
unfolding valid_header
url-IsHeader j rest e v =
    let (cut, others, len) = comma_in-Comma 513 rest j e in
    (ground (arith, len), both (take j rest) others (ground arith))
  where
    both :
        (header : List ℕ)
        → All (λ c. (c == 44) ≡ false) header
        → any is_break header ≡ false
        → All (λ c. ((c == 44) ≡ false) × (is_break c ≡ false)) header
    both [] a b = tt
    both (c ∷ cs) (h, a) b = elim (Bool-cases (is_break c)) [
      | inl broken ↦ absurd (let t = simp broken at b in ground arith)
      | inr fine ↦ ((h, fine), both cs a (simp fine at b))
    ]

-- What follows a `data:` with a valid header: the header, the comma, the payload and its end.
url-cut :
    (j : ℕ) (rest : List ℕ)
    → comma_in 513 rest ≡ some j
    → (payload : List ℕ) × IsPayload payload
      × IsEnd (after_payload (drop (suc j) rest))
      × (rest ≡ take j rest ++ (44 ∷ (payload ++ after_payload (drop (suc j) rest))))
url-cut j rest e =
    let (cut, others, len) = comma_in-Comma 513 rest j e in
    let (payload, a, ended, parts) = after_payload-Cut (drop (suc j) rest) in
    (payload, a, ended, cut ∙ ap (λ l. take j rest ++ (44 ∷ l)) parts)

-- A round of the loop, where the rounds after it make `output` of what is left.
round-Sanitizes :
    (before rest text output : List ℕ)
    → text ≡ before ++ (data_prefix ++ rest)
    → NoneBefore (length before) text
    → (comma : Option ℕ) (valid : Bool) → comma_in 513 rest ≡ comma
    → valid_header comma rest ≡ valid
    → Sanitizes (if valid then after_url comma rest else rest) output
    → Sanitizes text (before ++ ((if valid then inline_data_marker else data_prefix) ++ output))
unfolding valid_header
round-Sanitizes before rest text output cut earlier none true e v s = absurd (ground arith)
round-Sanitizes before rest text output cut earlier (some j) true e v s =
    let (payload, a, ended, parts) = url-cut j rest e in
    let whole = cut ∙ ap (λ l. before ++ (data_prefix ++ l)) parts in
    subst (λ t. Sanitizes t (before ++ (inline_data_marker ++ output))) (sym whole)
      (omit before (take j rest) payload (after_payload (drop (suc j) rest)) output
        (subst (NoneBefore (length before)) whole earlier) (url-IsHeader j rest e v) a ended s)
round-Sanitizes before rest text output cut earlier comma false e v s =
    subst (λ t. Sanitizes t (before ++ (data_prefix ++ output))) (sym cut)
      (pass before rest output (subst (NoneBefore (length before)) cut earlier)
        (λ header others h q. absurd (
          let t : valid_header comma rest ≡ true =
            subst (λ o. valid_header o rest ≡ true) e
              (valid_header-IsHeader header others rest h q) in
          ground arith))
        s)

after_payload_le : (text : List ℕ) → length (after_payload text) ≤ length text
unfolding after_payload
after_payload_le [] = omega arith
after_payload_le (c ∷ cs) = ground (arith, after_payload_le cs)

after_match_le : (comma : Option ℕ) (rest : List ℕ) → length (after_match comma rest) ≤ length rest
unfolding valid_header
after_match_le none rest = omega arith
after_match_le (some j) rest = elim (Bool-cases (valid_header (some j) rest)) [
  | inl valid ↦
      simp valid (omega (arith, after_payload_le (drop (suc j) rest), length-drop (suc j) rest))
  | inr other ↦ simp other (omega arith)
]

-- What the loop makes of a text.
abbrev Sanitized : Option (List ℕ) → List ℕ → Type 0
Sanitized result text = (output : List ℕ) × (result ≡ some output) × Sanitizes text output

sanitize-Sanitizes :
    (fuel : ℕ) (text : List ℕ) → length text ≤ fuel → Sanitized (sanitize fuel text) text
unfolding sanitize
sanitize-Sanitizes fuel [] l = ([], refl, finish [] (λ i h. absurd (omega arith)))
sanitize-Sanitizes zero (c ∷ cs) l = absurd (omega arith)
sanitize-Sanitizes (suc fuel) (c ∷ cs) l = elim (Option-cases (index_of_data (c ∷ cs))) [
  | inl e ↦ rw e (c ∷ cs, refl, finish (c ∷ cs) (index_of_data-None (c ∷ cs) e))
  | inr (n, e) ↦
      let rest = drop (n + 5) (c ∷ cs) in
      let comma = comma_in 513 rest in
      let (cut, earlier, less) = cut_at n (c ∷ cs) (index_of_data-First (c ∷ cs) n e) in
      let (output, done, s) =
        sanitize-Sanitizes fuel (after_match comma rest)
          (omega (arith, l, less, after_match_le comma rest)) in
      rw e (
        take n (c ∷ cs) ++ (in_its_place comma rest ++ output),
        ap (map (λ o. take n (c ∷ cs) ++ (in_its_place comma rest ++ o))) done,
        round-Sanitizes (take n (c ∷ cs)) rest (c ∷ cs) output cut earlier comma
            (valid_header comma rest) refl refl s,
      )
]

-- The loop ends, and its output is the text with the marker in place of its data URLs: from left to
-- right, each `data:` that is followed by a header and a comma is omitted up to a terminator, and
-- each other one, like every other code unit, stays.
pub sanitize_embedding_text-Sanitizes :
    (text : List ℕ)
    → (output : List ℕ) × (sanitize_embedding_text text ≡ some output) × Sanitizes text output
unfolding sanitize_embedding_text
sanitize_embedding_text-Sanitizes text = sanitize-Sanitizes (length text) text (omega arith)
