-- ===== src/Search/Confidence/Agreements.antt =====
-- How many direct channels find a document: what the loop over the candidates counts.
use docsmint.Prelude.{
  ℕ, ◌+◌, ◌≤◌, ◌≡◌, ◌↔◌, ◌⊎◌, refl, ap, subst, ◌∙◌, inl, inr, Bool, true, false, ◌&&◌, List, [],
  ◌∷◌, length, any, All, ◌==◌, if◌then◌else◌, leb, Bool-cases, ==_refl, ==_iff, arith,
}
use docsmint.Search.{Channel, place, same_channel, Candidate}
use docsmint.Search.Confidence.{is_direct, Agreement, add_channel, put_channel, agreements}

-- 1 if the document has a candidate of the channel, and 0 otherwise.
abbrev pub found_in : {S : Type 0} → ℕ → Channel → List (Candidate S) → ℕ
found_in d c cs = if any (λ x. x.document == d && same_channel x.channel c) cs then 1 else 0

-- The number of the direct channels that found the document.
abbrev pub direct_channels : {S : Type 0} → ℕ → List (Candidate S) → ℕ
direct_channels d cs =
    found_in d Channel.exact cs
    + found_in d Channel.fts cs
    + found_in d Channel.fuzzy cs
    + found_in d Channel.vector cs

-- The number of the direct channels in a set of channels.
abbrev in_set : Channel → List Channel → ℕ
in_set c cs = if any (λ x. same_channel x c) cs then 1 else 0

abbrev four : List Channel → ℕ
four cs =
    in_set Channel.exact cs
    + in_set Channel.fts cs
    + in_set Channel.fuzzy cs
    + in_set Channel.vector cs

-- A set of direct channels has as many elements as there are direct channels in it.
IsExact : List Channel → Type 0
IsExact cs = length cs ≡ four cs

add_channel-IsExact :
    (c : Channel) (cs : List Channel) → is_direct c ≡ true → IsExact cs → IsExact (add_channel c cs)
unfolding IsExact
add_channel-IsExact Channel.exact cs d h = ground arith
add_channel-IsExact Channel.fts cs d h = ground arith
add_channel-IsExact Channel.fuzzy cs d h = ground arith
add_channel-IsExact Channel.vector cs d h = ground arith
add_channel-IsExact Channel.graph cs d h = absurd (ground arith)
add_channel-IsExact Channel.expanded_fts cs d h = absurd (ground arith)
add_channel-IsExact Channel.expanded_fuzzy cs d h = absurd (ground arith)
add_channel-IsExact Channel.expanded_vector cs d h = absurd (ground arith)

same-any :
    (x c : Channel) (cs : List Channel)
    → same_channel x c ≡ true
    → any (λ y. same_channel y x) cs ≡ any (λ y. same_channel y c) cs
same-any x c cs h = ap (λ n. any (λ y. place y == n) cs) ((==_iff (place x) (place c)).0 h)

in_set-add :
    (c x : Channel) (cs : List Channel)
    → in_set c (add_channel x cs) ≡ (if same_channel x c then 1 else in_set c cs)
in_set-add c x cs = elim (Bool-cases (same_channel x c)) [
  | inl same ↦ let e = same-any x c cs same in ground arith
  | inr apart ↦ ground arith
]

-- The channels of the document.
abbrev channels_of : ℕ → List Agreement → List Channel
channels_of d [] = []
channels_of d (a ∷ rest) = if a.document == d then a.channels else channels_of d rest

channels_of-put :
    (ch : Channel) (d e : ℕ) (x : Channel) (done : List Agreement)
    → in_set ch (channels_of d (put_channel e x done))
      ≡ (if e == d && same_channel x ch then 1 else in_set ch (channels_of d done))
unfolding put_channel
channels_of-put ch d e x [] = ground arith
channels_of-put ch d e x (a ∷ rest) = elim (Bool-cases (a.document == e)) [
  | inl same ↦
      let more = in_set-add ch x a.channels in
      let k : a.document ≡ e = (==_iff a.document e).0 same in
      rw same (elim (Bool-cases (e == d)) [
        | inl here ↦ let there : (a.document == d) ≡ true = rw k here in rw here (rw there more)
        | inr other ↦ let there : (a.document == d) ≡ false = rw k other in rw other (rw there refl)
      ])
  | inr apart ↦ rw apart (elim (Bool-cases (a.document == d)) [
    | inl there ↦
        let k : a.document ≡ d = (==_iff a.document d).0 there in
        let other : (e == d) ≡ false = ground arith in rw there (rw other refl)
    | inr there ↦ rw there (channels_of-put ch d e x rest)
  ])
]

-- Whether some document has so many channels.
abbrev pub agrees : ℕ → List Agreement → Bool
agrees m done = any (λ a. leb m (length a.channels)) done

module _ {S : Type 0} where
  found_same :
      (whole : List (Candidate S)) (d : ℕ) (x ch : Channel)
      → same_channel x ch ≡ true
      → any (λ c. c.document == d && same_channel c.channel x) whole ≡ true
      → found_in d ch whole ≡ 1
  found_same whole d x ch e h =
      let k : any (λ c. c.document == d && same_channel c.channel ch) whole ≡ true =
        subst (λ n. any (λ c. c.document == d && place c.channel == n) whole ≡ true)
          ((==_iff (place x) (place ch)).0 e) h in
      rw k refl

  -- What the loop finds: every direct candidate's channel.
  agreements-found :
      (ch : Channel) (d : ℕ) (done : List Agreement) (cs : List (Candidate S))
      → is_direct ch ≡ true
      → (in_set ch (channels_of d done) ≤ in_set ch (channels_of d (agreements done cs)))
        × (found_in d ch cs ≤ in_set ch (channels_of d (agreements done cs)))
  unfolding agreements
  agreements-found ch d done [] k = (omega arith, omega arith)
  agreements-found ch d done (c ∷ cs) k = elim (Bool-cases (is_direct c.channel)) [
    | inl direct ↦
        let put = channels_of-put ch d c.document c.channel done in
        let (kept, found) = agreements-found ch d (put_channel c.document c.channel done) cs k in
        rw direct (ground arith)
    | inr other ↦
        let (kept, found) = agreements-found ch d done cs k in
        let apart : same_channel c.channel ch ≡ false = ground arith in rw other (ground arith)
  ]

  -- Groups hold direct channels, and only those that found their document.
  IsSound : List (Candidate S) → Agreement → Type 0
  IsSound whole a =
      IsExact a.channels × ((ch : Channel) → in_set ch a.channels ≤ found_in a.document ch whole)

  put_channel-IsSound :
      (whole : List (Candidate S)) (d : ℕ) (x : Channel) (done : List Agreement)
      → is_direct x ≡ true
      → any (λ c. c.document == d && same_channel c.channel x) whole ≡ true
      → All (IsSound whole) done
      → All (IsSound whole) (put_channel d x done)
  unfolding put_channel IsSound IsExact
  put_channel-IsSound whole d x [] k h a =
      ((add_channel-IsExact x [] k refl, λ ch. found ch (Bool-cases (same_channel x ch))), tt)
    where
      found :
          (ch : Channel)
          → (same_channel x ch ≡ true) ⊎ (same_channel x ch ≡ false)
          → in_set ch (x ∷ []) ≤ found_in d ch whole
      found ch (inl same) = rw (found_same whole d x ch same h) (ground arith)
      found ch (inr apart) = ground arith
  put_channel-IsSound whole d x (g ∷ gs) k h ((exact, inside), a) =
      elim (Bool-cases (g.document == d)) [
        | inl same ↦ rw same (
          (
            add_channel-IsExact x g.channels k exact,
            λ ch. added ch same (Bool-cases (same_channel x ch)),
          ),
          a,
        )
        | inr apart ↦ rw apart ((exact, inside), put_channel-IsSound whole d x gs k h a)
      ]
    where
      added :
          (ch : Channel)
          → (g.document == d) ≡ true
          → (same_channel x ch ≡ true) ⊎ (same_channel x ch ≡ false)
          → in_set ch (add_channel x g.channels) ≤ found_in g.document ch whole
      added ch same (inl e) =
          let here = found_same whole d x ch e h in
          let there : found_in g.document ch whole ≡ 1 =
            ap (λ n. found_in n ch whole) ((==_iff g.document d).0 same) ∙ here in
          let put = in_set-add ch x g.channels in ground arith
      added ch same (inr e) =
          let put = in_set-add ch x g.channels in let before = inside ch in ground arith

  agreements-IsSound :
      (whole : List (Candidate S)) (done : List Agreement) (cs : List (Candidate S))
      → All
          (λ c.
            any (λ y. y.document == c.document && same_channel y.channel c.channel) whole ≡ true)
          cs
      → All (IsSound whole) done
      → All (IsSound whole) (agreements done cs)
  unfolding agreements
  agreements-IsSound whole done [] h a = a
  agreements-IsSound whole done (c ∷ cs) (k, h) a = elim (Bool-cases (is_direct c.channel)) [
    | inl direct ↦ rw direct (
        agreements-IsSound whole (put_channel c.document c.channel done) cs h
          (put_channel-IsSound whole c.document c.channel done direct k a))
    | inr other ↦ rw other (agreements-IsSound whole done cs h a)
  ]

  -- The candidate `c` is one of the list, by its document and its channel.
  abbrev StandsIn : List (Candidate S) → Candidate S → Type 0
  StandsIn whole c =
      any (λ y. y.document == c.document && same_channel y.channel c.channel) whole ≡ true

  StandsIn-more :
      (x : Candidate S) (whole cs : List (Candidate S))
      → All (StandsIn whole) cs
      → All (StandsIn (x ∷ whole)) cs
  StandsIn-more x whole [] h = tt
  StandsIn-more x whole (c ∷ cs) (k, h) = (ground arith, StandsIn-more x whole cs h)

  All-StandsIn : (cs : List (Candidate S)) → All (StandsIn cs) cs
  All-StandsIn [] = tt
  All-StandsIn (c ∷ cs) = (
    rw (==_refl c.document) (rw (==_refl (place c.channel)) refl),
    StandsIn-more c cs cs (All-StandsIn cs),
  )

  IsSound-le :
      (whole : List (Candidate S)) (a : Agreement)
      → IsSound whole a
      → length a.channels ≤ direct_channels a.document whole
  unfolding IsSound IsExact
  IsSound-le whole a (exact, inside) =
      let first = inside Channel.exact in
      let second = inside Channel.fts in
      let third = inside Channel.fuzzy in
      let fourth = inside Channel.vector in omega (arith, exact, first, second, third, fourth)

  agrees-some :
      (m : ℕ) (whole : List (Candidate S)) (done : List Agreement)
      → All (IsSound whole) done
      → agrees m done ≡ true
      → (d : ℕ) × (m ≤ direct_channels d whole)
  agrees-some m whole [] a h = absurd (ground arith)
  agrees-some m whole (g ∷ gs) (k, a) h = elim (Bool-cases (leb m (length g.channels))) [
    | inl enough ↦
        let le = IsSound-le whole g k in
        let few : m ≤ length g.channels = ground arith in (g.document, omega (arith, few, le))
    | inr short ↦ agrees-some m whole gs a (simp short at h)
  ]

  some-agrees :
      (m d : ℕ) (whole : List (Candidate S)) (done : List Agreement)
      → 1 ≤ m
      → All (IsSound whole) done
      → m ≤ four (channels_of d done)
      → agrees m done ≡ true
  unfolding IsSound IsExact
  some-agrees m d whole [] pos a h = absurd (omega (arith, pos, h))
  some-agrees m d whole (g ∷ gs) pos ((exact, inside), a) h = elim (Bool-cases (g.document == d)) [
    | inl here ↦
        let these : m ≤ four g.channels = simp here at h in
        let all : m ≤ length g.channels = omega (arith, these, exact) in
        let e : leb m (length g.channels) ≡ true = ground arith in rw e refl
    | inr other ↦ let rest = some-agrees m d whole gs pos a (simp other at h) in ground arith
  ]

  -- The loop finds so many channels of a document exactly if there are so many.
  pub agreements_iff :
      (m : ℕ) (cs : List (Candidate S))
      → 1 ≤ m
      → (agrees m (agreements [] cs) ≡ true) ↔ ((d : ℕ) × (m ≤ direct_channels d cs))
  agreements_iff m cs pos =
      let sound = agreements-IsSound cs [] cs (All-StandsIn cs) tt in
      (
        agrees-some m cs (agreements [] cs) sound,
        λ (d, l).
            let first = (agreements-found Channel.exact d [] cs refl).1 in
            let second = (agreements-found Channel.fts d [] cs refl).1 in
            let third = (agreements-found Channel.fuzzy d [] cs refl).1 in
            let fourth = (agreements-found Channel.vector d [] cs refl).1 in
            some-agrees m d cs (agreements [] cs) pos sound
              (omega (arith, l, first, second, third, fourth)),
      )
