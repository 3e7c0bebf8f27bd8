-- ===== src/Queue/OwnerSlots/Limit.antt =====
-- The leases that are held and have not run out never exceed the limit.
use docsmint.Prelude.{
  ℕ, ◌+◌, ◌≤◌, ◌<◌, ◌≡◌, inl, inr, refl, ap, sym, ◌∙◌, false, List, [], ◌∷◌, ◌++◌, ltb, leb, length,
  keep, length-keep, Bool-cases, arith, All, All-append, All-keep,
}
use docsmint.Queue.OwnerSlots.Live.{keep_swap, keep-put, keep_later, length-put_le}
use docsmint.Queue.OwnerSlots.{
  Lease, Slots, visible, is_live, is_other, put, acquire_lease, release_lease, Request, acquires,
  releases, World, request, Event, nobody, history,
}

-- From the time `now` on, the set holds the held leases that are live, within the limit; and the key
-- outlives its leases.
pub record IsFair (limit ttl now : ℕ) (w : World) : Type 0 where
  pub agrees : (t : ℕ) → now ≤ t → keep (is_live t) w.slots.leases ≡ keep (is_live t) w.held
  pub few : (t : ℕ) → now ≤ t → length (keep (is_live t) w.held) ≤ limit
  pub covered : All (λ l. l.expires ≤ w.slots.key_expires) w.slots.leases
  pub recent : All (λ l. l.expires ≤ now + ttl) w.slots.leases

All-weaken :
    (a b : ℕ) (ls : List Lease) → a ≤ b → All (λ l. l.expires ≤ a) ls → All (λ l. l.expires ≤ b) ls
All-weaken a b [] h k = tt
All-weaken a b (l ∷ ls) h (x, k) = (omega (arith, h, x), All-weaken a b ls h k)

All-visible :
    (b now : ℕ) (s : Slots)
    → All (λ l. l.expires ≤ b) s.leases
    → All (λ l. l.expires ≤ b) (visible now s)
unfolding visible
All-visible b now s k = elim (Bool-cases (leb s.key_expires now)) [
  | inl gone ↦ simp gone tt
  | inr there ↦ simp there k
]

keep_expired :
    (t b : ℕ) (ls : List Lease) → b ≤ t → All (λ l. l.expires ≤ b) ls → keep (is_live t) ls ≡ []
keep_expired t b [] h k = refl
keep_expired t b (l ∷ ls) h (x, k) =
    let dead : is_live t l ≡ false = ground arith in simp dead (keep_expired t b ls h k)

visible_live :
    (now t : ℕ) (s : Slots)
    → now ≤ t
    → All (λ l. l.expires ≤ s.key_expires) s.leases
    → keep (is_live t) (visible now s) ≡ keep (is_live t) s.leases
unfolding visible
visible_live now t s h k = elim (Bool-cases (leb s.key_expires now)) [
  | inl gone ↦ simp gone (sym (keep_expired t s.key_expires s.leases (ground arith) k))
  | inr there ↦ simp there refl
]

All-put :
    (b : ℕ) (l : Lease) (ls : List Lease)
    → l.expires ≤ b
    → All (λ x. x.expires ≤ b) ls
    → All (λ x. x.expires ≤ b) (put l ls)
unfolding put
All-put b l ls h k =
    All-append (λ x. x.expires ≤ b) (keep (is_other l.id) ls) (l ∷ [])
      (All-keep (λ x. x.expires ≤ b) (is_other l.id) ls k) (h, tt)

module _ (limit ttl : ℕ) where
  later-IsFair :
      (now later : ℕ) (w : World) → now ≤ later → IsFair limit ttl now w → IsFair limit ttl later w
  later-IsFair now later w h f = record {
    agrees = λ t k. f.agrees t (omega (arith, h, k));
    few = λ t k. f.few t (omega (arith, h, k));
    covered = f.covered;
    recent = All-weaken (now + ttl) (later + ttl) w.slots.leases (omega (arith, h)) f.recent;
  }

  nobody-IsFair : IsFair limit ttl 0 nobody
  unfolding nobody
  nobody-IsFair = record {
    agrees = λ t h. refl;
    few = λ t h. omega arith;
    covered = tt;
    recent = tt;
  }

  module _ (now : ℕ) (w : World) (f : IsFair limit ttl now w) where
    -- What the script finds live agrees with what is held.
    live_held :
        (t : ℕ)
        → now ≤ t
        → keep (is_live t) (keep (is_live now) (visible now w.slots)) ≡ keep (is_live t) w.held
    live_held t h =
        keep_later now t (visible now w.slots) h
        ∙ visible_live now t w.slots h f.covered
        ∙ f.agrees t h

    release-IsFair : (id : ℕ) → IsFair limit ttl now (request limit ttl now (releases id) w)
    unfolding request release_lease
    release-IsFair id = record {
      agrees = λ t h.
          keep_swap (is_live t) (is_other id) (visible now w.slots)
          ∙ ap (λ r. keep (is_other id) r) (visible_live now t w.slots h f.covered ∙ f.agrees t h)
          ∙ keep_swap (is_other id) (is_live t) w.held;
      few = λ t h. omega (
        arith,
        f.few t h,
        ap length (keep_swap (is_live t) (is_other id) w.held),
        length-keep (is_other id) (keep (is_live t) w.held),
      );
      covered = All-keep _ (is_other id) _ (All-visible _ now w.slots f.covered);
      recent = All-keep _ (is_other id) _ (All-visible _ now w.slots f.recent);
    }

    live : List Lease
    live = keep (is_live now) (visible now w.slots)

    refused-IsFair : IsFair limit ttl now (record {
      slots = record { leases = live; key_expires = w.slots.key_expires };
      held = w.held;
    })
    unfolding live
    refused-IsFair = record {
      agrees = live_held;
      few = f.few;
      covered = All-keep _ (is_live now) _ (All-visible _ now w.slots f.covered);
      recent = All-keep _ (is_live now) _ (All-visible _ now w.slots f.recent);
    }

    granted-IsFair :
        (l : Lease) (key_expires : ℕ)
        → length live < limit
        → l.expires ≡ now + ttl
        → now + ttl ≤ key_expires
        → IsFair limit ttl now (record {
          slots = record { leases = put l live; key_expires = key_expires };
          held = put l w.held;
        })
    unfolding live
    granted-IsFair l key_expires room e k = record {
      agrees = same;
      few = λ t h. omega (
        arith,
        ap length (same t h),
        length-keep (is_live t) (put l live),
        length-put_le l live,
        room,
      );
      covered =
          All-put key_expires l live (omega (arith, e, k))
            (All-weaken (now + ttl) key_expires live k old);
      recent = All-put (now + ttl) l live (omega (arith, e)) old;
    }
      where
        same : (t : ℕ) → now ≤ t → keep (is_live t) (put l live) ≡ keep (is_live t) (put l w.held)
        same t h =
            keep-put t l live
            ∙ ap (λ r. keep (is_other l.id) r ++ keep (is_live t) (l ∷ [])) (live_held t h)
            ∙ sym (keep-put t l w.held)

        old : All (λ x. x.expires ≤ now + ttl) live
        old = All-keep _ (is_live now) _ (All-visible _ now w.slots f.recent)

    acquire-IsFair : (id : ℕ) → IsFair limit ttl now (request limit ttl now (acquires id) w)
    unfolding request acquire_lease live
    acquire-IsFair id = elim (Bool-cases (leb limit (length live))) [
      | inl full ↦ rw (full, acquire_lease) refused-IsFair
      | inr room ↦ rw (room, acquire_lease) (granted-IsFair _ _ (ground arith) refl (omega arith))
    ]

  request-IsFair :
      (now : ℕ) (r : Request) (w : World)
      → IsFair limit ttl now w
      → IsFair limit ttl now (request limit ttl now r w)
  request-IsFair now (acquires id) w f = acquire-IsFair now w f id
  request-IsFair now (releases id) w f = release-IsFair now w f id

  -- The events come at times that do not fall, and end at `last`.
  abbrev pub Ascends : ℕ → List Event → ℕ → Type 0
  Ascends now [] last = now ≤ last
  Ascends now (e ∷ es) last = (now ≤ e.at) × Ascends e.at es last

  history-IsFair :
      (now last : ℕ) (es : List Event) (w : World)
      → Ascends now es last
      → IsFair limit ttl now w
      → IsFair limit ttl last (history limit ttl es w)
  unfolding history
  history-IsFair now last [] w a f = later-IsFair now last w a f
  history-IsFair now last (e ∷ es) w (h, a) f =
      history-IsFair e.at last es (request limit ttl e.at e.request w) a
        (request-IsFair e.at e.request w (later-IsFair now e.at w h f))

  -- Whatever requests come, at times that do not fall: at every later time, the callers hold no more
  -- leases that have not run out than the limit, and Redis counts exactly those.
  pub history-few :
      (last : ℕ) (es : List Event)
      → Ascends 0 es last
      → (t : ℕ) → last ≤ t
      → (length (keep (is_live t) (history limit ttl es nobody).held) ≤ limit)
        × (keep (is_live t) (visible t (history limit ttl es nobody).slots)
            ≡ keep (is_live t) (history limit ttl es nobody).held)
  history-few last es a t h =
      let f = history-IsFair 0 last es nobody a nobody-IsFair in
      (
        f.few t h,
        visible_live t t (history limit ttl es nobody).slots (omega arith) f.covered ∙ f.agrees t h,
      )

  -- After any requests, at times that do not fall, a later one is granted exactly if the callers hold
  -- fewer leases that have not run out than the limit.
  pub history-grants :
      (last : ℕ) (es : List Event)
      → Ascends 0 es last
      → (t id : ℕ) → last ≤ t
      → (acquire_lease limit ttl t id (history limit ttl es nobody).slots).acquired
        ≡ ltb (length (keep (is_live t) (history limit ttl es nobody).held)) limit
  unfolding acquire_lease
  history-grants last es a t id h =
      let counted = ap length ((history-few last es a t h).1) in
      elim (Bool-cases
        (leb limit (length (keep (is_live t) (visible t (history limit ttl es nobody).slots))))) [
          | inl full ↦ rw full (ground (arith, counted))
          | inr room ↦ rw room (ground (arith, counted))
        ]
