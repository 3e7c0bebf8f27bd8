-- ===== src/Lifecycle/Fencing.antt =====
-- A worker that has lost its lease writes nothing more.
use docsmint.Prelude.{
  ℕ, ◌≡◌, ◌⊎◌, inl, inr, refl, sym, subst, ap, Bool, true, false, not, ◌&&◌, ◌||◌, none, some, List,
  [], ◌∷◌, ◌==◌, is_id, any, arith, Bool-cases,
}
use docsmint.Lifecycle.{
  Operation, aborted, fence_rejected, lease_lost, pending_uploads, other, is_running, has_expired,
  may_acquire, acquired, acquire_lease, lease_write, bind_fence, persist_step, complete, fail_run,
  Call, acquire, bind, persist, finish, fail, call, Event, after_call, after,
}

abbrev pub is_acquire : Call → Bool
is_acquire acquire = true
is_acquire _ = false

-- The worker makes no new attempt at the lease; its name is made for one run.
abbrev pub never_acquires : ℕ → List Event → Bool
never_acquires w es = not (any (λ e. e.worker == w && is_acquire e.transaction) es)

module _ (w : ℕ) where
  lease_write-refused :
      (set : Operation → Operation) (o : Operation)
      → is_id o.lease_owner w ≡ false
      → lease_write w set o ≡ none
  unfolding lease_write
  lease_write-refused set o h = simp h refl

  call-refused :
      (t : ℕ) (c : Call) (o : Operation)
      → is_acquire c ≡ false
      → is_id o.lease_owner w ≡ false
      → call t w c o ≡ none
  unfolding call bind_fence persist_step complete fail_run
  call-refused t acquire o n h = absurd (ground arith)
  call-refused t (bind hash true) o n h = lease_write-refused _ o h
  call-refused t (bind hash false) o n h = refl
  call-refused t (persist s counts) o n h = simp h refl
  call-refused t (finish counts) o n h = lease_write-refused _ o h
  call-refused t (fail lease_lost) o n h = refl
  call-refused t (fail aborted) o n h = lease_write-refused _ o h
  call-refused t (fail fence_rejected) o n h = lease_write-refused _ o h
  call-refused t (fail pending_uploads) o n h = lease_write-refused _ o h
  call-refused t (fail other) o n h = lease_write-refused _ o h

  -- A write leaves the lease with its owner, or with nobody.
  lease_write-lost :
      (v : ℕ) (set : Operation → Operation) (o : Operation)
      → (((x : Operation) → (set x).lease_owner ≡ x.lease_owner)
          ⊎ ((x : Operation) → (set x).lease_owner ≡ none))
      → is_id o.lease_owner w ≡ false
      → is_id (after_call o (lease_write v set o)).lease_owner w ≡ false
  unfolding lease_write
  lease_write-lost v set o kind h = elim (Bool-cases (is_id o.lease_owner v)) [
    | inr lost ↦ simp lost h
    | inl own ↦ simp own (kept kind)
  ]
    where
      kept :
          (((x : Operation) → (set x).lease_owner ≡ x.lease_owner)
            ⊎ ((x : Operation) → (set x).lease_owner ≡ none))
          → is_id (set o).lease_owner w ≡ false
      kept (inl same) = subst (λ l. is_id l w ≡ false) (sym (same o)) h
      kept (inr gone) = subst (λ l. is_id l w ≡ false) (sym (gone o)) refl

  call-lost :
      (t v : ℕ) (c : Call) (o : Operation)
      → (v == w && is_acquire c) ≡ false
      → is_id o.lease_owner w ≡ false
      → is_id (after_call o (call t v c o)).lease_owner w ≡ false
  unfolding call bind_fence persist_step complete fail_run acquire_lease
  call-lost t v acquire o n h = elim (Bool-cases (may_acquire t o)) [
    | inl free ↦ let other_worker : (v == w) ≡ false = ground (arith, n) in simp free other_worker
    | inr held ↦ simp held h
  ]
  call-lost t v (bind hash true) o n h = lease_write-lost v _ o (inl (λ x. refl)) h
  call-lost t v (bind hash false) o n h = h
  call-lost t v (persist s counts) o n h =
      elim (Bool-cases (
        not (is_id o.lease_owner v)
        || not (is_running o.status)
        || has_expired t o.lease_expires_at)) [
          | inl lost ↦ simp lost h
          | inr held ↦ simp held (lease_write-lost v _ o (inl (λ x. refl)) h)
        ]
  call-lost t v (finish counts) o n h = lease_write-lost v _ o (inr (λ x. refl)) h
  call-lost t v (fail lease_lost) o n h = h
  call-lost t v (fail aborted) o n h = lease_write-lost v _ o (inr (λ x. refl)) h
  call-lost t v (fail fence_rejected) o n h = lease_write-lost v _ o (inr (λ x. refl)) h
  call-lost t v (fail pending_uploads) o n h = lease_write-lost v _ o (inr (λ x. refl)) h
  call-lost t v (fail other) o n h = lease_write-lost v _ o (inr (λ x. refl)) h

  after-lost :
      (es : List Event) (o : Operation)
      → never_acquires w es ≡ true
      → is_id o.lease_owner w ≡ false
      → is_id (after o es).lease_owner w ≡ false
  unfolding after
  after-lost [] o n h = h
  after-lost (e ∷ es) o n h =
      after-lost es (after_call o (call e.at e.worker e.transaction o)) (ground (arith, n))
        (call-lost e.at e.worker e.transaction o (ground (arith, n)) h)

acquire-owner :
    (now v : ℕ) (o p : Operation) → acquire_lease now v o ≡ some p → p.lease_owner ≡ some v
unfolding acquire_lease
acquire-owner now v o p e = elim (Bool-cases (may_acquire now o)) [
  | inl free ↦
      let same : some (acquired now v o) ≡ some p = simp free at e in
      let own : acquired now v o ≡ p = cc in ap (λ x. x.lease_owner) (sym own)
  | inr held ↦ absurd (let t : none ≡ some p = simp held at e in ground arith)
]

-- Once another worker has acquired the lease, whatever transactions follow, every write of the worker
-- that had it before is refused.
pub writes_fenced :
    (o p : Operation) (v w now t : ℕ) (es : List Event) (c : Call)
    → (v == w) ≡ false
    → acquire_lease now v o ≡ some p
    → never_acquires w es ≡ true
    → is_acquire c ≡ false
    → call t w c (after p es) ≡ none
writes_fenced o p v w now t es c other_worker e n write = call-refused w t c (after p es) write (
    after-lost w es p n
      (subst (λ l. is_id l w ≡ false) (sym (acquire-owner now v o p e)) other_worker))
