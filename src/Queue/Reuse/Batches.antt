-- ===== src/Queue/Reuse/Batches.antt =====
-- The batches of a document tile its chunks.
use docsmint.Prelude.{
  ℕ, zero, suc, ◌+◌, ◌*◌, ◌-◌, ◌/◌, ◌≤◌, ◌<◌, ◌≡◌, refl, ap, subst, min, List, [], ◌∷◌, arith,
}
use docsmint.Queue.Reuse.{Batch, batches_from, batches}

-- From `start` on, the batches follow one another up to `n`, with 1 to `size` chunks each, and are
-- numbered from `k` on.
abbrev pub Tiles : ℕ → ℕ → ℕ → ℕ → List Batch → Type 0
Tiles n size start k [] = start ≡ n
Tiles n size start k (b ∷ bs) =
    (b.batch_index ≡ k)
    × (b.chunk_start ≡ start)
    × (start < b.chunk_end)
    × (b.chunk_end ≤ start + size)
    × Tiles n size b.chunk_end (k + 1) bs

-- The products that the steps of the loop compare.
module _ (k left size : ℕ) where
  mul-later : (k + suc left) * size ≡ k * size + left * size + size
  mul-later = grind arith

  mul-next : (k + 1) * size ≡ k * size + size
  mul-next = grind arith

  mul-regroup : (k + 1 + left) * size ≡ (k + suc left) * size
  mul-regroup = ap (λ (m : ℕ). m * size) (omega arith)

Tiles-batches_from :
    (n size k left : ℕ)
    → 0 < size
    → (k + left) * size < n + size
    → n ≤ (k + left) * size
    → Tiles n size (min n (k * size)) k (batches_from n size k left)
unfolding batches_from
Tiles-batches_from n size k zero pos low high =
    let same : (k + 0) * size ≡ k * size = ap (λ (m : ℕ). m * size) (omega arith) in
    omega (arith, same, high)
Tiles-batches_from n size k (suc left) pos low high =
    let later = mul-later k left size in
    let next = mul-next k left size in
    let again = mul-regroup k left size in
    (
      refl,
      omega (arith, later, low),
      omega (arith, later, low, next),
      omega (arith, next),
      Tiles-batches_from n size (k + 1) left pos (omega (arith, again, low))
          (omega (arith, again, high)),
    )

ceil_low : (n size : ℕ) → 0 < size → (n + size - 1) / size * size < n + size
ceil_low n size pos = grind arith

ceil_high : (n size : ℕ) → 0 < size → n ≤ (n + size - 1) / size * size
ceil_high n size pos = grind arith

-- For a positive size, the batches of `n` chunks follow one another from 0 to `n`, numbered from 0
-- on, and each has 1 to `size` chunks.
pub Tiles-batches : (n size : ℕ) → 0 < size → Tiles n size 0 0 (batches n size)
unfolding batches
Tiles-batches n size pos =
    let m : ℕ = (n + size - 1) / size in
    let start : min n (0 * size) ≡ 0 = omega arith in
    let count : (0 + m) * size ≡ m * size = ap (λ (x : ℕ). x * size) (omega arith) in
    subst (λ s. Tiles n size s 0 (batches_from n size 0 m)) start
      (Tiles-batches_from n size 0 m pos (omega (arith, count, ceil_low n size pos))
        (omega (arith, count, ceil_high n size pos)))
