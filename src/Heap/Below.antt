-- ===== src/Heap/Below.antt =====
-- A table of one-block allocations in which every block from some bound on is free: what an
-- allocation and a release do to the bound, wherever the first free block is.
use kernel_play.Prelude.{
  ℕ, zero, suc, ◌+◌, ◌≤◌, ◌<◌, ◌≡◌, ap, ◌∙◌, arith, ℕ_discrete, Bool, true, false, Bool-cases, inl,
  inr, ◌⊎◌, ◌==◌,
}
use kernel_play.Prelude.Run.{ok}
use kernel_play.Memory.{Memory}
use kernel_play.Heap.{Heap, kheap_zalloc, heap_free}
use kernel_play.Heap.Singles.{
  IsUsable, Singles, IsFirstFree, block, with_block, without_block, zalloc_single, free_one,
}

pub record Below (heap : Heap) (m : Memory) (bound : ℕ) : Type 0 where
  pub taken : ℕ → Bool
  pub singles : Singles heap m taken
  pub free : (j : ℕ) → bound ≤ j → taken j ≡ false

-- The blocks below `n` are all taken, or one of them is the first that is free.
first_below :
    (taken : ℕ → Bool) (n : ℕ)
    → ((j : ℕ) → j < n → taken j ≡ true)
      ⊎ ((i : ℕ) × (i < n) × ((j : ℕ) → j < i → taken j ≡ true) × (taken i ≡ false))
first_below taken zero = inl (λ j lt. absurd (omega arith))
first_below taken (suc n) = elim (first_below taken n) [
  | inr (i, lt, below, free) ↦ inr (i, omega arith, below, free)
  | inl below ↦ elim (Bool-cases (taken n)) [
    | inl here ↦ inl (λ j lt. elim (ℕ_discrete j n) [
      | yes same ↦ ap taken same ∙ here
      | no other ↦ below j (omega arith)
    ])
    | inr free ↦ inr (n, omega arith, below, free)
  ]
]

module _ (heap : Heap) (usable : IsUsable heap) where
  -- There is a first free block, at the bound at most.
  some_free :
      (taken : ℕ → Bool) (bound : ℕ)
      → ((j : ℕ) → bound ≤ j → taken j ≡ false)
      → bound < heap.table.size
      → (i : ℕ) × (i ≤ bound) × IsFirstFree heap taken i
  some_free taken bound free lt = elim (first_below taken bound) [
    | inl all ↦ (
      bound,
      omega arith,
      record { inside_table = lt; below = all; free = free bound (omega arith) },
    )
    | inr (i, small, below, here) ↦
        (i, omega arith, record { inside_table = omega arith; below = below; free = here })
  ]

  -- An allocation moves the bound by one.
  pub Below-zalloc :
      (m : Memory) (bound size : ℕ)
      → 0 < size
      → size ≤ 4096
      → bound < heap.table.size
      → Below heap m bound
      → (i : ℕ) × (m' : Memory) × (i ≤ bound)
        × (kheap_zalloc heap m size ≡ ok (block heap i, m'))
        × Below heap m' (bound + 1)
  Below-zalloc m bound size some_size small lt b =
      let (i, at_most, first) = some_free b.taken bound b.free lt in
      let (m', run, after) =
        zalloc_single heap usable m b.taken i size some_size small b.singles first in
      (
        i,
        m',
        at_most,
        run,
        record {
          taken = with_block i b.taken;
          singles = after;
          free = λ j above. let old = b.free j (omega arith) in ground (arith, old);
        },
      )

  -- A release leaves it.
  pub Below-free :
      (m : Memory) (bound i : ℕ)
      → i + 1 < heap.table.size
      → Below heap m bound
      → (m' : Memory) × (heap_free heap m (block heap i) ≡ ok m') × Below heap m' bound
  Below-free m bound i lt b =
      let (m', run, after) = free_one heap usable m b.taken i b.singles lt in
      (
        m',
        run,
        record {
          taken = without_block i b.taken;
          singles = after;
          free = λ j above. let old = b.free j above in ground (arith, old);
        },
      )

  pub some_block : (i : ℕ) → (block heap i == 0) ≡ false
  some_block i = ground (arith, usable.placed.apart)
