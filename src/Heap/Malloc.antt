-- ===== src/Heap/Malloc.antt =====
-- `heap_malloc`: rounding up, first fit, and what changes in memory.
use kernel_play.Prelude.{
  ℕ, ◌+◌, ◌-◌, ◌/◌, ◌%◌, ◌^◌, ◌≤◌, ◌<◌, ◌≡◌, ◌∙◌, ap, subst, refl, ◌⊎◌, inl, inr, false, arith,
  if◌then◌else◌, int_div, rounds, ◌+w◌, ◌*w◌, ◌==◌,
}
use kernel_play.Prelude.Run.{Run, ok}
use kernel_play.Memory.{Memory}
use kernel_play.Memory.Fill.{inside}
use kernel_play.Heap.{
  Heap, heap_align_to_upper, heap_malloc_blocks, heap_malloc, new_entry,
  heap_mark_table_entries_taken, find_free_block_start,
}
use kernel_play.Heap.Mark.{mark-at}
use kernel_play.Heap.Search.{NoFit, Fit, find_free_block_start-Outcome}

-- Rounding up gives the least multiple of the block size that is no smaller, where the sum does
-- not wrap.
pub align_lem :
    (size : ℕ)
    → size ≤ 2 ^ 32 - 4096
    → (heap_align_to_upper size % 4096 ≡ 0)
      × (size ≤ heap_align_to_upper size)
      × (heap_align_to_upper size < size + 4096)
unfolding heap_align_to_upper
align_lem size h = ground arith

-- The number of blocks that a size takes.
abbrev pub blocks_for : ℕ → ℕ
blocks_for size = (size + 4095) / 4096

pub blocks_lem :
    (size : ℕ) → size ≤ 2 ^ 31 - 4096 → int_div (heap_align_to_upper size) 4096 ≡ blocks_for size
blocks_lem size h = ground (arith, align_lem size)

rounds_lem : (size : ℕ) → size ≤ 2 ^ 31 - 4096 → rounds (blocks_for size) ≡ blocks_for size
rounds_lem size h = ground arith

-- What a call that found the free entry `p` leaves: a pointer to its block, and the run of `n`
-- entries marked. Nothing else in memory changes.
pub record Granted (heap : Heap) (m : Memory) (n p ptr : ℕ) (m' : Memory) : Type 0 where
  pub fit : Fit m n heap.table.entries (heap.table.entries + heap.table.size) p
  pub pointer : ptr ≡ heap.start_addr +w (p - heap.table.entries) *w 4096
  pub marked : (a : ℕ) → m' a ≡ (if inside a p n then new_entry p (p + n) a else m a)

abbrev pub Refused : Heap → Memory → ℕ → ℕ → Memory → Type 0
Refused heap m n ptr m' =
    (ptr ≡ 0) × (m' ≡ m) × NoFit m n heap.table.entries (heap.table.entries + heap.table.size)

malloc_blocks-null :
    (heap : Heap) (m : Memory) (blocks : ℕ)
    → find_free_block_start heap m blocks ≡ ok 0
    → heap_malloc_blocks heap m blocks ≡ ok (0, m)
unfolding heap_malloc_blocks
malloc_blocks-null heap m blocks e = rw e

malloc_blocks-found :
    (heap : Heap) (m : Memory) (blocks p : ℕ)
    → find_free_block_start heap m blocks ≡ ok p
    → 0 < p
    → heap_malloc_blocks heap m blocks
      ≡ ok (
        heap.start_addr +w (p - heap.table.entries) *w 4096,
        heap_mark_table_entries_taken m p blocks,
      )
unfolding heap_malloc_blocks
malloc_blocks-found heap m blocks p e h = let ne : (p == 0) ≡ false = ground arith in rw (e, ne)

-- A request for `n` blocks ends: it is refused, or granted at an entry of the table.
abbrev pub Answer : Heap → Memory → ℕ → Run (ℕ × Memory) → Type 0
Answer heap m n run =
    (ptr : ℕ) × (m' : Memory) × (run ≡ ok (ptr, m'))
    × (Refused heap m n ptr m' ⊎ ((p : ℕ) × Granted heap m n p ptr m'))

malloc_blocks-Answer :
    (heap : Heap) (m : Memory) (blocks : ℕ)
    → 0 < rounds blocks
    → 0 < heap.table.entries
    → Answer heap m (rounds blocks) (heap_malloc_blocks heap m blocks)
malloc_blocks-Answer heap m blocks pos placed =
    let (p, run, out) = find_free_block_start-Outcome heap m blocks pos in
    elim out [
      | inl (e, none_left) ↦
          (0, m, malloc_blocks-null heap m blocks (run ∙ ap ok e), inl (refl, refl, none_left))
      | inr fit ↦ (
        _,
        _,
        malloc_blocks-found heap m blocks p run (omega (arith, fit.above)),
        inr (p, record { fit = fit; pointer = refl; marked = mark-at m p blocks }),
      )
    ]

-- `heap_malloc` of a size from 1 byte up to 2 GiB less a block returns: either no entry of the
-- table starts enough free ones, and the pointer is null and memory is unchanged; or it takes the
-- first entry that does, the pointer is to that entry's block, and exactly that run of entries is
-- written.
pub malloc_first_fit :
    (heap : Heap) (m : Memory) (size : ℕ)
    → 0 < size
    → size ≤ 2 ^ 31 - 4096
    → 0 < heap.table.entries
    → Answer heap m (blocks_for size) (heap_malloc heap m size)
unfolding heap_malloc
malloc_first_fit heap m size pos small placed =
    let count = rounds_lem size small in
    rw (blocks_lem size small) (
      subst (λ n. Answer heap m n (heap_malloc_blocks heap m (blocks_for size))) count
        (malloc_blocks-Answer heap m (blocks_for size) (omega (arith, count)) placed))
