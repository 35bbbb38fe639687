-- ===== src/Heap/Overrun.antt =====
-- A request at the end of the table: is_free_blocks compares the start of the run with the end of
-- the table, and not its end.
use kernel_play.Prelude.{ℕ, ◌+◌, ◌-◌, ◌^◌, ◌≤◌, ◌<◌, ◌≡◌, inl, inr, false, arith, dec_lt}
use kernel_play.Prelude.Run.{ok}
use kernel_play.Memory.{Memory}
use kernel_play.Heap.{Heap, heap_malloc, is_free_block}
use kernel_play.Heap.Table.{FreeRun}
use kernel_play.Heap.Search.{taken-no_fit}
use kernel_play.Heap.Malloc.{Granted, blocks_for, malloc_first_fit}

-- Where the last entry alone of a table is free, and the bytes behind the table look free too, a
-- request for two or more blocks is granted at the last entry: the run goes past the table's end.
pub malloc_overrun :
    (heap : Heap) (m : Memory) (size : ℕ)
    → 4096 < size
    → size ≤ 2 ^ 31 - 4096
    → 0 < heap.table.entries
    → 0 < heap.table.size
    → ((a : ℕ)
        → heap.table.entries ≤ a
        → a + 1 < heap.table.entries + heap.table.size
        → is_free_block m a ≡ false)
    → FreeRun m (heap.table.entries + heap.table.size - 1) (blocks_for size)
    → (p : ℕ) × (ptr : ℕ) × (m' : Memory) × (heap_malloc heap m size ≡ ok (ptr, m'))
      × Granted heap m (blocks_for size) p ptr m'
      × (p + 1 ≡ heap.table.entries + heap.table.size)
      × (heap.table.entries + heap.table.size < p + blocks_for size)
malloc_overrun heap m size many small placed some_entries taken run =
    let (ptr, m', called, answer) = malloc_first_fit heap m size (omega arith) small placed in
    elim answer [
      | inl (_, _, none_fits) ↦
          absurd
            (none_fits (heap.table.entries + heap.table.size - 1) (omega arith) (omega arith) run)
      | inr (p, g) ↦
          let at : p + 1 ≡ heap.table.entries + heap.table.size =
            elim (dec_lt (p + 1) (heap.table.entries + heap.table.size)) [
              | no past ↦ omega (arith, g.fit.below)
              | yes before ↦ absurd (
                  taken-no_fit m p (blocks_for size) (omega arith) (taken p g.fit.above before)
                    g.fit.free)
            ] in
          (p, ptr, m', called, g, at, omega arith)
    ]
