-- ===== src/Tests/Overruns.antt =====
-- A table of four entries whose first three are taken, with zeros behind it.
use kernel_play.Prelude.{ℕ, ◌+◌, ◌≡◌, ◌≤◌, ◌<◌, false, arith, if◌then◌else◌, ltb, ◌&&◌, leb}
use kernel_play.Prelude.Run.{ok}
use kernel_play.Memory.{Memory}
use kernel_play.Heap.{heap_malloc, is_free_block}
use kernel_play.Heap.Table.{is_free_block-even}
use kernel_play.Heap.Malloc.{Granted, blocks_for}
use kernel_play.Heap.Overrun.{malloc_overrun}
use kernel_play.Tests.Heaps.{heap}

abbrev nearly_full : Memory
nearly_full a = if leb 100 a && ltb a 103 then 1 else 0

taken : (a : ℕ) → 100 ≤ a → a + 1 < 100 + 4 → is_free_block nearly_full a ≡ false
taken a le lt = ground (arith, is_free_block-even nearly_full a)

malloc_overrun_example :
    (p : ℕ) × (ptr : ℕ) × (m' : Memory) × (heap_malloc heap nearly_full 8192 ≡ ok (ptr, m'))
    × Granted heap nearly_full (blocks_for 8192) p ptr m'
    × (p + 1 ≡ 100 + 4)
    × (100 + 4 < p + blocks_for 8192)
malloc_overrun_example =
    malloc_overrun heap nearly_full 8192 (omega arith) (omega arith) (omega arith) (omega arith)
      taken (λ i lt. ground (arith, is_free_block-even nearly_full (103 + i)))
