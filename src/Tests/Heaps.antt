-- ===== src/Tests/Heaps.antt =====
-- A heap of four blocks, whose table stands at address 100 and whose blocks start at 4096, in a
-- memory of zeros.
use kernel_play.Prelude.{ℕ, suc, ◌+◌, ◌≤◌, ◌≡◌, ◌⊎◌, refl, arith, false}
use kernel_play.Prelude.Run.{ok}
use kernel_play.Memory.{Memory, write}
use kernel_play.Heap.{
  Heap, heap_malloc, heap_free, heap_malloc_blocks, heap_align_to_upper, find_free_block_start,
  find_from, find_next_free_block, is_free_block, is_free_blocks, is_free_run,
  heap_mark_table_entries_taken, heap_table_entry_has_next, mark_from, new_entry,
}
use kernel_play.Heap.Table.{FreeRun}
use kernel_play.Heap.Mark.{mark-at}
use kernel_play.Heap.Malloc.{Granted, Answer, blocks_for, malloc_first_fit}
use kernel_play.Heap.Release.{Chain, Cleared, heap_free-Cleared}
use kernel_play.Heap.Lifetime.{Placed, malloc-malloc_disjoint, free_leaks_last}

abbrev pub heap : Heap
heap = record { table = record { entries = 100; size = 4 }; start_addr = 4096 }

abbrev pub zeros : Memory
zeros a = 0

abbrev taken : ℕ → Memory
taken n = heap_mark_table_entries_taken zeros 100 n

placed : Placed heap
placed = omega arith

-- The grant of the first `n` blocks.
Granted-one : Granted heap zeros 1 100 4096 (taken 1)
unfolding is_free_block
Granted-one = record {
  fit = record {
    above = omega arith;
    below = omega arith;
    free = λ i lt. refl;
    first = λ q h k. absurd (omega arith);
  };
  pointer = refl;
  marked = mark-at zeros 100 1;
}

Granted-two : Granted heap zeros 2 100 4096 (taken 2)
unfolding is_free_block
Granted-two = record {
  fit = record {
    above = omega arith;
    below = omega arith;
    free = λ i lt. refl;
    first = λ q h k. absurd (omega arith);
  };
  pointer = refl;
  marked = mark-at zeros 100 2;
}

first_call : heap_malloc heap zeros 5000 ≡ ok (4096, taken 2)
unfolding heap_malloc heap_malloc_blocks heap_align_to_upper find_free_block_start find_from
    find_next_free_block is_free_block is_free_blocks is_free_run
first_call = refl

second_call :
    heap_malloc heap (taken 2) 4096 ≡ ok (12288, heap_mark_table_entries_taken (taken 2) 102 1)
unfolding heap_malloc heap_malloc_blocks heap_align_to_upper find_free_block_start find_from
    find_next_free_block is_free_block is_free_blocks is_free_run heap_mark_table_entries_taken
    mark_from new_entry write
second_call = refl

malloc_first_fit_example : Answer heap zeros (blocks_for 5000) (heap_malloc heap zeros 5000)
malloc_first_fit_example =
    malloc_first_fit heap zeros 5000 (omega arith) (omega arith) (omega arith)

malloc-malloc_disjoint_example :
    (p : ℕ) × (q : ℕ) × Granted heap zeros (blocks_for 5000) p 4096 (taken 2)
    × Granted heap
        (taken 2)
        (blocks_for 4096)
        q
        12288
        (heap_mark_table_entries_taken (taken 2) 102 1)
    × ((p + blocks_for 5000 ≤ q) ⊎ (q + blocks_for 4096 ≤ p))
malloc-malloc_disjoint_example =
    malloc-malloc_disjoint heap zeros 5000 4096 4096 12288 (taken 2)
      (heap_mark_table_entries_taken (taken 2) 102 1) (omega arith) (omega arith) (omega arith)
      (omega arith) (omega arith) first_call (omega arith) second_call (omega arith)

free_leaks_last_example :
    (m'' : Memory) × (heap_free heap (taken 2) 4096 ≡ ok m'')
    × FreeRun m'' 100 (suc 0)
    × (is_free_block m'' (100 + suc 0) ≡ false)
free_leaks_last_example = free_leaks_last placed 0 Granted-two (omega arith)

pub alone : Chain zeros 101 0
unfolding heap_table_entry_has_next
alone = record { linked = λ i h k. absurd (omega arith); stops = refl }

heap_free-Cleared_example :
    (m' : Memory) × (heap_free heap zeros 8192 ≡ ok m') × Cleared zeros 101 0 8192 m'
heap_free-Cleared_example =
    heap_free-Cleared heap zeros 1 0 101 8192 (omega arith) (omega arith) (omega arith)
      (omega arith) (omega arith) (omega arith) alone
