-- ===== src/Tests/Sessions.antt =====
-- A session: two blocks, one block, a store into a block, and the release of the two.
use kernel_play.Prelude.{refl, [], ◌∷◌, arith, inl}
use kernel_play.Prelude.Run.{Run, ok, fault, out_of_fuel}
use kernel_play.Memory.{Memory, write, memset}
use kernel_play.Heap.{
  heap_malloc, heap_malloc_blocks, heap_align_to_upper, find_free_block_start, find_from, heap_free,
  free_from, find_next_free_block, is_free_block, is_free_blocks, is_free_run,
  heap_mark_table_entries_taken, mark_from, new_entry, heap_table_entry_has_next,
}
use kernel_play.Heap.Lifetime.{Placed}
use kernel_play.Heap.Session.{Live, State, allocate, store, release, Reach, start, next, IsKept}
use kernel_play.Heap.Kept.{Reach-IsKept}
use kernel_play.Tests.Heaps.{heap, zeros}

abbrev two : Live
two = record { entry = 100; count = 2 }

abbrev one : Live
one = record { entry = 102; count = 1 }

abbrev m1 : Memory
m1 = heap_mark_table_entries_taken zeros 100 2

abbrev m2 : Memory
m2 = heap_mark_table_entries_taken m1 102 1

abbrev m3 : Memory
m3 = write m2 5000 7

abbrev freed_of : Run Memory → Memory
freed_of (ok m) = m
freed_of fault = zeros
freed_of out_of_fuel = zeros

abbrev m4 : Memory
m4 = freed_of (heap_free heap m3 4096)

abbrev last_state : State
last_state = record { memory = m4; live = one ∷ [] }

reached : Reach heap (record { memory = zeros; live = [] }) last_state
unfolding heap_malloc heap_malloc_blocks heap_align_to_upper find_free_block_start find_from
    find_next_free_block is_free_block is_free_blocks is_free_run heap_mark_table_entries_taken
    mark_from new_entry write memset heap_free free_from heap_table_entry_has_next
reached =
    next
      (next
        (next
          (next start (
            allocate 5000 4096 two m1 (omega arith) (omega arith) refl (omega arith) refl refl
              (omega arith) (omega arith) refl))
          (allocate 4096 12288 one m2 (omega arith) (omega arith) refl (omega arith) refl refl
            (omega arith) (omega arith) refl))
        (store 5000 7 (omega arith) refl))
      (release (one ∷ []) [] two m4 refl (inl (omega arith)) refl refl)

placed : Placed heap
placed = omega arith

Reach-IsKept_example : IsKept heap last_state
Reach-IsKept_example = Reach-IsKept placed zeros last_state (omega arith) reached
