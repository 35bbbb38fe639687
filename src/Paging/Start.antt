-- ===== src/Paging/Start.antt =====
-- The kernel's own heap behind kheap_init, and the tables that paging_new_4gb builds on it.
use kernel_play.Prelude.{ℕ, ◌+◌, ◌^◌, ◌≤◌, ◌<◌, ◌≡◌, ◌%◌, some, refl, ◌∙◌, arith, true}
use kernel_play.Prelude.Run.{ok}
use kernel_play.Memory.{Memory, memset}
use kernel_play.Memory.Fill.{inside, memset-at}
use kernel_play.Heap.{Heap, kheap_init, heap_create, validate_alignment}
use kernel_play.Heap.Table.{is_free_block-even}
use kernel_play.Heap.Singles.{Singles, upto}
use kernel_play.Paging.{paging_new_4gb, paging_4gb_chunk_get_directory}
use kernel_play.Paging.Walk.{translate}
use kernel_play.Paging.Pages.{IsPaged, HasRoom}
use kernel_play.Paging.Whole.{paging_new_4gb-identity}

-- The heap of config.h: 25600 blocks from 16 MiB on, with the table at 0x7E00.
abbrev pub kernel_heap : Heap
kernel_heap = record { table = record { entries = 0x7E00; size = 25600 }; start_addr = 0x01000000 }

abbrev pub cleared_table : Memory → Memory
cleared_table m = memset m 0x7E00 0 25600

pub kernel_heap-IsPaged : IsPaged kernel_heap
kernel_heap-IsPaged = record {
  placed = record { apart = omega arith; low = omega arith };
  some_table = omega arith;
  aligned = refl;
}

pub init_run : (m : Memory) → kheap_init m ≡ ok (0, kernel_heap, cleared_table m)
unfolding kheap_init heap_create validate_alignment
init_run m = refl

-- The table that `kheap_init` leaves is empty.
pub init-Singles : (m : Memory) → Singles kernel_heap (cleared_table m) (upto 0)
init-Singles m = record {
  marks = λ i lt.
      let within : inside (0x7E00 + i) 0x7E00 25600 ≡ true = ground arith in
      let cell = memset-at m 0x7E00 0 25600 (0x7E00 + i) in ground (arith, cell, within);
}

init-HasRoom : (m : Memory) (n : ℕ) → n ≤ 25600 → HasRoom kernel_heap (cleared_table m) n
init-HasRoom m n few = record {
  start = 0x7E00;
  above = omega arith;
  below = omega arith;
  free = λ i lt.
      let at = 0x7E00 + i in
      let within : inside at 0x7E00 25600 ≡ true = ground arith in
      let zero_byte : cleared_table m at ≡ 0 = memset-at m 0x7E00 0 25600 at ∙ rw within refl in
      ground (arith, is_free_block-even (cleared_table m) at, zero_byte);
}

-- From any memory `kheap_init` succeeds with every block free, and `paging_new_4gb` on that heap
-- then goes through for any flags that have the PRESENT bit: its directory translates every 32-bit
-- address to itself.
pub kheap_init-paging_new_4gb :
    (m : Memory) (flags : ℕ)
    → flags < 256
    → flags % 2 ≡ 1
    → (heap : Heap) × (m1 : Memory) × (chunk : ℕ) × (m2 : Memory) × (kheap_init m
        ≡ ok (0, heap, m1))
      × HasRoom heap m1 25600
      × (paging_new_4gb heap m1 flags ≡ ok (chunk, m2))
      × ((va : ℕ)
          → va < 2 ^ 32
          → translate m2 (paging_4gb_chunk_get_directory m2 chunk) va ≡ some va)
kheap_init-paging_new_4gb m flags small present =
    let (chunk, m2, run, identity) =
      paging_new_4gb-identity kernel_heap kernel_heap-IsPaged (cleared_table m) flags small present
        (init-HasRoom m 1026 (omega arith)) in
    (
      kernel_heap,
      cleared_table m,
      chunk,
      m2,
      init_run m,
      init-HasRoom m 25600 (omega arith),
      run,
      identity,
    )
