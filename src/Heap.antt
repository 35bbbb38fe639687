-- ===== src/Heap.antt =====
-- memory/heap/heap.c and memory/heap/kheap.c: a heap of 4096-byte blocks with a table of one byte
-- for each block. The table and the blocks lie in the machine's memory, so a scan that leaves the
-- table reads the bytes that stand behind it, as the code does.
pub mod Table
pub mod Search
pub mod Mark
pub mod Malloc
pub mod Release
pub mod Lifetime
pub mod Session
pub mod Held
pub mod Kept
pub mod Overrun
pub mod Singles
pub mod Below
use kernel_play.Prelude.{
  ℕ, zero, suc, ◌+◌, ◌-◌, ◌*◌, ◌/◌, ◌%◌, Bool, true, false, ◌&&◌, ◌||◌, not, bit_and, bit_or, ltb,
  leb, ◌==◌, if◌then◌else◌, word, ◌-w◌, ◌*w◌, ◌+w◌, int_div, rounds,
}
use kernel_play.Prelude.Run.{Run, ok, fault, out_of_fuel, ◌>>=◌}
use kernel_play.Config.{
  kernel_heap_block_size, kernel_heap_size, kernel_heap_address, kernel_heap_table_address, einvarg,
}
use kernel_play.Memory.{Memory, write, memset}

-- `heap_table_t` and `heap_t`.
pub record HeapTable : Type 0 where
  pub entries : ℕ
  pub size : ℕ

pub record Heap : Type 0 where
  pub table : HeapTable
  pub start_addr : ℕ

abbrev pub entry_take : ℕ
entry_take = 0x01

abbrev pub entry_free : ℕ
entry_free = 0x00

abbrev pub has_next_flag : ℕ
has_next_flag = 0x80

abbrev pub is_first_flag : ℕ
is_first_flag = 0x40

unfoldable pub validate_alignment : ℕ → ℕ → Bool
validate_alignment ptr block_size = ptr % block_size == 0

-- A division by a block size of 0 is a fault.
unfoldable pub heap_create : ℕ → ℕ → ℕ → ℕ → Heap → Memory → Run (ℕ × Heap × Memory)
unfolding validate_alignment
heap_create heap_start table_start heap_size block_size heap m =
    if block_size == 0
    then fault
    else if not (validate_alignment heap_start block_size)
        || not (validate_alignment (heap_start +w heap_size) block_size)
    then ok (einvarg, heap, m)
    else ok (
      0,
      record {
        table = record { entries = table_start; size = heap_size / block_size };
        start_addr = heap_start;
      },
      memset m table_start entry_free (heap_size / block_size),
    )

unfoldable pub heap_align_to_upper : ℕ → ℕ
heap_align_to_upper val =
    let rem = val % kernel_heap_block_size in
    if rem == 0 then val else word (val + kernel_heap_block_size - rem)

unfoldable pub is_free_block : Memory → ℕ → Bool
is_free_block m entry = bit_and entry_take (m entry) == 0

-- The loop of `is_free_blocks`, over the blocks that are left.
unfoldable pub is_free_run : Memory → ℕ → ℕ → Bool
is_free_run m cur zero = true
is_free_run m cur (suc n) = is_free_block m cur && is_free_run m (cur + 1) n

unfoldable pub is_free_blocks : Memory → ℕ → ℕ → ℕ → Bool
is_free_blocks m cur_start blocks end =
    if leb end cur_start then false else is_free_run m cur_start (rounds blocks)

-- The last argument is the number of entries from `p` to the end of the table.
unfoldable pub find_next_free_block : Memory → ℕ → ℕ → ℕ
find_next_free_block m p zero = p
find_next_free_block m p (suc n) = elim (is_free_block m p) [
  | true ↦ p
  | false ↦ find_next_free_block m (p + 1) n
]

-- The loop of `find_free_block_start` on fuel. A null pointer is 0.
unfoldable pub find_from : Memory → ℕ → ℕ → ℕ → ℕ → Run ℕ
find_from m blocks end zero cur = out_of_fuel
find_from m blocks end (suc fuel) cur = elim (ltb cur end) [
  | false ↦ ok 0
  | true ↦ elim (is_free_blocks m cur blocks end) [
    | true ↦ ok cur
    | false ↦ find_from m blocks end fuel (find_next_free_block m (cur + 1) (end - (cur + 1)))
  ]
]

unfoldable pub find_free_block_start : Heap → Memory → ℕ → Run ℕ
find_free_block_start heap m blocks =
    let start = heap.table.entries in
    let size = heap.table.size in
    find_from m blocks (start + size) (size + 1) (find_next_free_block m start size)

-- The byte that `heap_mark_table_entries_taken` stores at `cur`.
unfoldable pub new_entry : ℕ → ℕ → ℕ → ℕ
new_entry start end cur =
    let first = if cur == start then bit_or entry_take is_first_flag else entry_take in
    if ltb cur (end - 1) then bit_or first has_next_flag else first

unfoldable pub mark_from : Memory → ℕ → ℕ → ℕ → ℕ → Memory
mark_from m start end cur zero = m
mark_from m start end cur (suc n) =
    mark_from (write m cur (new_entry start end cur)) start end (cur + 1) n

unfoldable pub heap_mark_table_entries_taken : Memory → ℕ → ℕ → Memory
heap_mark_table_entries_taken m start blocks =
    mark_from m start (start + rounds blocks) start (rounds blocks)

unfoldable pub heap_malloc_blocks : Heap → Memory → ℕ → Run (ℕ × Memory)
heap_malloc_blocks heap m blocks = do
  free_start ← find_free_block_start heap m blocks
  if free_start == 0
      then ok (0, m)
      else ok (
        heap.start_addr +w (free_start - heap.table.entries) *w kernel_heap_block_size,
        heap_mark_table_entries_taken m free_start blocks,
      )

unfoldable pub heap_malloc : Heap → Memory → ℕ → Run (ℕ × Memory)
heap_malloc heap m size =
    let aligned_size = heap_align_to_upper size in
    heap_malloc_blocks heap m (int_div aligned_size kernel_heap_block_size)

unfoldable pub heap_table_entry_has_next : Memory → ℕ → Bool
heap_table_entry_has_next m entry = ltb 0 (bit_and has_next_flag (m entry))

-- The do-while loop of `heap_free` on fuel.
unfoldable pub free_from : ℕ → Memory → ℕ → ℕ → Run Memory
free_from zero m entry cur_data_block = out_of_fuel
free_from (suc fuel) m entry cur_data_block =
    let m' = write (memset m cur_data_block 0 kernel_heap_block_size) entry entry_free in
    elim (heap_table_entry_has_next m' (entry + 1)) [
      | true ↦ free_from fuel m' (entry + 1) (cur_data_block + kernel_heap_block_size)
      | false ↦ ok m'
    ]

-- The fuel lets the scan pass once through the whole table.
unfoldable pub heap_free : Heap → Memory → ℕ → Run Memory
heap_free heap m ptr =
    let block_start = int_div (ptr -w heap.start_addr) kernel_heap_block_size in
    free_from (heap.table.size + 1) m (heap.table.entries +w block_start) ptr

-- The static `heap` and `heap_table` hold zeros before the call.
unfoldable pub kheap_init : Memory → Run (ℕ × Heap × Memory)
kheap_init m =
    heap_create kernel_heap_address kernel_heap_table_address kernel_heap_size
      kernel_heap_block_size
      (record {
        table = record {
          entries = kernel_heap_table_address;
          size = kernel_heap_size / kernel_heap_block_size;
        };
        start_addr = 0;
      })
      m

unfoldable pub kheap_zalloc : Heap → Memory → ℕ → Run (ℕ × Memory)
kheap_zalloc heap m size = do
  (ptr, m') ← heap_malloc heap m size
  if ptr == 0 then ok (ptr, m') else ok (ptr, memset m' ptr 0 size)

-- `kheap_malloc` and `kheap_free` are the calls on the one static heap.
abbrev pub kheap_malloc : Heap → Memory → ℕ → Run (ℕ × Memory)
kheap_malloc heap m size = heap_malloc heap m size

abbrev pub kheap_free : Heap → Memory → ℕ → Run Memory
kheap_free heap m ptr = heap_free heap m ptr
