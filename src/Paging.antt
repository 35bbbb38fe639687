-- ===== src/Paging.antt =====
-- memory/paging/paging.c: the tables that map pages, as 32-bit words in memory.
pub mod Words
pub mod Walk
pub mod Identity
pub mod Pages
pub mod Tables
pub mod Whole
pub mod Blocks
pub mod Start
use kernel_play.Prelude.{
  ℕ, zero, suc, ◌+◌, ◌*◌, ◌/◌, ◌%◌, ◌==◌, Bool, not, bit_and, bit_or, if◌then◌else◌, ◌+w◌, ◌*w◌,
}
use kernel_play.Prelude.Run.{Run, ok, fault, ◌>>=◌}
use kernel_play.Config.{einvarg}
use kernel_play.Memory.{Memory, write}
use kernel_play.Heap.{Heap, kheap_zalloc}

abbrev pub total_entries_per_table : ℕ
total_entries_per_table = 1024

abbrev pub page_size : ℕ
page_size = 4096

abbrev pub is_writable : ℕ
is_writable = 2

abbrev pub access_from_all : ℕ
access_from_all = 4

abbrev pub is_present : ℕ
is_present = 1

abbrev pub address_mask : ℕ
address_mask = 0xFFFFF000

-- A little-endian word at an address.
unfoldable pub read_word : Memory → ℕ → ℕ
read_word m p = m p + 256 * m (p + 1) + 65536 * m (p + 2) + 16777216 * m (p + 3)

unfoldable pub write_word : Memory → ℕ → ℕ → Memory
write_word m p v =
    write (write (write (write m p (v % 256)) (p + 1) (v / 256 % 256)) (p + 2) (v / 65536 % 256))
      (p + 3) (v / 16777216 % 256)

-- The inner loop of `paging_new_4gb` from the index `j` on, over the entries that are left.
unfoldable pub fill_table : Memory → ℕ → ℕ → ℕ → ℕ → ℕ → Memory
fill_table m table offset flags j zero = m
fill_table m table offset flags j (suc n) =
    let m' = write_word m (table + 4 * j) (bit_or (offset +w j *w page_size) flags) in
    fill_table m' table offset flags (j + 1) n

-- The outer loop from the index `i` on, over the tables that are left.
unfoldable pub fill_directory : Heap → Memory → ℕ → ℕ → ℕ → ℕ → ℕ → Run Memory
fill_directory heap m directory offset flags i zero = ok m
fill_directory heap m directory offset flags i (suc n) = do
  (table, m') ← kheap_zalloc heap m (total_entries_per_table * 4)
  if (table == 0)
      then fault
      else if (directory == 0)
      then fault
      else (let filled = fill_table m' table offset flags 0 total_entries_per_table in
          fill_directory heap
            (write_word filled (directory + 4 * i) (bit_or (bit_or table flags) is_writable))
            directory (offset +w page_size *w total_entries_per_table) flags (i + 1) n)

-- `paging_new_4gb`: the address of the chunk, whose one field is the directory's address.
unfoldable pub paging_new_4gb : Heap → Memory → ℕ → Run (ℕ × Memory)
paging_new_4gb heap m flags = do
  (directory, m1) ← kheap_zalloc heap m (total_entries_per_table * 4)
  m2 ← fill_directory heap m1 directory 0 flags 0 total_entries_per_table
  (page_chunk, m3) ← kheap_zalloc heap m2 4
  if page_chunk == 0 then fault else ok (page_chunk, write_word m3 page_chunk directory)

unfoldable pub paging_4gb_chunk_get_directory : Memory → ℕ → ℕ
paging_4gb_chunk_get_directory m chunk = read_word m chunk

-- `paging_switch`: the directory that the processor gets, and `current_directory`.
unfoldable pub paging_switch : ℕ → ℕ × ℕ
paging_switch directory = (directory, directory)

unfoldable pub paging_is_address_aligned : ℕ → Bool
paging_is_address_aligned address = address % page_size == 0

unfoldable pub paging_set_value : Memory → ℕ → ℕ → ℕ → ℕ × Memory
paging_set_value m directory virtual_address table_entry =
    if not (paging_is_address_aligned virtual_address)
    then (einvarg, m)
    else let table_total = total_entries_per_table * page_size in
      let directory_entry = read_word m (directory + 4 * (virtual_address / table_total)) in
      let table = bit_and directory_entry address_mask in
      (0, write_word m (table + 4 * (virtual_address % table_total / page_size)) table_entry)
