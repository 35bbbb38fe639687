-- ===== src/Tests/Opens.antt =====
-- Opening "0:/a" for reading in an empty table and reading through the number.
use kernel_play.Prelude.{ℕ, ◌≡◌, refl, List, [], ◌∷◌, ◌++◌, arith}
use kernel_play.Prelude.Run.{Run, ok, fault, out_of_fuel}
use kernel_play.Memory.{Memory, memset}
use kernel_play.Heap.{
  kheap_zalloc, heap_malloc, heap_malloc_blocks, heap_align_to_upper, find_free_block_start,
  find_from, find_next_free_block, is_free_block, is_free_blocks, is_free_run,
  heap_mark_table_entries_taken, mark_from, new_entry,
}
use kernel_play.Memory.{write}
use kernel_play.Text.{
  strlen, strlen_terminator, strncmp, strncmp_from, is_digit, char_to_numeric, load, store,
}
use kernel_play.Memory.{memcmp}
use kernel_play.PathParser.{
  PathRoot, parse_drive_no, validate_start_of_path, split_name, parse_path_parts, parse_path_root,
}
use kernel_play.Files.{Files, fopen, fread, get_file_mode, first_free, fs_init}
use kernel_play.Files.Lifecycle.{Opening, fopen-fread}
use kernel_play.Tests.Heaps.{heap, zeros}
use kernel_play.Prelude.Codes.{codes}
use kernel_play.Tests.Files.{numbers, fresh, fresh-IsTable}

abbrev m0 : Memory
m0 = memset (heap_mark_table_entries_taken zeros 100 1) 4096 0 8

abbrev path : List ℕ
path = codes "0:/a" ++ 0 ∷ []

abbrev parsed_run : Run (ℕ × PathRoot × Memory)
parsed_run = parse_path_root heap m0 path (record { drive_no = 0; parts = [] })

abbrev pub parsed_memory : Run (ℕ × PathRoot × Memory) → Memory
parsed_memory (ok r) = r.2
parsed_memory fault = zeros
parsed_memory out_of_fuel = zeros

abbrev pub given_memory : Run (ℕ × Memory) → Memory
given_memory (ok r) = r.1
given_memory fault = zeros
given_memory out_of_fuel = zeros

abbrev m1 : Memory
m1 = parsed_memory parsed_run

-- The heap has room for the root, the part, the name and the descriptor.
opening : Opening numbers heap fresh path (b'r' ∷ 0 ∷ []) 7 8 0
unfolding fs_init first_free get_file_mode strncmp strncmp_from parse_path_root parse_path_parts
    split_name validate_start_of_path parse_drive_no strlen strlen_terminator is_digit
    char_to_numeric memcmp load store kheap_zalloc heap_malloc heap_malloc_blocks
    heap_align_to_upper find_free_block_start find_from find_next_free_block is_free_block
    is_free_blocks is_free_run heap_mark_table_entries_taken mark_from new_entry write memset
opening = record {
  root = 4096;
  part = record { addr = 8192; name_addr = 12288; name = codes "a" };
  rest = [];
  mode = 0;
  addr = 16384;
  m0 = m0;
  m1 = m1;
  m2 = m1;
  m3 = given_memory (kheap_zalloc heap m1 16);
  root_given = refl;
  root_some = omega arith;
  parsed = refl;
  mounted = refl;
  mode_read = refl;
  mode_known = omega arith;
  found = refl;
  free = refl;
  given = refl;
  given_some = omega arith;
}

fopen-fread_example :
    (after : Files ℕ ℕ) × (fopen numbers heap fresh path (b'r' ∷ 0 ∷ []) ≡ ok (1, after))
    × (fread numbers heap after 4 2 1 ≡ ok (2, 7 ∷ 7 ∷ 7 ∷ 7 ∷ [], record after { state = 8 }))
fopen-fread_example =
    fopen-fread numbers heap fresh path (b'r' ∷ 0 ∷ []) 7 8 8 0 4 2 2 (7 ∷ 7 ∷ 7 ∷ 7 ∷ [])
      fresh-IsTable (omega arith) opening (omega arith) (omega arith) refl
