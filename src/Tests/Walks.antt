-- ===== src/Tests/Walks.antt =====
-- The path "0:/SUB/X": the directory SUB of Lookups starts with a 0 byte, so it is empty.
use kernel_play.Prelude.{ℕ, ◌≡◌, refl, List, [], ◌∷◌, ◌++◌, none, some, Option}
use kernel_play.Prelude.Run.{Run, ok, fault, out_of_fuel}
use kernel_play.Memory.{Memory, memset, write}
use kernel_play.Heap.{
  kheap_zalloc, heap_malloc, heap_malloc_blocks, heap_align_to_upper, find_free_block_start,
  find_from, find_next_free_block, is_free_block, is_free_blocks, is_free_run,
  heap_mark_table_entries_taken, mark_from, new_entry, heap_free, free_from,
  heap_table_entry_has_next,
}
use kernel_play.Disk.{
  Drive, disk_streamer_seek_pos, disk_streamer_read_bytes, read_bytes_fuel, copy_out,
  disk_read_sector, read_from_disk, read_command, read_words,
}
use kernel_play.PathParser.{PathPart}
use kernel_play.Text.{tolower, store, load, istrncmp, istrncmp_from, order_of}
use kernel_play.Fat.Layout.{FatPrivate, FatDirectory, FatItem, directory, items_of, item_of}
use kernel_play.Fat.Clusters.{
  cluster_to_sector, get_first_cluster, read_internal, read_internal_from_stream, read_clusters,
  get_cluster_for_offset, pass_clusters, cluster_size_in_bytes,
}
use kernel_play.Fat.Names.{get_full_relative_filename, to_proper_string}
use kernel_play.Fat.Directory.{
  find_item, new_fat_item, load_fat_directory, get_total_items_for_directory, count_items,
  get_item_in_directory, fat_item_free, directory_free,
}
use kernel_play.Fat.File.{get_directory_entry}
use kernel_play.Fat.Walk.{Place, arrived, missing_component}
use kernel_play.Tests.Heaps.{heap, zeros}
use kernel_play.Prelude.Codes.{codes}
use kernel_play.Tests.Drives.{ata}
use kernel_play.Tests.Lookups.{fp}

abbrev drive : Drive
drive = ata (λ a. 0)

abbrev part : List ℕ → PathPart
part name = record { addr = 0; name_addr = 0; name = name }

abbrev private_of : Run (Option (ℕ × FatItem) × FatPrivate × Memory) → FatPrivate
private_of (ok r) = r.1
private_of fault = fp
private_of out_of_fuel = fp

abbrev memory_of : Run (Option (ℕ × FatItem) × FatPrivate × Memory) → Memory
memory_of (ok r) = r.2
memory_of fault = zeros
memory_of out_of_fuel = zeros

abbrev freed_of : Run Memory → Memory
freed_of (ok m) = m
freed_of fault = zeros
freed_of out_of_fuel = zeros

abbrev first_run : Run (Option (ℕ × FatItem) × FatPrivate × Memory)
first_run =
    get_item_in_directory drive 512 4 heap zeros fp fp.root_directory (codes "SUB" ++ 0 ∷ [])

abbrev found_of : Run (Option (ℕ × FatItem) × FatPrivate × Memory) → Option (ℕ × FatItem)
found_of (ok r) = r.0
found_of fault = none
found_of out_of_fuel = none

abbrev empty_directory : FatDirectory
empty_directory = record {
  items_addr = 12288;
  item = [];
  total = 0;
  sector_pos = 5;
  ending_sector_pos = 5;
}

found :
    first_run
    ≡ ok (
      some (4096, directory 8192 (some empty_directory)),
      private_of first_run,
      memory_of first_run,
    )
unfolding get_item_in_directory find_item get_full_relative_filename to_proper_string store load
    istrncmp istrncmp_from tolower order_of new_fat_item load_fat_directory
    get_total_items_for_directory count_items disk_streamer_seek_pos disk_streamer_read_bytes
    read_bytes_fuel copy_out disk_read_sector read_from_disk read_command read_words items_of
    item_of cluster_to_sector get_first_cluster read_internal read_internal_from_stream
    read_clusters get_cluster_for_offset pass_clusters cluster_size_in_bytes kheap_zalloc
    heap_malloc heap_malloc_blocks heap_align_to_upper find_free_block_start find_from
    find_next_free_block is_free_block is_free_blocks is_free_run heap_mark_table_entries_taken
    mark_from new_entry write memset
found = refl

abbrev second_run : Run (Option (ℕ × FatItem) × FatPrivate × Memory)
second_run =
    get_item_in_directory drive 512 4 heap (memory_of first_run) (private_of first_run)
      empty_directory (codes "X" ++ 0 ∷ [])

missing : second_run ≡ ok (none, private_of first_run, memory_of first_run)
unfolding get_item_in_directory find_item
missing = refl

abbrev freed_run : Run Memory
freed_run = fat_item_free heap (memory_of first_run) 4096 (directory 8192 (some empty_directory))

freed : freed_run ≡ ok (freed_of freed_run)
unfolding fat_item_free directory_free heap_free free_from heap_table_entry_has_next
    get_item_in_directory find_item get_full_relative_filename to_proper_string store load istrncmp
    istrncmp_from tolower order_of new_fat_item load_fat_directory get_total_items_for_directory
    count_items disk_streamer_seek_pos disk_streamer_read_bytes read_bytes_fuel copy_out
    disk_read_sector read_from_disk read_command read_words items_of item_of cluster_to_sector
    get_first_cluster read_internal read_internal_from_stream read_clusters get_cluster_for_offset
    pass_clusters cluster_size_in_bytes kheap_zalloc heap_malloc heap_malloc_blocks
    heap_align_to_upper find_free_block_start find_from find_next_free_block is_free_block
    is_free_blocks is_free_run heap_mark_table_entries_taken mark_from new_entry write memset
freed = refl

abbrev in_sub : Place
in_sub = record {
  addr = 4096;
  item = directory 8192 (some empty_directory);
  fp = private_of first_run;
  memory = memory_of first_run;
}

missing_component_example :
    (get_directory_entry drive 512 4 heap zeros fp (part (codes "SUB") ∷ [])
      ≡ ok (some (in_sub.addr, in_sub.item), in_sub.fp, in_sub.memory))
    × (get_directory_entry drive 512 4 heap zeros fp (part (codes "SUB") ∷ part (codes "X") ∷ [])
        ≡ ok (none, private_of first_run, freed_of freed_run))
    × (get_directory_entry drive 512 4 heap zeros fp
          (part (codes "SUB") ∷ part (codes "X") ∷ part (codes "Y") ∷ [])
        ≡ fault)
missing_component_example =
    missing_component drive 512 4 heap zeros (memory_of first_run) (freed_of freed_run) fp
      (private_of first_run) in_sub in_sub 8192 empty_directory (part (codes "SUB"))
      (part (codes "X")) (part (codes "Y")) [] [] found arrived refl missing freed
