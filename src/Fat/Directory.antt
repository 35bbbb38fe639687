-- ===== src/Fat/Directory.antt =====
-- The functions of fat16.c that count, load and search directories. `fuel` bounds the number of
-- entries that a scan of a directory reads; `Fat.Count` says what is enough.
use kernel_play.Prelude.{
  ℕ, zero, suc, ◌+◌, true, false, not, Option, none, some, List, bit_and, if◌then◌else◌, ◌==◌, ◌+w◌,
  ◌*w◌, int_div, int_mod, is_negative, rounds, get_elem?, get_or,
}
use kernel_play.Prelude.Run.{Run, ok, fault, out_of_fuel, ◌>>=◌}
use kernel_play.Config.{eio, enomem}
use kernel_play.Memory.{Memory}
use kernel_play.Heap.{Heap, kheap_zalloc, kheap_free}
use kernel_play.Text.{istrncmp}
use kernel_play.Disk.{Drive, Streamer, disk_streamer_seek_pos, disk_streamer_read_bytes}
use kernel_play.Fat.Layout.{
  FatPrivate, FatDirectory, DirectoryItem, FatItem, directory, file, items_of, size_of_item,
}
use kernel_play.Fat.Clusters.{cluster_to_sector, get_first_cluster, read_internal}
use kernel_play.Fat.Names.{get_full_relative_filename}

abbrev pub subdirectory_flag : ℕ
subdirectory_flag = 0x10

-- `kheap_free` of a directory and its items; a null pointer is left alone.
unfoldable pub directory_free : Heap → Memory → ℕ → Option FatDirectory → Run Memory
directory_free heap m addr none = if addr == 0 then ok m else fault
directory_free heap m addr (some dir) = do
  m' ← (if dir.items_addr == 0 then ok m else kheap_free heap m dir.items_addr)
  kheap_free heap m' addr

-- `fat16_fat_item_free` of the item at an address.
unfoldable pub fat_item_free : Heap → Memory → ℕ → FatItem → Run Memory
fat_item_free heap m addr (directory ptr dir) = do
  m' ← directory_free heap m ptr dir
  kheap_free heap m' addr
fat_item_free heap m addr (file ptr item) = do m' ← kheap_free heap m ptr; kheap_free heap m' addr

-- The loop of `fat16_get_item_in_directory` over the indices that are left: the item whose name
-- matches, or none. An index outside the array is a fault.
unfoldable pub find_item : List DirectoryItem → ℕ → ℕ → List ℕ → Run (Option DirectoryItem)
find_item items i zero path = ok none
find_item items i (suc n) path = elim (get_elem? items i) [
  | none ↦ fault
  | some item ↦ do
    tmp_filename ← get_full_relative_filename item 100
    order ← istrncmp tmp_filename path 100
    if order == 0 then ok (some item) else find_item items (i + 1) n path
]

module _ (drive : Drive) where
  -- The loop of `fat16_get_total_items_for_directory`: it has seen `count` items in use.
  unfoldable pub count_items : ℕ → Streamer → ℕ → Run (ℕ × Streamer)
  count_items zero stream count = out_of_fuel
  count_items (suc fuel) stream count = do
    (res, bytes, stream') ← disk_streamer_read_bytes drive stream size_of_item
    elim (res == 0) [
      | false ↦ ok (eio, stream')
      | true ↦
          let first = get_or bytes 0 0 in
          elim (first == 0x00) [
            | true ↦ ok (count, stream')
            | false ↦ count_items fuel stream' (if first == 0xE5 then count else count +w 1)
          ]
    ]

module _ (drive : Drive) (sector_size fuel : ℕ) where
  unfoldable pub get_total_items_for_directory : FatPrivate → ℕ → Run (ℕ × FatPrivate)
  get_total_items_for_directory fat_private dir_sector_pos = elim fat_private.directory_stream [
    | none ↦ fault
    | some stream ↦
        let (res, sought) = disk_streamer_seek_pos stream (sector_size *w dir_sector_pos) in
        if not (res == 0)
        then ok (eio, record fat_private { directory_stream = some sought })
        else do
          (count, stream') ← count_items drive fuel sought 0
          ok (count, record fat_private { directory_stream = some stream' })
  ]

  -- `fat16_get_root_directory`, which fills `root_directory` of the private data.
  unfoldable pub get_root_directory : Heap → Memory → FatPrivate → Run (ℕ × FatPrivate × Memory)
  get_root_directory heap m fat_private =
      let header = fat_private.header in
      let root_dir_sector_pos =
        (header.fat_copies *w header.sectors_per_fat) +w header.reserved_sectors in
      let root_dir_size = header.root_dir_entries *w size_of_item in
      let full_sectors = int_div root_dir_size sector_size in
      let total_sectors =
        if not (int_mod root_dir_size sector_size == 0) then full_sectors +w 1 else full_sectors in
      if sector_size == 0 then fault else do
        (total_items, fat_private') ← get_total_items_for_directory fat_private root_dir_sector_pos
        if is_negative total_items then ok (eio, fat_private', m) else do
          (root_dir_items, m') ← kheap_zalloc heap m root_dir_size
          if root_dir_items == 0
              then ok (enomem, fat_private', m')
              else elim fat_private'.directory_stream [
                | none ↦ fault
                | some stream ↦ do
                  let sought = disk_streamer_seek_pos stream (sector_size *w root_dir_sector_pos)
                  if not (sought.0 == 0)
                      then ok (eio, record fat_private' { directory_stream = some sought.1 }, m')
                      else do
                        (res, bytes, stream') ←
                            disk_streamer_read_bytes drive sought.1 root_dir_size
                        let moved : FatPrivate = record fat_private' {
                          directory_stream = some stream';
                        }
                        if not (res == 0)
                            then ok (eio, moved, m')
                            else ok (
                              0,
                              record moved {
                                root_directory = record {
                                  items_addr = root_dir_items;
                                  item = items_of bytes header.root_dir_entries;
                                  total = total_items;
                                  sector_pos = root_dir_sector_pos;
                                  ending_sector_pos = root_dir_sector_pos +w total_sectors;
                                };
                              },
                              m',
                            )
              ]

  -- `fat16_load_fat_directory`. After an error the directory is released, and the pointer to it is
  -- returned all the same.
  unfoldable pub load_fat_directory :
      Heap
      → Memory
      → FatPrivate
      → DirectoryItem
      → Run (ℕ × Option FatDirectory × FatPrivate × Memory)
  load_fat_directory heap m fat_private item =
      if bit_and item.attribute subdirectory_flag == 0 then ok (0, none, fat_private, m) else do
        (addr, m') ← kheap_zalloc heap m 16
        if addr == 0 then ok (0, none, fat_private, m') else do
          let cluster = get_first_cluster item
          let starting_sector = cluster_to_sector fat_private cluster
          (total, fp') ← get_total_items_for_directory fat_private starting_sector
          let size = total *w size_of_item
          (items_addr, m'') ← kheap_zalloc heap m' size
          if items_addr == 0
              then (do freed ← kheap_free heap m'' addr; ok (addr, none, fp', freed))
              else do
                (res, bytes, fp'') ← read_internal drive sector_size fp' cluster 0 size
                if not (res == 0)
                    then (do
                      freed ← kheap_free heap m'' items_addr
                      freed' ← kheap_free heap freed addr
                      ok (addr, none, fp'', freed'))
                    else if sector_size == 0
                    then fault
                    else (let full_sectors = int_div size sector_size in
                        let total_sectors =
                          if not (int_mod size sector_size == 0)
                          then full_sectors +w 1
                          else full_sectors in
                        let dir : FatDirectory = record {
                          items_addr = items_addr;
                          item = items_of bytes (rounds total);
                          total = total;
                          sector_pos = starting_sector;
                          ending_sector_pos = starting_sector +w total_sectors;
                        } in
                        ok (addr, some dir, fp'', m''))

  -- `fat16_new_fat_item_for_directory_item`, with `fat16_clone_directory_item`. No item is the null
  -- pointer.
  unfoldable pub new_fat_item :
      Heap → Memory → FatPrivate → DirectoryItem → Run (Option (ℕ × FatItem) × FatPrivate × Memory)
  new_fat_item heap m fat_private item = do
    (addr, m') ← kheap_zalloc heap m 8
    if addr == 0
        then ok (none, fat_private, m')
        else if not (bit_and item.attribute subdirectory_flag == 0)
        then (do
          (ptr, dir, fp', m'') ← load_fat_directory heap m' fat_private item
          ok (some (addr, directory ptr dir), fp', m''))
        else (do
          (copy, m'') ← kheap_zalloc heap m' size_of_item
          ok (some (addr, file copy (if copy == 0 then none else some item)), fat_private, m''))

  unfoldable pub get_item_in_directory :
      Heap
      → Memory
      → FatPrivate
      → FatDirectory
      → List ℕ
      → Run (Option (ℕ × FatItem) × FatPrivate × Memory)
  get_item_in_directory heap m fat_private dir path = do
    found ← find_item dir.item 0 (rounds dir.total) path
    elim found [
      | none ↦ ok (none, fat_private, m)
      | some item ↦ new_fat_item heap m fat_private item
    ]
