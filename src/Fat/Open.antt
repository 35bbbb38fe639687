-- ===== src/Fat/Open.antt =====
-- Opening a file of the root directory by its name, and reading what was opened.
use kernel_play.Prelude.{
  ℕ, suc, ◌*◌, ◌^◌, ◌≤◌, ◌<◌, ◌≡◌, ◌≢◌, refl, ap, ◌∙◌, List, [], ◌∷◌, arith, false, Option, none,
  some, length, take, ◌==◌, bit_and, rounds,
}
use kernel_play.Prelude.Run.{ok}
use kernel_play.Config.{eio}
use kernel_play.Memory.{Memory}
use kernel_play.Heap.{Heap, kheap_zalloc}
use kernel_play.Disk.{Drive}
use kernel_play.Disk.Image.{Holds}
use kernel_play.PathParser.{PathPart}
use kernel_play.Text.Length.{NoNul, c_string}
use kernel_play.Text.Compare.{Bytes}
use kernel_play.Fat.Layout.{FatPrivate, DirectoryItem, FatFileDescriptor, file, size_of_item}
use kernel_play.Fat.Clusters.{get_first_cluster}
use kernel_play.Fat.Chain.{cluster_bytes, IsChain, IsSmall}
use kernel_play.Fat.Content.{content}
use kernel_play.Fat.Read.{Streams, OnlyMoved}
use kernel_play.Fat.Directory.{find_item, new_fat_item, get_item_in_directory, subdirectory_flag}
use kernel_play.Fat.Lookup.{AllNamed, FirstMatch, FirstMatch-unique, find_item-FirstMatch}
use kernel_play.Fat.File.{
  failed, opened, mode_read, get_directory_entry, walk_parts, fat16_open, fat16_read,
}
use kernel_play.Fat.Members.{fat16_read-content}

-- The root directory as it is loaded: its total counts items of it, and these are named.
pub record IsLoaded (fp : FatPrivate) : Type 0 where
  pub named : AllNamed (take fp.root_directory.total fp.root_directory.item)
  pub counted : fp.root_directory.total ≤ length fp.root_directory.item
  pub short : fp.root_directory.total < 2 ^ 31

-- Three allocations in a row that succeed: the descriptor, the item and the copy of the entry.
pub record Allocated (heap : Heap) (m : Memory) : Type 0 where
  pub desc : ℕ
  pub item : ℕ
  pub copy : ℕ
  pub m1 : Memory
  pub m2 : Memory
  pub m3 : Memory
  pub desc_given : kheap_zalloc heap m 8 ≡ ok (desc, m1)
  pub item_given : kheap_zalloc heap m1 8 ≡ ok (item, m2)
  pub copy_given : kheap_zalloc heap m2 size_of_item ≡ ok (copy, m3)
  pub desc_some : desc ≢ 0
  pub item_some : item ≢ 0
  pub copy_some : copy ≢ 0

abbrev pub entry_of :
    {heap : Heap} {m : Memory} → Allocated heap m → DirectoryItem → FatFileDescriptor
entry_of a entry = record { item_addr = a.item; item = file a.copy (some entry); pos = 0 }

module _ (drive : Drive) (fuel : ℕ) (heap : Heap) (m : Memory) (fp : FatPrivate) (part : PathPart)
    (a : Allocated heap m) where
  pub open_found :
      (entry : DirectoryItem)
      → find_item fp.root_directory.item 0 (rounds fp.root_directory.total) (c_string part.name [])
        ≡ ok (some entry)
      → bit_and entry.attribute subdirectory_flag ≡ 0
      → fat16_open drive 512 fuel heap m fp (part ∷ []) mode_read
        ≡ ok (opened a.desc (entry_of a entry), fp, a.m3)
  unfolding fat16_open get_directory_entry walk_parts get_item_in_directory new_fat_item
  open_found entry found is_file =
      let desc : (a.desc == 0) ≡ false = ground (arith, a.desc_some) in
      let item : (a.item == 0) ≡ false = ground (arith, a.item_some) in
      let copy : (a.copy == 0) ≡ false = ground (arith, a.copy_some) in
      ground (arith, a.desc_given, desc, found, a.item_given, item, is_file, a.copy_given, copy)

  pub open_missing :
      find_item fp.root_directory.item 0 (rounds fp.root_directory.total) (c_string part.name [])
        ≡ ok none
      → fat16_open drive 512 fuel heap m fp (part ∷ []) mode_read ≡ ok (failed eio, fp, a.m1)
  unfolding fat16_open get_directory_entry get_item_in_directory
  open_missing found =
      let desc : (a.desc == 0) ≡ false = ground (arith, a.desc_some) in
      ground (arith, a.desc_given, desc, found)

-- What the search of the root directory finds is the first match.
pub search_root :
    (fp : FatPrivate) (path : List ℕ) (result : Option DirectoryItem)
    → IsLoaded fp
    → NoNul path
    → Bytes path
    → FirstMatch path (take fp.root_directory.total fp.root_directory.item) result
    → find_item fp.root_directory.item 0 (rounds fp.root_directory.total) (c_string path [])
      ≡ ok result
search_root fp path result loaded hp bp match =
    let count : rounds fp.root_directory.total ≡ fp.root_directory.total =
      ground (arith, loaded.short) in
    let (found, run, match') =
      find_item-FirstMatch fp.root_directory.item fp.root_directory.total path [] loaded.named hp bp
        loaded.counted in
    rw count (run ∙ ap ok (FirstMatch-unique path _ found result match' match))

-- Opening a name of the root directory for reading, and reading from the start: where the first
-- item with that name up to case is a file, the call returns a descriptor of a copy of the item at
-- position 0, and reading `nmemb` members of `size` bytes then gives the first bytes of the data
-- of the file's clusters.
pub fat16_open-read :
    {drive : Drive} {image : ℕ → ℕ} (holds : Holds drive image) (fuel : ℕ) (heap : Heap)
    (m : Memory) (fp : FatPrivate) (part : PathPart) (a : Allocated heap m) (entry : DirectoryItem)
    (ds : List ℕ) (size nmemb : ℕ)
    → IsLoaded fp
    → NoNul part.name
    → Bytes part.name
    → FirstMatch part.name (take fp.root_directory.total fp.root_directory.item) (some entry)
    → bit_and entry.attribute subdirectory_flag ≡ 0
    → Streams holds fp
    → IsSmall fp
    → IsChain image fp (get_first_cluster entry) ds
    → 0 < size
    → nmemb * size ≤ suc (length ds) * cluster_bytes fp
    → nmemb * size < 2147483648
    → (fp' : FatPrivate) × (fat16_open drive 512 fuel heap m fp (part ∷ []) mode_read
        ≡ ok (opened a.desc (entry_of a entry), fp, a.m3))
      × (fat16_read drive 512 fp (entry_of a entry) size nmemb
          ≡ ok (0, take (nmemb * size) (content image fp (get_first_cluster entry ∷ ds)), fp'))
      × OnlyMoved holds fp fp'
fat16_open-read {drive} holds fuel heap m fp part a entry ds size nmemb loaded hp bp match is_file
      on small chain pos fits big =
    let found = search_root fp part.name (some entry) loaded hp bp match in
    let (fp', run, moved) =
      fat16_read-content holds fp (entry_of a entry) a.copy entry size nmemb ds refl on small chain
        pos (omega arith) (omega arith) in
    (fp', open_found drive fuel heap m fp part a entry found is_file, run, moved)

-- Where no item of the root directory has the name up to case, opening fails with -EIO, and the
-- descriptor that was allocated is not released.
pub fat16_open_missing :
    (drive : Drive) (fuel : ℕ) (heap : Heap) (m : Memory) (fp : FatPrivate) (part : PathPart)
    (a : Allocated heap m)
    → IsLoaded fp
    → NoNul part.name
    → Bytes part.name
    → FirstMatch part.name (take fp.root_directory.total fp.root_directory.item) none
    → fat16_open drive 512 fuel heap m fp (part ∷ []) mode_read ≡ ok (failed eio, fp, a.m1)
fat16_open_missing drive fuel heap m fp part a loaded hp bp match =
    open_missing drive fuel heap m fp part a (search_root fp part.name none loaded hp bp match)
