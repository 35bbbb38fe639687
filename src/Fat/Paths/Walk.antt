-- ===== src/Fat/Paths/Walk.antt =====
-- The walk of fat16_get_directory_entry through directories that are loaded from the disk and
-- released again, and fat16_open on a path of any length.
use kernel_play.Prelude.{
  ℕ, suc, ◌+◌, ◌*◌, ◌≤◌, ◌<◌, ◌≡◌, refl, ap, subst, ◌∙◌, List, [], ◌∷◌, arith, some, take, length,
}
use kernel_play.Prelude.Run.{ok}
use kernel_play.Memory.{Memory}
use kernel_play.Heap.{Heap}
use kernel_play.Heap.Singles.{IsUsable, block}
use kernel_play.Heap.Below.{Below, Below-zalloc, some_block}
use kernel_play.Disk.{Drive}
use kernel_play.Disk.Image.{Holds}
use kernel_play.PathParser.{PathPart}
use kernel_play.Fat.Layout.{
  FatPrivate, FatDirectory, DirectoryItem, FatFileDescriptor, directory, file,
}
use kernel_play.Fat.Chain.{IsSmall, IsChain, cluster_bytes}
use kernel_play.Fat.File.{
  opened, mode_read, fat16_read, walk_parts, get_directory_entry, fat16_open,
}
use kernel_play.Fat.Load.{moved, IsChain-moved, content-moved}
use kernel_play.Fat.Content.{content}
use kernel_play.Fat.Clusters.{get_first_cluster}
use kernel_play.Fat.Read.{OnlyMoved}
use kernel_play.Fat.Members.{fat16_read-content}
use kernel_play.Fat.Paths.{
  InBlocks, Leads, in_list, in_directory, item_released, file_item, directory_item,
}

abbrev pub names_of : List PathPart → List (List ℕ)
names_of [] = []
names_of (part ∷ parts) = part.name ∷ names_of parts

module _ (heap : Heap) (usable : IsUsable heap) {drive : Drive} {image : ℕ → ℕ}
    (holds : Holds drive image) (fuel : ℕ) (fp : FatPrivate) (small : IsSmall fp) where
  walk_lem :
      (m : Memory) (bound a b d addr ptr : ℕ) (dir : FatDirectory) (items : List DirectoryItem)
      (total : ℕ) (part : PathPart) (parts : List PathPart) (entry : DirectoryItem)
      → InBlocks heap addr ptr dir
      → dir.item ≡ items
      → dir.total ≡ total
      → Leads image fp fuel items total part.name (names_of parts) entry
      → bound + 3 * length parts + 1 < heap.table.size
      → Below heap m bound
      → (addr' : ℕ) × (copy : ℕ) × (a' : ℕ) × (b' : ℕ) × (d' : ℕ) × (m' : Memory) × (walk_parts
            drive 512 fuel heap m
            (moved fp a b d)
            (some (addr, directory ptr (some dir)))
            (part ∷ parts)
          ≡ ok (some (addr', file copy (some entry)), moved fp a' b' d', m'))
        × Below heap m' (bound + 3 * length parts + 2)
  unfolding walk_parts
  walk_lem m bound a b d addr ptr dir items total part [] entry blocks items_are total_is
        (in_list listed text match is_file) room below =
      let (addr', copy, m1, run, below1) =
        file_item heap usable holds fuel fp small m bound a b d dir items total part.name entry
          items_are total_is listed text match is_file (omega arith) below in
      let (m2, freed, below2) =
        item_released heap usable m1 (bound + 2) addr ptr dir blocks below1 in
      let none_left : bound + 2 ≡ bound + 3 * 0 + 2 = omega arith in
      (
        addr',
        copy,
        a,
        b,
        d,
        m2,
        ground (arith, run, freed),
        subst (λ x. Below heap m2 x) none_left below2,
      )
  walk_lem m bound a b d addr ptr dir items total part (next ∷ parts) entry blocks items_are
        total_is (in_directory sub n ds listed text match is_dir enough leads) room below =
      let (addr1, ptr1, dir1, a1, b1, d1, m1, run, blocks1, items1, total1, below1) =
        directory_item heap usable holds fuel fp small m bound a b d dir items total part.name sub n
          ds items_are total_is listed text match is_dir enough (omega arith) below in
      let (m2, freed, below2) =
        item_released heap usable m1 (bound + 3) addr ptr dir blocks below1 in
      let (addr', copy, a', b', d', m3, rest, below3) =
        walk_lem m2 (bound + 3) a1 b1 d1 addr1 ptr1 dir1 _ _ next parts entry blocks1 items1 total1
          leads (omega arith) below2 in
      let more : bound + 3 + 3 * length parts + 2 ≡ bound + 3 * suc (length parts) + 2 =
        omega arith in
      (addr', copy, a', b', d', m3, rw (run, freed) rest, subst (λ x. Below heap m3 x) more below3)

  -- A path from the root directory.
  entry_lem :
      (m : Memory) (bound a b d : ℕ) (part : PathPart) (parts : List PathPart)
      (entry : DirectoryItem)
      → Leads image fp fuel fp.root_directory.item fp.root_directory.total part.name
          (names_of parts)
          entry
      → bound + 3 * length parts + 1 < heap.table.size
      → Below heap m bound
      → (addr : ℕ) × (copy : ℕ) × (a' : ℕ) × (b' : ℕ) × (d' : ℕ) × (m' : Memory)
        × (get_directory_entry drive 512 fuel heap m (moved fp a b d) (part ∷ parts)
            ≡ ok (some (addr, file copy (some entry)), moved fp a' b' d', m'))
        × Below heap m' (bound + 3 * length parts + 2)
  unfolding get_directory_entry walk_parts
  entry_lem m bound a b d part [] entry (in_list listed text match is_file) room below =
      let (addr, copy, m1, run, below1) =
        file_item heap usable holds fuel fp small m bound a b d fp.root_directory
          fp.root_directory.item fp.root_directory.total part.name entry refl refl listed text match
          is_file (omega arith) below in
      let none_left : bound + 2 ≡ bound + 3 * 0 + 2 = omega arith in
      (addr, copy, a, b, d, m1, rw run refl, subst (λ x. Below heap m1 x) none_left below1)
  entry_lem m bound a b d part (next ∷ parts) entry
        (in_directory sub n ds listed text match is_dir enough leads) room below =
      let (addr1, ptr1, dir1, a1, b1, d1, m1, run, blocks1, items1, total1, below1) =
        directory_item heap usable holds fuel fp small m bound a b d fp.root_directory
          fp.root_directory.item fp.root_directory.total part.name sub n ds refl refl listed text
          match is_dir enough (omega arith) below in
      let (addr, copy, a', b', d', m2, rest, below2) =
        walk_lem m1 (bound + 3) a1 b1 d1 addr1 ptr1 dir1 _ _ next parts entry blocks1 items1 total1
          leads (omega arith) below1 in
      let more : bound + 3 + 3 * length parts + 2 ≡ bound + 3 * suc (length parts) + 2 =
        omega arith in
      (addr, copy, a', b', d', m2, rw run rest, subst (λ x. Below heap m2 x) more below2)

  -- Opening a path that leads from the root directory of the disk to a file, through directories
  -- that the disk holds, returns a descriptor of the file's item at position 0, and reading members
  -- through it gives the first bytes of the file's data. A directory has an entry in use and at most
  -- 128; the heap has only one-block allocations and room for three blocks for each part of the path.
  pub fat16_open_path :
      (m : Memory) (bound a b d : ℕ) (part : PathPart) (parts : List PathPart)
      (entry : DirectoryItem) (ds : List ℕ) (size nmemb : ℕ)
      → Leads image fp fuel fp.root_directory.item fp.root_directory.total part.name
          (names_of parts)
          entry
      → bound + 3 * length parts + 2 < heap.table.size
      → Below heap m bound
      → IsChain image fp (get_first_cluster entry) ds
      → 0 < size
      → nmemb * size ≤ suc (length ds) * cluster_bytes fp
      → nmemb * size < 2147483648
      → (addr : ℕ) × (desc : FatFileDescriptor) × (a' : ℕ) × (b' : ℕ) × (d' : ℕ) × (m' : Memory)
        × (fp' : FatPrivate) × (fat16_open drive 512 fuel heap m
              (moved fp a b d)
              (part ∷ parts)
              mode_read
            ≡ ok (opened addr desc, moved fp a' b' d', m'))
        × Below heap m' (bound + 3 * length parts + 3)
        × (fat16_read drive 512 (moved fp a' b' d') desc size nmemb
            ≡ ok (0, take (nmemb * size) (content image fp (get_first_cluster entry ∷ ds)), fp'))
        × OnlyMoved holds (moved fp a' b' d') fp'
  unfolding fat16_open
  fat16_open_path m bound a b d part parts entry ds size nmemb leads room below chain pos fits big =
      let (i, m1, i_low, run1, below1) =
        Below-zalloc heap usable m bound 8 (omega arith) (omega arith) (omega arith) below in
      let (addr, copy, a', b', d', m2, run2, below2) =
        entry_lem m1 (bound + 1) a b d part parts entry leads (omega arith) below1 in
      let no_desc = some_block heap usable i in
      let desc : FatFileDescriptor = record {
        item_addr = addr;
        item = file copy (some entry);
        pos = 0;
      } in
      let small' : IsSmall (moved fp a' b' d') = record {
        reserved = small.reserved;
        clusters = small.clusters;
        some_sectors = small.some_sectors;
      } in
      let (fp', reads, only) =
        fat16_read-content holds (moved fp a' b' d') desc copy entry size nmemb ds refl
          (record { cluster = a'; table = b'; cluster_at = refl; table_at = refl }) small'
          (IsChain-moved image fp a' b' d' (get_first_cluster entry) ds chain) pos (omega arith)
          (omega arith) in
      let held = content-moved image fp a' b' d' (get_first_cluster entry ∷ ds) in
      let more : bound + 1 + 3 * length parts + 2 ≡ bound + 3 * length parts + 3 = omega arith in
      (
        block heap i,
        desc,
        a',
        b',
        d',
        m2,
        fp',
        rw (run1, no_desc, run2) refl,
        subst (λ x. Below heap m2 x) more below2,
        reads ∙ ap (λ l. ok (0, take (nmemb * size) l, fp')) held,
        only,
      )
