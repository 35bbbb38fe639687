-- ===== src/Fat/Paths.antt =====
-- Opening a file by a path of any length: the lists of items that a path goes through, and what
-- fat16_get_item_in_directory gives at each of them.
pub mod Walk
use kernel_play.Prelude.{
  ℕ, zero, suc, ◌+◌, ◌*◌, ◌^◌, ◌≤◌, ◌<◌, ◌≡◌, refl, sym, ap, subst, ◌∙◌, List, [], ◌∷◌, ◌++◌, arith,
  true, false, none, some, Option, ◌==◌, take, length, bit_and, rounds,
}
use kernel_play.Prelude.Run.{ok}
use kernel_play.Memory.{Memory}
use kernel_play.Heap.{Heap, kheap_free}
use kernel_play.Heap.Singles.{IsUsable, block}
use kernel_play.Heap.Below.{Below, Below-zalloc, Below-free, some_block}
use kernel_play.Disk.{Drive}
use kernel_play.Disk.Image.{Holds}
use kernel_play.Text.Length.{NoNul, c_string}
use kernel_play.Text.Compare.{Bytes}
use kernel_play.PathParser.{PathPart}
use kernel_play.Fat.Layout.{
  FatPrivate, FatDirectory, FatFileDescriptor, DirectoryItem, FatItem, directory, file,
  size_of_item,
}
use kernel_play.Fat.Chain.{IsSmall}
use kernel_play.Fat.Directory.{
  subdirectory_flag, find_item, new_fat_item, get_item_in_directory, directory_free, fat_item_free,
}
use kernel_play.Fat.Lookup.{AllNamed, FirstMatch, FirstMatch-unique, find_item-FirstMatch}
use kernel_play.Fat.File.{Opened, opened, mode_read, walk_parts, get_directory_entry, fat16_open}
use kernel_play.Fat.Load.{moved, IsDirectory, entries_used, items_at, load_lem}

-- A list of items that the search can go through, `total` of them.
pub record IsListing (items : List DirectoryItem) (total : ℕ) : Type 0 where
  pub named : AllNamed (take total items)
  pub counted : total ≤ length items
  pub short : total < 2 ^ 31

pub record IsText (name : List ℕ) : Type 0 where
  pub no_nul : NoNul name
  pub bytes : Bytes name

-- On the disk a path leads from a list of items to an item that is a file.
pub data Leads (image : ℕ → ℕ) (fp : FatPrivate) (fuel : ℕ)
    : List DirectoryItem → ℕ → List ℕ → List (List ℕ) → DirectoryItem → Type 0 where
  in_list :
      {items : List DirectoryItem} {total : ℕ} {name : List ℕ} {entry : DirectoryItem}
      → IsListing items total
      → IsText name
      → FirstMatch name (take total items) (some entry)
      → bit_and entry.attribute subdirectory_flag ≡ 0
      → Leads image fp fuel items total name [] entry
  in_directory :
      {items : List DirectoryItem} {total : ℕ} {name next : List ℕ} {names : List (List ℕ)}
      {entry : DirectoryItem} (sub : DirectoryItem) (n : ℕ) (ds : List ℕ)
      → IsListing items total
      → IsText name
      → FirstMatch name (take total items) (some sub)
      → IsDirectory image fp sub n ds
      → n < fuel
      → Leads image fp fuel
          (items_at image fp sub n ds)
          (entries_used image fp sub n)
          next
          names
          entry
      → Leads image fp fuel items total name (next ∷ names) entry

pub find_listed :
    (items : List DirectoryItem) (total : ℕ) (name : List ℕ) (result : Option DirectoryItem)
    → IsListing items total
    → IsText name
    → FirstMatch name (take total items) result
    → find_item items 0 (rounds total) (c_string name []) ≡ ok result
find_listed items total name result listed text match =
    let count : rounds total ≡ total = ground (arith, listed.short) in
    let (found, run, match') =
      find_item-FirstMatch items total name [] listed.named text.no_nul text.bytes listed.counted in
    rw count (run ∙ ap ok (FirstMatch-unique name _ found result match' match))

-- A directory in memory, in three blocks.
pub record InBlocks (heap : Heap) (addr ptr : ℕ) (dir : FatDirectory) : Type 0 where
  pub i : ℕ
  pub j : ℕ
  pub k : ℕ
  pub at : addr ≡ block heap i
  pub ptr_at : ptr ≡ block heap j
  pub items_at : dir.items_addr ≡ block heap k
  pub i_inside : i + 1 < heap.table.size
  pub j_inside : j + 1 < heap.table.size
  pub k_inside : k + 1 < heap.table.size

module _ (heap : Heap) (usable : IsUsable heap) where
  -- Its release.
  pub item_released :
      (m : Memory) (bound addr ptr : ℕ) (dir : FatDirectory)
      → InBlocks heap addr ptr dir
      → Below heap m bound
      → (m' : Memory) × (fat_item_free heap m addr (directory ptr (some dir)) ≡ ok m')
        × Below heap m' bound
  unfolding fat_item_free directory_free
  item_released m bound addr ptr dir in_blocks below =
      let (m1, run1, below1) =
        Below-free heap usable m bound in_blocks.k in_blocks.k_inside below in
      let (m2, run2, below2) =
        Below-free heap usable m1 bound in_blocks.j in_blocks.j_inside below1 in
      let (m3, run3, below3) =
        Below-free heap usable m2 bound in_blocks.i in_blocks.i_inside below2 in
      let some_items = some_block heap usable in_blocks.k in
      (
        m3,
        rw (in_blocks.at, in_blocks.ptr_at, in_blocks.items_at, some_items, run1, run2, run3) refl,
        below3,
      )

  module _ {drive : Drive} {image : ℕ → ℕ} (holds : Holds drive image) (fuel : ℕ) (fp : FatPrivate)
      (small : IsSmall fp) where
    -- The item of a file in a list.
    pub file_item :
        (m : Memory) (bound a b d : ℕ) (dir : FatDirectory) (items : List DirectoryItem) (total : ℕ)
        (name : List ℕ) (entry : DirectoryItem)
        → dir.item ≡ items
        → dir.total ≡ total
        → IsListing items total
        → IsText name
        → FirstMatch name (take total items) (some entry)
        → bit_and entry.attribute subdirectory_flag ≡ 0
        → bound + 1 < heap.table.size
        → Below heap m bound
        → (addr : ℕ) × (copy : ℕ) × (m' : Memory) × (get_item_in_directory drive 512 fuel heap m
              (moved fp a b d)
              dir
              (name ++ 0 ∷ [])
            ≡ ok (some (addr, file copy (some entry)), moved fp a b d, m'))
          × Below heap m' (bound + 2)
    unfolding get_item_in_directory new_fat_item
    file_item m bound a b d dir items total name entry items_are total_is listed text match is_file
          room below =
        let found = find_listed items total name (some entry) listed text match in
        let (i, m1, i_low, run1, below1) =
          Below-zalloc heap usable m bound 8 (omega arith) (omega arith) (omega arith) below in
        let (j, m2, j_low, run2, below2) =
          Below-zalloc heap usable m1 (bound + 1) size_of_item (omega arith) (omega arith) room
            below1 in
        let two : bound + 1 + 1 ≡ bound + 2 = omega arith in
        let no_item = some_block heap usable i in
        let no_copy = some_block heap usable j in
        (
          block heap i,
          block heap j,
          m2,
          rw (items_are, total_is) (ground (arith, found, run1, no_item, is_file, run2, no_copy)),
          subst (λ x. Below heap m2 x) two below2,
        )

    -- The item of a directory in a list, which is loaded.
    pub directory_item :
        (m : Memory) (bound a b d : ℕ) (dir : FatDirectory) (items : List DirectoryItem) (total : ℕ)
        (name : List ℕ) (sub : DirectoryItem) (n : ℕ) (ds : List ℕ)
        → dir.item ≡ items
        → dir.total ≡ total
        → IsListing items total
        → IsText name
        → FirstMatch name (take total items) (some sub)
        → IsDirectory image fp sub n ds
        → n < fuel
        → bound + 3 < heap.table.size
        → Below heap m bound
        → (addr : ℕ) × (ptr : ℕ) × (below_dir : FatDirectory) × (a' : ℕ) × (b' : ℕ) × (d' : ℕ)
          × (m' : Memory) × (get_item_in_directory drive 512 fuel heap m
                (moved fp a b d)
                dir
                (name ++ 0 ∷ [])
              ≡ ok (some (addr, directory ptr (some below_dir)), moved fp a' b' d', m'))
          × InBlocks heap addr ptr below_dir
          × (below_dir.item ≡ items_at image fp sub n ds)
          × (below_dir.total ≡ entries_used image fp sub n)
          × Below heap m' (bound + 3)
    unfolding get_item_in_directory new_fat_item
    directory_item m bound a b d dir items total name sub n ds items_are total_is listed text match
          is_dir enough room below =
        let found = find_listed items total name (some sub) listed text match in
        let (i, m1, i_low, run1, below1) =
          Below-zalloc heap usable m bound 8 (omega arith) (omega arith) (omega arith) below in
        let (
          j, sub_dir, k, a', b', d', m2, run2, j_low, k_low, placed, item_is, total_is', below2,
        ) =
          load_lem holds fuel heap usable m1 (bound + 1) fp a b d sub n ds small is_dir enough
            (omega arith) below1 in
        let three : bound + 1 + 2 ≡ bound + 3 = omega arith in
        let no_item = some_block heap usable i in
        let flagged = is_dir.flagged in
        (
          block heap i,
          block heap j,
          sub_dir,
          a',
          b',
          d',
          m2,
          rw (items_are, total_is, found, run1, no_item, flagged, run2) refl,
          record {
            i = i;
            j = j;
            k = k;
            at = refl;
            ptr_at = refl;
            items_at = placed;
            i_inside = omega arith;
            j_inside = omega arith;
            k_inside = omega arith;
          },
          item_is,
          total_is',
          subst (λ x. Below heap m2 x) three below2,
        )
