-- ===== src/Fat/Load.antt =====
-- fat16_load_fat_directory: a subdirectory in memory is what the clusters of its chain hold.
use kernel_play.Prelude.{
  ℕ, suc, ◌+◌, ◌*◌, ◌^◌, ◌≤◌, ◌<◌, ◌≡◌, refl, ap, subst, List, [], ◌∷◌, arith, false, some, ◌==◌,
  not, take, length, ◌++◌, bit_and, rounds, int_div, int_mod, ◌*w◌, ◌+w◌, if◌then◌else◌,
}
use kernel_play.Prelude.Run.{ok}
use kernel_play.Memory.{Memory}
use kernel_play.Heap.{Heap}
use kernel_play.Heap.Singles.{IsUsable, block}
use kernel_play.Heap.Below.{Below, Below-zalloc, some_block}
use kernel_play.Disk.{Drive}
use kernel_play.Disk.Image.{Holds, bytes}
use kernel_play.Disk.Stream.{at}
use kernel_play.Fat.Layout.{FatPrivate, FatDirectory, DirectoryItem, items_of, size_of_item}
use kernel_play.Fat.Clusters.{cluster_to_sector, get_first_cluster}
use kernel_play.Fat.Chain.{IsData, IsChain, IsSmall, cluster_bytes, cluster_pos}
use kernel_play.Fat.Content.{content}
use kernel_play.Fat.Read.{OnlyMoved, read_internal-content}
use kernel_play.Fat.Count.{used, EndsAfter, total_items-used}
use kernel_play.Fat.Directory.{subdirectory_flag, load_fat_directory}

-- A volume whose three streams stand anywhere.
abbrev pub moved : FatPrivate → ℕ → ℕ → ℕ → FatPrivate
moved fp a b d = record fp {
  cluster_read_stream = some (at a);
  fat_read_stream = some (at b);
  directory_stream = some (at d);
}

-- What the disk holds of a directory: `n` entries, of which `used` counts those in use, before the
-- first unused one from its first cluster on, a chain of clusters that holds as many, and no more
-- entries than fit a block.
pub record IsDirectory (image : ℕ → ℕ) (fp : FatPrivate) (sub : DirectoryItem) (n : ℕ) (ds : List ℕ)
    : Type 0 where
  pub flagged : (bit_and sub.attribute subdirectory_flag == 0) ≡ false
  pub chain : IsChain image fp (get_first_cluster sub) ds
  pub ends : EndsAfter image (512 * cluster_to_sector fp (get_first_cluster sub)) n
  pub low : 512 * cluster_to_sector fp (get_first_cluster sub) + 32 * (n + 1) < 2 ^ 31
  pub some_used : 0 < used image (512 * cluster_to_sector fp (get_first_cluster sub)) n
  pub one_block : used image (512 * cluster_to_sector fp (get_first_cluster sub)) n ≤ 128
  pub inside_chain :
      used image (512 * cluster_to_sector fp (get_first_cluster sub)) n * 32
      ≤ suc (length ds) * cluster_bytes fp

abbrev pub entries_used : (ℕ → ℕ) → FatPrivate → DirectoryItem → ℕ → ℕ
entries_used image fp sub n = used image (512 * cluster_to_sector fp (get_first_cluster sub)) n

-- The items that the clusters hold.
abbrev pub items_at : (ℕ → ℕ) → FatPrivate → DirectoryItem → ℕ → List ℕ → List DirectoryItem
items_at image fp sub n ds =
    items_of
      (take (entries_used image fp sub n * 32) (content image fp (get_first_cluster sub ∷ ds)))
      (entries_used image fp sub n)

module _ (image : ℕ → ℕ) (fp : FatPrivate) (a b d : ℕ) where
  IsData-moved : (c : ℕ) → IsData fp c → IsData (moved fp a b d) c
  IsData-moved c h = record {
    numbered = h.numbered;
    short = h.short;
    readable = h.readable;
    inside_disk = h.inside_disk;
  }

  pub IsChain-moved :
      (c : ℕ) (ds : List ℕ) → IsChain image fp c ds → IsChain image (moved fp a b d) c ds
  IsChain-moved c [] h = IsData-moved c h
  IsChain-moved c (e ∷ ds) h = (IsData-moved c h.0, h.1, IsChain-moved e ds h.2)

  pub content-moved : (cs : List ℕ) → content image (moved fp a b d) cs ≡ content image fp cs
  unfolding content
  content-moved [] = refl
  content-moved (c ∷ cs) =
      ap (λ l. bytes image (cluster_pos fp c) (cluster_bytes fp) ++ l) (content-moved cs)

module _ {drive : Drive} {image : ℕ → ℕ} (holds : Holds drive image) where
  -- What reading leaves is the volume with its streams elsewhere.
  pub OnlyMoved-moved :
      (fp : FatPrivate) (a b d : ℕ) (fp' : FatPrivate)
      → OnlyMoved holds (moved fp a b d) fp'
      → (a' : ℕ) × (b' : ℕ) × (fp' ≡ moved fp a' b' d)
  OnlyMoved-moved fp a b d fp' o = (
    o.streams.cluster,
    o.streams.table,
    λ i. record {
      header = o.header i;
      root_directory = o.root i;
      cluster_read_stream = o.streams.cluster_at i;
      fat_read_stream = o.streams.table_at i;
      directory_stream = o.directory i;
    },
  )

  -- Where the heap has room for two blocks more, a directory is loaded with the items and the count
  -- that the disk holds.
  pub load_lem :
      (fuel : ℕ) (heap : Heap) (usable : IsUsable heap) (m : Memory) (bound : ℕ) (fp : FatPrivate)
      (a b d : ℕ) (sub : DirectoryItem) (n : ℕ) (ds : List ℕ)
      → IsSmall fp
      → IsDirectory image fp sub n ds
      → n < fuel
      → bound + 1 < heap.table.size
      → Below heap m bound
      → (i : ℕ) × (dir : FatDirectory) × (j : ℕ) × (a' : ℕ) × (b' : ℕ) × (d' : ℕ) × (m' : Memory)
        × (load_fat_directory drive 512 fuel heap m (moved fp a b d) sub
            ≡ ok (block heap i, some dir, moved fp a' b' d', m'))
        × (i ≤ bound)
        × (j ≤ bound + 1)
        × (dir.items_addr ≡ block heap j)
        × (dir.item ≡ items_at image fp sub n ds)
        × (dir.total ≡ entries_used image fp sub n)
        × Below heap m' (bound + 2)
  unfolding load_fat_directory cluster_to_sector
  load_lem fuel heap usable m bound fp a b d sub n ds small dir enough room below =
      let c = get_first_cluster sub in
      let total = entries_used image fp sub n in
      let (i, m1, i_low, run1, below1) =
        Below-zalloc heap usable m bound 16 (omega arith) (omega arith) (omega arith) below in
      let counted =
        total_items-used holds fuel (cluster_to_sector fp c) n d (moved fp a b d) refl dir.ends
          enough dir.low in
      let d' = 512 * cluster_to_sector fp c + 32 * (n + 1) in
      let size : total *w size_of_item ≡ total * 32 = omega (arith, dir.one_block) in
      let (j, m2, j_low, run2, below2) =
        Below-zalloc heap usable m1 (bound + 1) (total * 32) (omega (arith, dir.some_used))
          (omega (arith, dir.one_block)) (omega arith) below1 in
      let small' : IsSmall (moved fp a b d') = record {
        reserved = small.reserved;
        clusters = small.clusters;
        some_sectors = small.some_sectors;
      } in
      let (fp', read, only) =
        read_internal-content holds (moved fp a b d') c 0 (total * 32) ds
          (record { cluster = a; table = b; cluster_at = refl; table_at = refl }) small'
          (IsChain-moved image fp a b d' c ds dir.chain) (omega (arith, dir.some_used))
          (omega (arith, dir.inside_chain)) (omega (arith, dir.one_block)) in
      let (a', b', same) = OnlyMoved-moved fp a b d' fp' only in
      let held = content-moved image fp a b d' (c ∷ ds) in
      let plain : rounds total ≡ total = ground (arith, dir.one_block) in
      let flagged = dir.flagged in
      let two : bound + 1 + 1 ≡ bound + 2 = omega arith in
      let no_dir = some_block heap usable i in
      let no_items = some_block heap usable j in
      (
        i,
        record {
          items_addr = block heap j;
          item = items_at image fp sub n ds;
          total = total;
          sector_pos = cluster_to_sector fp c;
          ending_sector_pos =
              cluster_to_sector fp c
              +w (if not (int_mod (total * 32) 512 == 0)
                  then int_div (total * 32) 512 +w 1
                  else int_div (total * 32) 512);
        },
        j,
        a',
        b',
        d',
        m2,
        rw (flagged, run1, no_dir, counted, size)
            (rw (run2, no_items) (rw (read, plain) (rw (same, held, size) refl))),
        i_low,
        j_low,
        refl,
        refl,
        refl,
        subst (λ x. Below heap m2 x) two below2,
      )
