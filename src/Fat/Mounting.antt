-- ===== src/Fat/Mounting.antt =====
-- The steps of mounting: the streams, and the root directory that the disk holds.
use kernel_play.Prelude.{
  ℕ, ◌+◌, ◌*◌, ◌/◌, ◌%◌, ◌^◌, ◌≤◌, ◌<◌, ◌≡◌, refl, arith, Bool-cases, inl, inr, false, some, ◌==◌,
  not, is_negative, ◌+w◌, ◌*w◌, int_div, int_mod, if◌then◌else◌,
}
use kernel_play.Prelude.Run.{ok}
use kernel_play.Memory.{Memory}
use kernel_play.Heap.{Heap}
use kernel_play.Heap.Singles.{IsUsable, Singles, Singles-ext, block, upto, zalloc_next}
use kernel_play.Disk.{Drive, disk_streamer_new, disk_get, disk_streamer_seek_pos}
use kernel_play.Disk.Image.{bytes, Holds}
use kernel_play.Disk.Stream.{at, read_bytes_lem}
use kernel_play.Fat.Layout.{FatPrivate, FatDirectory, FatHeader, header_of, items_of, size_of_item}
use kernel_play.Fat.Directory.{get_root_directory}
use kernel_play.Fat.Count.{used, used-bound, EndsAfter, total_items-used}
use kernel_play.Fat.Mount.{blank, init_private}

abbrev pub header_at : (ℕ → ℕ) → FatHeader
header_at image = header_of (bytes image 0 62)

abbrev pub root_sector : FatHeader → ℕ
root_sector h = h.fat_copies * h.sectors_per_fat + h.reserved_sectors

-- A header whose root directory fits a block of the heap, and `n` entries of it before the first
-- unused one.
pub record IsVolume (image : ℕ → ℕ) (h : FatHeader) (n : ℕ) : Type 0 where
  pub some_entries : 0 < h.root_dir_entries
  pub one_block : h.root_dir_entries ≤ 128
  pub ends : EndsAfter image (512 * root_sector h) n
  pub low : 512 * root_sector h + 32 * (n + 1) < 2 ^ 31
  pub inside_disk : 512 * root_sector h + 4096 < 2 ^ 31
  pub tables : h.fat_copies * h.sectors_per_fat < 2 ^ 24

-- The root directory as the disk has it, with its array in a block of the heap.
abbrev pub root_of : (ℕ → ℕ) → FatHeader → ℕ → ℕ → FatDirectory
root_of image h n addr = record {
  items_addr = addr;
  item = items_of (bytes image (512 * root_sector h) (h.root_dir_entries * 32)) h.root_dir_entries;
  total = used image (512 * root_sector h) n;
  sector_pos = root_sector h;
  ending_sector_pos = root_sector h + (h.root_dir_entries * 32 + 511) / 512;
}

-- The private data behind the three streams.
abbrev pub streams_only : FatPrivate
streams_only = record blank {
  cluster_read_stream = some (at 0);
  fat_read_stream = some (at 0);
  directory_stream = some (at 0);
}

abbrev pub mounted_of : (ℕ → ℕ) → FatHeader → ℕ → ℕ → FatPrivate
mounted_of image h n addr = record streams_only {
  header = h;
  root_directory = root_of image h n addr;
  directory_stream = some (at (512 * root_sector h + h.root_dir_entries * 32));
}

sectors_lem :
    (rs size : ℕ)
    → size ≤ 4096
    → 512 * rs + 4096 < 2 ^ 31
    → rs +w (if not (int_mod size 512 == 0) then int_div size 512 +w 1 else int_div size 512)
      ≡ rs + (size + 511) / 512
sectors_lem rs size few low =
    let positive : is_negative size ≡ false = ground arith in
    rw positive (elim (Bool-cases (size % 512 == 0)) [
      | inl whole ↦ rw whole (ground (arith, whole))
      | inr part ↦ rw part (ground (arith, part))
    ])

module _ (heap : Heap) (usable : IsUsable heap) where
  pub new_stream :
      (m : Memory) (k : ℕ)
      → k < heap.table.size
      → Singles heap m (upto k)
      → (m' : Memory) × (disk_streamer_new heap m 0 ≡ ok (some (block heap k, at 0), m'))
        × Singles heap m' (upto (k + 1))
  unfolding disk_streamer_new disk_get
  new_stream m k lt s =
      let (m', run, after) = zalloc_next heap usable m k 8 (omega arith) (omega arith) lt s in
      let some_block : (block heap k == 0) ≡ false = ground (arith, usable.placed.apart) in
      (m', ground (arith, run, some_block), after)

  pub init_lem :
      (m : Memory) (k : ℕ)
      → k + 2 < heap.table.size
      → Singles heap m (upto k)
      → (m' : Memory) × (init_private heap m 0 ≡ ok (0, streams_only, m'))
        × Singles heap m' (upto (k + 3))
  unfolding init_private
  init_lem m k lt s =
      let (m1, run1, s1) = new_stream m k (omega arith) s in
      let (m2, run2, s2) = new_stream m1 (k + 1) (omega arith) s1 in
      let (m3, run3, s3) = new_stream m2 (k + 1 + 1) (omega arith) s2 in
      (m3, ground (arith, run1, run2, run3), Singles-ext (λ j h. ground arith) s3)

  module _ {drive : Drive} {image : ℕ → ℕ} (holds : Holds drive image) where
    -- The root directory is counted and read.
    pub root_lem :
        (fuel n k p : ℕ) (m : Memory) (fp : FatPrivate)
        → fp.directory_stream ≡ some (at p)
        → IsVolume image fp.header n
        → n < fuel
        → k < heap.table.size
        → Singles heap m (upto k)
        → (m' : Memory) × (get_root_directory drive 512 fuel heap m fp
            ≡ ok (
              0,
              record fp {
                root_directory = root_of image fp.header n (block heap k);
                directory_stream =
                    some (at (512 * root_sector fp.header + fp.header.root_dir_entries * 32));
              },
              m',
            ))
          × Singles heap m' (upto (k + 1))
    unfolding get_root_directory disk_streamer_seek_pos
    root_lem fuel n k p m fp on v enough lt s =
        let h = fp.header in
        let rs = root_sector h in
        let size = h.root_dir_entries * 32 in
        let pos : (h.fat_copies *w h.sectors_per_fat) +w h.reserved_sectors ≡ rs =
          omega (arith, v.tables, v.low) in
        let sized : h.root_dir_entries *w size_of_item ≡ size = omega (arith, v.one_block) in
        let counted = total_items-used holds fuel rs n p fp on v.ends enough v.low in
        let few = used-bound image (512 * rs) n in
        let positive : is_negative (used image (512 * rs) n) ≡ false = ground (arith, few, v.low) in
        let (m', run, after) =
          zalloc_next heap usable m k size (omega (arith, v.some_entries))
            (omega (arith, v.one_block)) lt s in
        let some_block : (block heap k == 0) ≡ false = ground (arith, usable.placed.apart) in
        let place : 512 *w rs ≡ 512 * rs = omega (arith, v.inside_disk) in
        let read =
          read_bytes_lem holds (512 * rs) size (omega (arith, v.inside_disk, v.one_block)) in
        let last = sectors_lem rs size (omega (arith, v.one_block)) v.inside_disk in
        (
          m',
          rw (pos, sized, counted, positive, run, some_block)
              (rw (pos, sized, place, read) (rw last refl)),
          after,
        )
