-- ===== src/Fat/Chain.antt =====
-- The chain of a file in the file allocation table, on a disk of 512-byte sectors, and the
-- functions that follow it.
use kernel_play.Prelude.{
  ℕ, suc, ◌+◌, ◌-◌, ◌*◌, ◌^◌, ◌≤◌, ◌<◌, ◌≡◌, List, [], ◌∷◌, arith, true, some, ◌+w◌, ◌*w◌,
}
use kernel_play.Prelude.Run.{ok}
use kernel_play.Disk.{Drive, disk_streamer_seek_pos, disk_streamer_read_bytes}
use kernel_play.Disk.Image.{bytes, Holds}
use kernel_play.Disk.Stream.{at, read_bytes_lem}
use kernel_play.Fat.Layout.{FatPrivate}
use kernel_play.Fat.Clusters.{is_readable_cluster, get_fat_entry, pass_clusters}

-- The private data with the stream of the table at a position.
abbrev pub with_table : FatPrivate → ℕ → FatPrivate
with_table fp q = record fp { fat_read_stream = some (at q) }

abbrev pub cluster_bytes : FatPrivate → ℕ
cluster_bytes fp = fp.header.sectors_per_cluster * 512

-- Where the data of a cluster lies.
abbrev pub cluster_pos : FatPrivate → ℕ → ℕ
cluster_pos fp c =
    (fp.root_directory.ending_sector_pos + (c - 2) * fp.header.sectors_per_cluster) * 512

abbrev pub table_pos : FatPrivate → ℕ → ℕ
table_pos fp c = fp.header.reserved_sectors * 512 + c * 2

-- The entry of a cluster, as the disk holds it.
abbrev pub next_cluster : (ℕ → ℕ) → FatPrivate → ℕ → ℕ
next_cluster image fp c = image (table_pos fp c) + 256 * image (table_pos fp c + 1)

-- A cluster whose data and whose entry lie in the first 2 GiB, and which the code reads.
pub record IsData (fp : FatPrivate) (c : ℕ) : Type 0 where
  pub numbered : 2 ≤ c
  pub short : c < 65536
  pub readable : is_readable_cluster c ≡ true
  pub inside_disk : cluster_pos fp c + cluster_bytes fp < 2147483648

-- Data clusters, each of which the table links to the next.
abbrev pub IsChain : (ℕ → ℕ) → FatPrivate → ℕ → List ℕ → Type 0
IsChain image fp c [] = IsData fp c
IsChain image fp c (d ∷ ds) = IsData fp c × (next_cluster image fp c ≡ d) × IsChain image fp d ds

-- The numbers of the header are small, as its fields on the disk are.
pub record IsSmall (fp : FatPrivate) : Type 0 where
  pub reserved : fp.header.reserved_sectors < 65536
  pub clusters : fp.header.sectors_per_cluster < 256
  pub some_sectors : 0 < fp.header.sectors_per_cluster

pub IsChain-head :
    (image : ℕ → ℕ) (fp : FatPrivate) (c : ℕ) (ds : List ℕ) → IsChain image fp c ds → IsData fp c
IsChain-head image fp c [] h = h
IsChain-head image fp c (d ∷ ds) h = h.0

module _ {drive : Drive} {image : ℕ → ℕ} (holds : Holds drive image) where
  read_entry :
      (p : ℕ)
      → p + 2 < 2 ^ 31
      → disk_streamer_read_bytes drive (at p) 2 ≡ ok (0, image p ∷ image (p + 1) ∷ [], at (p + 2))
  unfolding bytes
  read_entry p h = read_bytes_lem holds p 2 h

  -- `fat16_get_fat_entry` returns the entry of the cluster, and moves only the table's stream.
  pub get_fat_entry_lem :
      (fp : FatPrivate) (q c : ℕ)
      → IsSmall fp
      → c < 65536
      → get_fat_entry drive 512 (with_table fp q) c
        ≡ ok (next_cluster image fp c, with_table fp (table_pos fp c + 2))
  unfolding get_fat_entry disk_streamer_seek_pos
  get_fat_entry_lem fp q c small short =
      let place : (fp.header.reserved_sectors *w 512) +w c *w 2 ≡ table_pos fp c =
        omega (arith, small.reserved) in
      rw (place, read_entry (table_pos fp c) (omega (arith, small.reserved)))

  pub pass_clusters-next :
      (n : ℕ) (fp : FatPrivate) (q c : ℕ) {d : ℕ}
      → IsSmall fp
      → c < 65536
      → next_cluster image fp c ≡ d
      → is_readable_cluster d ≡ true
      → pass_clusters drive 512 (suc n) (with_table fp q) c
        ≡ pass_clusters drive 512 n (with_table fp (table_pos fp c + 2)) d
  unfolding pass_clusters
  pass_clusters-next n fp q c small short link good =
      rw (get_fat_entry_lem fp q c small short, link, good)
