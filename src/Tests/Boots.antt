-- ===== src/Tests/Boots.antt =====
-- A disk whose root directory holds the directory "SUB", which holds the file "B.TXT", of one
-- cluster each, and a disk of zeros.
use kernel_play.Prelude.{
  ◌+◌, ◌*◌, ◌≤◌, ◌%◌, ◌-◌, ◌<◌, ◌++◌, ℕ, zero, suc, ◌≢◌, ◌≡◌, refl, List, [], ◌∷◌, arith, some,
  none, get_or, if◌then◌else◌, ltb, replicate,
}
use kernel_play.Prelude.Run.{ok}
use kernel_play.Prelude.Codes.{codes}
use kernel_play.Config.{efsnotus}
use kernel_play.Memory.{Memory}
use kernel_play.Heap.Singles.{Singles, block, upto, without_block}
use kernel_play.Disk.{Drive}
use kernel_play.Disk.Image.{Holds, bytes}
use kernel_play.Fat.Layout.{FatPrivate, DirectoryItem, header_of, item_of, items_of}
use kernel_play.Fat.Lookup.{HasName, here}
use kernel_play.Fat.Clusters.{cluster_to_sector, get_first_cluster, is_readable_cluster}
use kernel_play.Fat.Content.{content}
use kernel_play.Fat.File.{signature}
use kernel_play.Fat.Mount.{fat16_resolve}
use kernel_play.Fat.Count.{used}
use kernel_play.Fat.Mounting.{header_at, IsVolume, mounted_of}
use kernel_play.Fat.Resolve.{root_disk_with, with_streams, fat16_resolve_lem, fat16_resolve_refused}
use kernel_play.Paging.Blocks.{paged-IsUsable}
use kernel_play.Paging.Start.{kernel_heap, kernel_heap-IsPaged, cleared_table, init-Singles}
use kernel_play.Fat.Chain.{IsData, cluster_bytes}
use kernel_play.Fat.Load.{IsDirectory}
use kernel_play.Fat.Paths.{Leads, in_list, in_directory}
use kernel_play.Tests.Trees.{get_or-byte, entry_bytes}
use kernel_play.Kernel.Session.{IsReadable, started_state}
use kernel_play.Tests.Heaps.{zeros}
use kernel_play.Tests.Drives.{ata, ata-Holds}

abbrev header_bytes : List ℕ
header_bytes =
    replicate 11 0x90
    ++ 0 ∷ 2 ∷ 1 ∷ 1 ∷ 0 ∷ 1 ∷ 16 ∷ 0 ∷ 100 ∷ 0 ∷ 0xF8 ∷ 1 ∷ 0 ∷ []
    ++ replicate 14 0
    ++ 0x29 ∷ []

abbrev table_bytes : List ℕ
table_bytes = 0xF8 ∷ 0xFF ∷ 0xFF ∷ 0xFF ∷ 0xFF ∷ 0xFF ∷ []

abbrev root_bytes : List ℕ
root_bytes = codes "SUB        " ++ 0x10 ∷ replicate 14 0 ++ 2 ∷ 0 ∷ []

-- The header, the table at sector 1, the root directory at sector 2, the subdirectory at sector 3,
-- and the file's data from sector 4 on.
abbrev pub image : ℕ → ℕ
image a =
    if ltb a 512
    then get_or header_bytes a 0
    else if ltb a 1024
    then get_or table_bytes (a - 512) 0
    else if ltb a 1536
    then get_or root_bytes (a - 1024) 0
    else if ltb a 2048
    then get_or entry_bytes (a - 1536) 0
    else a % 256

image-byte : (a : ℕ) → image a < 256
image-byte a = ground (
  arith,
  get_or-byte header_bytes a (omega arith),
  get_or-byte table_bytes (a - 512) (omega arith),
  get_or-byte root_bytes (a - 1024) (omega arith),
  get_or-byte entry_bytes (a - 1536) (omega arith),
)

abbrev pub drive : Drive
drive = ata image

pub holds : Holds drive image
holds = ata-Holds image image-byte

filled : (k : ℕ) → k < 1 → image (512 * 2 + 32 * k) ≢ 0
filled zero lt = omega arith
filled (suc k) lt = absurd (omega arith)

pub volume : IsVolume image (header_at image) 1
unfolding bytes header_of
volume = record {
  some_entries = omega arith;
  one_block = omega arith;
  ends = record { filled = filled; last = refl };
  low = omega arith;
  inside_disk = omega arith;
  tables = omega arith;
}

abbrev pub fp : FatPrivate
fp = started_state image 1

abbrev sub : DirectoryItem
sub = item_of (bytes image 1024 32)

sub-HasName : HasName sub (codes "SUB")
unfolding bytes item_of
sub-HasName = record {
  base = codes "SUB";
  ext = [];
  named = record {
    base_plain = omega arith;
    ext_plain = tt;
    base_short = omega arith;
    ext_short = omega arith;
    base_field = refl;
    ext_field = refl;
  };
  base_bytes = omega arith;
  ext_bytes = tt;
  whole = refl;
}

abbrev pub text : DirectoryItem
text = item_of (bytes image 1536 32)

text-HasName : HasName text (codes "B.TXT")
unfolding bytes item_of
text-HasName = record {
  base = codes "B";
  ext = codes "TXT";
  named = record {
    base_plain = omega arith;
    ext_plain = omega arith;
    base_short = omega arith;
    ext_short = omega arith;
    base_field = refl;
    ext_field = refl;
  };
  base_bytes = omega arith;
  ext_bytes = omega arith;
  whole = refl;
}

pub readable : IsReadable image 1
unfolding bytes header_of
readable = record { signed = refl; volume = volume; some_sectors = omega arith }

IsData-any : (c : ℕ) → 2 ≤ c → c < 100 → IsData fp c
unfolding is_readable_cluster bytes header_of
IsData-any c high small = record {
  numbered = high;
  short = omega arith;
  readable = ground arith;
  inside_disk = omega arith;
}

entry_filled : (k : ℕ) → k < 1 → image (512 * 3 + 32 * k) ≢ 0
entry_filled zero lt = omega arith
entry_filled (suc k) lt = absurd (omega arith)

sub-IsDirectory : IsDirectory image fp sub 1 []
unfolding cluster_to_sector get_first_cluster used bytes header_of item_of
sub-IsDirectory = record {
  flagged = refl;
  chain = IsData-any 2 (omega arith) (omega arith);
  ends = record { filled = entry_filled; last = refl };
  low = omega arith;
  some_used = omega arith;
  one_block = omega arith;
  inside_chain = omega arith;
}

pub leads :
    Leads image fp 9 fp.root_directory.item fp.root_directory.total
      (codes "sub")
      (codes "b.txt" ∷ [])
      text
unfolding cluster_to_sector get_first_cluster used bytes content items_of item_of header_of
leads =
    in_directory sub 1 []
      (record {
        named = ((codes "SUB", sub-HasName), tt);
        counted = omega arith;
        short = omega arith;
      })
      (record { no_nul = omega arith; bytes = omega arith }) (here (codes "SUB") sub-HasName refl)
      sub-IsDirectory (omega arith)
      (in_list
        (record {
          named = ((codes "B.TXT", text-HasName), tt);
          counted = omega arith;
          short = omega arith;
        })
        (record { no_nul = omega arith; bytes = omega arith })
        (here (codes "B.TXT") text-HasName refl) refl)

pub text_cluster : IsData fp (get_first_cluster text)
unfolding bytes item_of get_first_cluster
text_cluster = IsData-any 3 (omega arith) (omega arith)

pub one_cluster : 5 * 100 ≤ 1 * cluster_bytes fp
unfolding bytes header_of
one_cluster = omega arith

fat16_resolve_lem_example :
    (m' : Memory) × (fat16_resolve drive 9 kernel_heap (cleared_table zeros) (root_disk_with none)
      ≡ ok (
        0,
        root_disk_with (some (mounted_of image (header_at image) 1 (block kernel_heap (0 + 5)))),
        m',
      ))
    × Singles kernel_heap m' (without_block (0 + 4) (upto (0 + 6)))
fat16_resolve_lem_example =
    fat16_resolve_lem kernel_heap (paged-IsUsable kernel_heap kernel_heap-IsPaged) holds 9 1 0
      (cleared_table zeros) none readable.signed volume (omega arith) (omega arith)
      (init-Singles zeros)

-- A disk of zeros.
pub zero_disk : Holds (ata (λ a. 0)) (λ a. 0)
zero_disk = ata-Holds (λ a. 0) (λ a. omega arith)

pub unsigned : (header_at (λ a. 0)).signature ≢ signature
unfolding bytes header_of
unsigned = omega arith

fat16_resolve_refused_example :
    (m' : Memory) × (fat16_resolve
        (ata (λ a. 0))
        9
        kernel_heap
        (cleared_table zeros)
        (root_disk_with none)
      ≡ ok (efsnotus, root_disk_with none, m'))
    × Singles kernel_heap m' (without_block 0 (with_streams 0))
fat16_resolve_refused_example =
    fat16_resolve_refused kernel_heap (paged-IsUsable kernel_heap kernel_heap-IsPaged) zero_disk 9 0
      (cleared_table zeros) none unsigned (omega arith) (init-Singles zeros)
