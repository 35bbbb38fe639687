-- ===== src/Tests/Disks.antt =====
-- A disk of 512-byte sectors with one file: the clusters 2 and 3 of one sector each, whose data
-- starts at sector 4, with the table at sector 1.
use kernel_play.Prelude.{
  ℕ, zero, suc, ◌≢◌, ◌+◌, ◌*◌, ◌%◌, ◌<◌, ◌≡◌, refl, [], ◌∷◌, arith, if◌then◌else◌, ◌==◌, some, take,
  drop,
}
use kernel_play.Prelude.Run.{ok}
use kernel_play.Disk.{Drive, disk_streamer_read_bytes}
use kernel_play.Disk.Image.{Holds, bytes}
use kernel_play.Disk.Stream.{at, read_bytes_lem}
use kernel_play.Fat.Layout.{FatPrivate}
use kernel_play.Fat.Clusters.{read_internal, is_readable_cluster}
use kernel_play.Fat.Chain.{IsData, IsSmall}
use kernel_play.Fat.Content.{content}
use kernel_play.Fat.Read.{OnlyMoved, read_internal-content}
use kernel_play.Fat.Directory.{get_total_items_for_directory}
use kernel_play.Fat.Count.{used, total_items-used}
use kernel_play.Tests.Drives.{ata, ata-Holds}

abbrev pub image : ℕ → ℕ
image a = if a == 516 then 3 else if a == 517 then 0 else a % 256

abbrev pub drive : Drive
drive = ata image

image-byte : (a : ℕ) → image a < 256
image-byte a = ground arith

pub holds : Holds drive image
holds = ata-Holds image image-byte

abbrev pub fp : FatPrivate
fp = record {
  header = record {
    short_jmp_ins = [];
    oem_identifier = [];
    bytes_per_sector = 512;
    sectors_per_cluster = 1;
    reserved_sectors = 1;
    fat_copies = 1;
    root_dir_entries = 16;
    number_of_sectors = 100;
    media_type = 0xF8;
    sectors_per_fat = 1;
    sectors_per_track = 1;
    number_of_heads = 1;
    hidden_sectors = 0;
    sectors_big = 0;
    signature = 0x29;
  };
  root_directory = record {
    items_addr = 4096;
    item = [];
    total = 0;
    sector_pos = 2;
    ending_sector_pos = 4;
  };
  cluster_read_stream = some (at 0);
  fat_read_stream = some (at 7);
  directory_stream = some (at 0);
}

pub small : IsSmall fp
small = omega arith

pub IsData-two : IsData fp 2
unfolding is_readable_cluster
IsData-two = record {
  numbered = omega arith;
  short = omega arith;
  readable = refl;
  inside_disk = omega arith;
}

pub IsData-three : IsData fp 3
unfolding is_readable_cluster
IsData-three = record {
  numbered = omega arith;
  short = omega arith;
  readable = refl;
  inside_disk = omega arith;
}

-- Across a sector.
read_bytes_lem_example :
    disk_streamer_read_bytes drive (at 510) 4 ≡ ok (0, bytes image 510 4, at (510 + 4))
read_bytes_lem_example = read_bytes_lem holds 510 4 (omega arith)

-- From the first cluster into the second.
read_internal-content_example :
    (fp' : FatPrivate) × (read_internal drive 512 fp 2 500 20
      ≡ ok (0, take 20 (drop 500 (content image fp (2 ∷ 3 ∷ []))), fp'))
    × OnlyMoved holds fp fp'
read_internal-content_example =
    read_internal-content holds fp 2 500 20 (3 ∷ [])
      (record { cluster = 0; table = 7; cluster_at = refl; table_at = refl }) small
      (IsData-two, refl, IsData-three) (omega arith) (omega arith) (omega arith)

-- A directory at sector 2 of two items with a deleted one between them.
abbrev pub listed : ℕ → ℕ
listed a = if a == 1024 then b'A' else if a == 1056 then 0xE5 else if a == 1088 then b'B' else 0

listed-byte : (a : ℕ) → listed a < 256
listed-byte a = ground arith

listed-filled : (k : ℕ) → k < 3 → listed (1024 + 32 * k) ≢ 0
listed-filled zero lt e = omega arith
listed-filled (suc zero) lt e = omega arith
listed-filled (suc (suc zero)) lt e = omega arith
listed-filled (suc (suc (suc k))) lt e = omega arith

total_items-used_example :
    get_total_items_for_directory (ata listed) 512 4 fp 2
    ≡ ok (
      used listed (512 * 2) 3,
      record fp { directory_stream = some (at (512 * 2 + 32 * (3 + 1))) },
    )
total_items-used_example =
    total_items-used (ata-Holds listed listed-byte) 4 2 3 0 fp refl
      (record { filled = listed-filled; last = refl }) (omega arith) (omega arith)
