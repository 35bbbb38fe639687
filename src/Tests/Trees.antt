-- ===== src/Tests/Trees.antt =====
-- A disk whose root directory holds the directory "SUB", in cluster 2, which holds "B.TXT", in
-- cluster 3.
use kernel_play.Prelude.{
  ℕ, zero, suc, ◌+◌, ◌-◌, ◌*◌, ◌%◌, ◌≢◌, ◌≡◌, ◌<◌, ◌≤◌, refl, List, [], ◌∷◌, ◌++◌, arith, get_or,
  take, false, if◌then◌else◌, ltb, replicate, none, true,
}
use kernel_play.Prelude.Run.{ok}
use kernel_play.Prelude.Codes.{codes}
use kernel_play.Memory.{Memory}
use kernel_play.Text.Compare.{Bytes}
use kernel_play.Heap.{Heap}
use kernel_play.Heap.Singles.{IsUsable, Singles, upto}
use kernel_play.Heap.Below.{Below}
use kernel_play.Disk.{Drive}
use kernel_play.Disk.Image.{Holds, bytes}
use kernel_play.PathParser.{PathPart}
use kernel_play.PathParser.Roots.{path_of}
use kernel_play.Files.{Files, fopen, fread, fs_init}
use kernel_play.Files.Table.{IsTable, fs_init-IsTable}
use kernel_play.Volume.{Handle, fat16_fs}
use kernel_play.Volume.Tree.{fopen-fread_path}
use kernel_play.Fat.Layout.{FatPrivate, FatFileDescriptor, DirectoryItem, item_of, items_of}
use kernel_play.Fat.Clusters.{cluster_to_sector, get_first_cluster, is_readable_cluster}
use kernel_play.Fat.Chain.{IsData, IsSmall}
use kernel_play.Fat.Content.{content}
use kernel_play.Fat.Read.{OnlyMoved}
use kernel_play.Fat.Count.{used}
use kernel_play.Fat.Lookup.{HasName, here}
use kernel_play.Fat.File.{opened, mode_read, fat16_open, fat16_read}
use kernel_play.Fat.Load.{moved, IsDirectory}
use kernel_play.Fat.Paths.{Leads, in_list, in_directory}
use kernel_play.Fat.Paths.Walk.{fat16_open_path}
use kernel_play.Tests.Heaps.{zeros}
use kernel_play.Tests.Drives.{ata, ata-Holds}
use kernel_play.Tests.Disks
use kernel_play.Tests.Lookups

abbrev pub entry_bytes : List ℕ
entry_bytes = codes "B       TXT" ++ 0x20 ∷ replicate 14 0 ++ 3 ∷ 0 ∷ 88 ∷ 2 ∷ []

abbrev image : ℕ → ℕ
image a = if ltb a 2048 then 0 else if ltb a 2560 then get_or entry_bytes (a - 2048) 0 else a % 256

pub get_or-byte : (l : List ℕ) (i : ℕ) → Bytes l → get_or l i 0 < 256
get_or-byte [] i h = omega arith
get_or-byte (c ∷ l) zero h = h.0
get_or-byte (c ∷ l) (suc i) h = get_or-byte l i h.1

image-byte : (a : ℕ) → image a < 256
image-byte a = ground (arith, get_or-byte entry_bytes (a - 2048) (omega arith))

abbrev drive : Drive
drive = ata image

holds : Holds drive image
holds = ata-Holds image image-byte

abbrev sub : DirectoryItem
sub = Lookups.entry (codes "SUB     ") (codes "   ") 0x10 2

abbrev fp : FatPrivate
fp = record Disks.fp {
  root_directory = record {
    items_addr = 0;
    item = sub ∷ [];
    total = 1;
    sector_pos = 3;
    ending_sector_pos = 4;
  };
}

small : IsSmall fp
small = record { reserved = omega arith; clusters = omega arith; some_sectors = omega arith }

sub-HasName : HasName sub (codes "SUB")
sub-HasName = record {
  base = codes "SUB";
  ext = [];
  named = record {
    base_plain = omega arith;
    ext_plain = tt;
    base_short = omega arith;
    ext_short = omega arith;
    base_field = refl;
    ext_field = refl;
  };
  base_bytes = omega arith;
  ext_bytes = tt;
  whole = refl;
}

abbrev text : DirectoryItem
text = item_of (bytes image 2048 32)

text-HasName : HasName text (codes "B.TXT")
unfolding bytes item_of
text-HasName = record {
  base = codes "B";
  ext = codes "TXT";
  named = record {
    base_plain = omega arith;
    ext_plain = omega arith;
    base_short = omega arith;
    ext_short = omega arith;
    base_field = refl;
    ext_field = refl;
  };
  base_bytes = omega arith;
  ext_bytes = omega arith;
  whole = refl;
}

IsData-any : (c : ℕ) → 2 ≤ c → c < 100 → IsData fp c
unfolding is_readable_cluster
IsData-any c high small = record {
  numbered = high;
  short = omega arith;
  readable = ground arith;
  inside_disk = omega arith;
}

filled : (k : ℕ) → k < 1 → image (512 * 4 + 32 * k) ≢ 0
filled zero lt = omega arith
filled (suc k) lt = absurd (omega arith)

sub-IsDirectory : IsDirectory image fp sub 1 []
unfolding cluster_to_sector get_first_cluster used
sub-IsDirectory = record {
  flagged = refl;
  chain = IsData-any 2 (omega arith) (omega arith);
  ends = record { filled = filled; last = refl };
  low = omega arith;
  some_used = omega arith;
  one_block = omega arith;
  inside_chain = omega arith;
}

abbrev part : List ℕ → PathPart
part name = record { addr = 0; name_addr = 0; name = name }

leads : Leads image fp 9 (sub ∷ []) 1 (codes "sub") (codes "b.txt" ∷ []) text
unfolding cluster_to_sector get_first_cluster used bytes content items_of item_of
leads =
    in_directory sub 1 []
      (record {
        named = ((codes "SUB", sub-HasName), tt);
        counted = omega arith;
        short = omega arith;
      })
      (record { no_nul = omega arith; bytes = omega arith }) (here (codes "SUB") sub-HasName refl)
      sub-IsDirectory (omega arith)
      (in_list
        (record {
          named = ((codes "B.TXT", text-HasName), tt);
          counted = omega arith;
          short = omega arith;
        })
        (record { no_nul = omega arith; bytes = omega arith })
        (here (codes "B.TXT") text-HasName refl) refl)

abbrev heap : Heap
heap = record { table = record { entries = 100; size = 12 }; start_addr = 4096 }

usable : IsUsable heap
usable = record {
  placed = record { apart = omega arith; low = omega arith };
  some_table = omega arith;
}

none_taken : Below heap zeros 0
none_taken = record {
  taken = λ j. false;
  singles = record { marks = λ i lt. refl };
  free = λ j h. refl;
}

text_cluster : IsData fp (get_first_cluster text)
unfolding bytes item_of get_first_cluster
text_cluster = IsData-any 3 (omega arith) (omega arith)

fat16_open_path_example :
    (addr : ℕ) × (desc : FatFileDescriptor) × (a' : ℕ) × (b' : ℕ) × (d' : ℕ) × (m' : Memory)
    × (fp' : FatPrivate) × (fat16_open drive 512 9 heap zeros
          (moved fp 7 7 7)
          (part (codes "sub") ∷ part (codes "b.txt") ∷ [])
          mode_read
        ≡ ok (opened addr desc, moved fp a' b' d', m'))
    × Below heap m' (0 + 3 * 1 + 3)
    × (fat16_read drive 512 (moved fp a' b' d') desc 100 5
        ≡ ok (0, take (5 * 100) (content image fp (get_first_cluster text ∷ [])), fp'))
    × OnlyMoved holds (moved fp a' b' d') fp'
fat16_open_path_example =
    fat16_open_path heap usable holds 9 fp small zeros 0 7 7 7 (part (codes "sub"))
      (part (codes "b.txt") ∷ []) text [] 100 5 leads (omega arith) none_taken text_cluster
      (omega arith) (omega arith) (omega arith)

-- A heap of sixteen blocks, all free.
abbrev larger : Heap
larger = record { table = record { entries = 100; size = 16 }; start_addr = 4096 }

larger-IsUsable : IsUsable larger
larger-IsUsable = record {
  placed = record { apart = omega arith; low = omega arith };
  some_table = omega arith;
}

all_free : Singles larger zeros (upto 0)
all_free = record { marks = λ i lt. ground arith }

abbrev fresh : Files FatPrivate Handle
fresh = record {
  slots = replicate 512 none;
  memory = zeros;
  state = moved fp 7 7 7;
  mounted = true;
}

fresh-IsTable : IsTable fresh.slots
unfolding fs_init
fresh-IsTable = fs_init-IsTable (fat16_fs drive 9 larger) larger fresh

fopen-fread_path_example :
    (opened_files : Files FatPrivate Handle) × (after : Files FatPrivate Handle) × (fopen
        (fat16_fs drive 9 larger)
        larger
        fresh
        (path_of 0 (codes "sub") (codes "b.txt" ∷ []) [])
        (b'r' ∷ 0 ∷ [])
      ≡ ok (1, opened_files))
    × (fread (fat16_fs drive 9 larger) larger opened_files 100 5 1
        ≡ ok (0, take (5 * 100) (content image fp (get_first_cluster text ∷ [])), after))
fopen-fread_path_example =
    fopen-fread_path larger larger-IsUsable holds 9 fp small fresh 0 7 7 7 (codes "sub")
      (codes "b.txt" ∷ []) [] (0 ∷ []) text [] 100 5 fresh-IsTable refl refl refl all_free
      (omega arith) (omega arith) leads (omega arith) text_cluster (omega arith) (omega arith)
      (omega arith) (omega arith)
