-- ===== src/Tests/Lookups.antt =====
-- A root directory with the directory "SUB" and the file "B.TXT", whose clusters are those of Disks.
use kernel_play.Prelude.{
  ℕ, ◌+◌, ◌*◌, ◌≡◌, ◌≤◌, refl, sym, subst, ◌∙◌, List, [], ◌∷◌, ◌++◌, arith, none, some, Option,
  take, drop, if◌then◌else◌, ltb,
}
use kernel_play.Prelude.Run.{ok}
use kernel_play.Config.{einvarg, eunimp}
use kernel_play.Memory.{Memory, memset, write}
use kernel_play.Heap.{
  kheap_zalloc, heap_malloc, heap_malloc_blocks, heap_align_to_upper, find_free_block_start,
  find_from, find_next_free_block, is_free_block, is_free_blocks, is_free_run,
  heap_mark_table_entries_taken, mark_from, new_entry,
}
use kernel_play.PathParser.{PathPart}
use kernel_play.Text.{tolower, store, load, istrncmp, istrncmp_from, order_of}
use kernel_play.Fat.Names.{get_full_relative_filename, to_proper_string}
use kernel_play.Fat.Chain.{IsChain, IsSmall}
use kernel_play.Fat.Layout.{FatPrivate, DirectoryItem, FatFileDescriptor, file}
use kernel_play.Fat.Clusters.{get_first_cluster, is_readable_cluster}
use kernel_play.Fat.Content.{content}
use kernel_play.Fat.Directory.{find_item}
use kernel_play.Fat.Names.Full.{IsNamed}
use kernel_play.Fat.Lookup.{HasName, AllNamed, FirstMatch, find_item-FirstMatch}
use kernel_play.Fat.Read.{Streams, OnlyMoved}
use kernel_play.Fat.File.{fat16_read, fat16_seek, seek_set, seek_cur, seek_end}
use kernel_play.Fat.Members.{fat16_read-content}
use kernel_play.Fat.Open.{IsLoaded, Allocated}
use kernel_play.Fat.Seek.{fat16_seek-bounds}
use kernel_play.Tests.Heaps.{heap, zeros}
use kernel_play.Prelude.Codes.{codes}
use kernel_play.Tests.Disks

abbrev pub entry : List ℕ → List ℕ → ℕ → ℕ → DirectoryItem
entry name ext attribute cluster = record {
  filename = name;
  ext = ext;
  attribute = attribute;
  reserved = 0;
  creation_time_tenths_of_a_sec = 0;
  creation_time = 0;
  creation_date = 0;
  last_access = 0;
  high_16_bits_first_cluster = 0;
  last_mod_time = 0;
  last_mod_date = 0;
  low_16_bits_first_cluster = cluster;
  filesize = 600;
}

abbrev pub sub : DirectoryItem
sub = entry (codes "SUB     ") (codes "   ") 0x10 3

abbrev pub text : DirectoryItem
text = entry (codes "B       ") (codes "TXT") 0x20 2

abbrev pub fp : FatPrivate
fp = record Disks.fp {
  root_directory = record {
    items_addr = 4096;
    item = sub ∷ text ∷ [];
    total = 2;
    sector_pos = 2;
    ending_sector_pos = 4;
  };
}

sub-IsNamed : IsNamed sub (codes "SUB") []
sub-IsNamed = record {
  base_plain = omega arith;
  ext_plain = tt;
  base_short = omega arith;
  ext_short = omega arith;
  base_field = refl;
  ext_field = refl;
}

text-IsNamed : IsNamed text (codes "B") (codes "TXT")
text-IsNamed = record {
  base_plain = omega arith;
  ext_plain = omega arith;
  base_short = omega arith;
  ext_short = omega arith;
  base_field = refl;
  ext_field = refl;
}

sub-HasName : HasName sub (codes "SUB")
sub-HasName = record {
  base = codes "SUB";
  ext = [];
  named = sub-IsNamed;
  base_bytes = omega arith;
  ext_bytes = tt;
  whole = refl;
}

text-HasName : HasName text (codes "B.TXT")
text-HasName = record {
  base = codes "B";
  ext = codes "TXT";
  named = text-IsNamed;
  base_bytes = omega arith;
  ext_bytes = omega arith;
  whole = refl;
}

all : AllNamed (sub ∷ text ∷ [])
all = ((codes "SUB", sub-HasName), ((codes "B.TXT", text-HasName), tt))

find_item-FirstMatch_example :
    (result : Option DirectoryItem) × (find_item (sub ∷ text ∷ []) 0 2 (codes "b.txt" ++ 0 ∷ [])
      ≡ ok result)
    × FirstMatch (codes "b.txt") (sub ∷ text ∷ []) result
find_item-FirstMatch_example =
    find_item-FirstMatch (sub ∷ text ∷ []) 2 (codes "b.txt") [] all (omega arith) (omega arith)
      (omega arith)

-- What evaluating the search gives.
found : find_item (sub ∷ text ∷ []) 0 2 (codes "b.txt" ++ 0 ∷ []) ≡ ok (some text)
unfolding find_item get_full_relative_filename to_proper_string store load istrncmp istrncmp_from
    tolower order_of
found = refl

not_found : find_item (sub ∷ text ∷ []) 0 2 (codes "c" ++ 0 ∷ []) ≡ ok none
unfolding find_item get_full_relative_filename to_proper_string store load istrncmp istrncmp_from
    tolower order_of
not_found = refl

pub match : FirstMatch (codes "b.txt") (sub ∷ text ∷ []) (some text)
match =
    let (r, run, m) =
      find_item-FirstMatch (sub ∷ text ∷ []) 2 (codes "b.txt") [] all (omega arith) (omega arith)
        (omega arith) in
    let results : ok r ≡ ok (some text) = sym run ∙ found in
    subst (λ x. FirstMatch (codes "b.txt") (sub ∷ text ∷ []) x) (cc results) m

pub no_match : FirstMatch (codes "c") (sub ∷ text ∷ []) none
no_match =
    let (r, run, m) =
      find_item-FirstMatch (sub ∷ text ∷ []) 2 (codes "c") [] all (omega arith) (omega arith)
        (omega arith) in
    let results : ok r ≡ ok none = sym run ∙ not_found in
    subst (λ x. FirstMatch (codes "c") (sub ∷ text ∷ []) x) (cc results) m

abbrev m1 : Memory
m1 = memset (heap_mark_table_entries_taken zeros 100 1) 4096 0 8

abbrev m2 : Memory
m2 = memset (heap_mark_table_entries_taken m1 101 1) 8192 0 8

abbrev m3 : Memory
m3 = memset (heap_mark_table_entries_taken m2 102 1) 12288 0 32

allocated : Allocated heap zeros
unfolding kheap_zalloc heap_malloc heap_malloc_blocks heap_align_to_upper find_free_block_start
    find_from find_next_free_block is_free_block is_free_blocks is_free_run
    heap_mark_table_entries_taken mark_from new_entry write memset
allocated = record {
  desc = 4096;
  item = 8192;
  copy = 12288;
  m1 = m1;
  m2 = m2;
  m3 = m3;
  desc_given = refl;
  item_given = refl;
  copy_given = refl;
  desc_some = omega arith;
  item_some = omega arith;
  copy_some = omega arith;
}

pub loaded : IsLoaded fp
loaded = record { named = all; counted = omega arith; short = omega arith }

abbrev part : List ℕ → PathPart
part name = record { addr = 0; name_addr = 0; name = name }

pub streams : Streams Disks.holds fp
streams = record { cluster = 0; table = 7; cluster_at = refl; table_at = refl }

pub small : IsSmall fp
small = omega arith

pub chain : IsChain Disks.image fp (get_first_cluster text) (3 ∷ [])
unfolding get_first_cluster is_readable_cluster
chain = (
  record {
    numbered = omega arith;
    short = omega arith;
    readable = refl;
    inside_disk = omega arith;
  },
  refl,
  record {
    numbered = omega arith;
    short = omega arith;
    readable = refl;
    inside_disk = omega arith;
  },
)

abbrev at_500 : FatFileDescriptor
at_500 = record { item_addr = 8192; item = file 12288 (some text); pos = 500 }

fat16_read-content_example :
    (fp' : FatPrivate) × (fat16_read Disks.drive 512 fp at_500 10 2
      ≡ ok (
        0,
        take (2 * 10) (drop 500 (content Disks.image fp (get_first_cluster text ∷ 3 ∷ []))),
        fp',
      ))
    × OnlyMoved Disks.holds fp fp'
fat16_read-content_example =
    fat16_read-content Disks.holds fp at_500 12288 text 10 2 (3 ∷ []) refl streams small chain
      (omega arith) (omega arith) (omega arith)

-- Position 500 of 600: 200 more is behind the end.
fat16_seek-bounds_example :
    (after : FatFileDescriptor) × (before : FatFileDescriptor) × (fat16_seek at_500 200 seek_set
      ≡ ok (if ltb 600 200 then einvarg else 0, before))
    × (before.pos ≡ (if ltb 600 200 then 500 else 200))
    × (before.pos ≤ 600)
    × (fat16_seek at_500 200 seek_cur ≡ ok (if ltb 600 200 then einvarg else 0, after))
    × (after.pos ≡ (if ltb 600 200 then 500 else 500 + 200))
    × (after.pos ≤ 600 + 600)
    × (fat16_seek at_500 200 seek_end ≡ ok (if ltb 600 200 then einvarg else eunimp, at_500))
    × (fat16_seek at_500 200 7 ≡ ok (einvarg, at_500))
fat16_seek-bounds_example =
    fat16_seek-bounds at_500 text 200 7 (12288, refl) (omega arith) (omega arith) (omega arith)
      (omega arith)
