-- ===== src/Volume/Content.antt =====
-- From a path to the bytes of a file: parsing, the table of descriptors, the root directory and
-- the allocation chain together, against the view of a volume as texts under names.
use kernel_play.Prelude.{
  ℕ, suc, true, ◌+◌, ◌*◌, ◌≡◌, ◌≢◌, ◌≤◌, ◌<◌, refl, sym, ap, subst, ◌∙◌, List, [], ◌∷◌, arith, some,
  length, take, length-append, ap₂, bit_and, rounds,
}
use kernel_play.Prelude.Run.{ok}
use kernel_play.Memory.{Memory}
use kernel_play.Heap.{Heap, kheap_zalloc}
use kernel_play.Disk.{Drive}
use kernel_play.Disk.Image.{Holds, bytes, length-bytes}
use kernel_play.Text.{strncmp, strncmp_from}
use kernel_play.Text.Length.{c_string}
use kernel_play.Text.Compare.{Bytes}
use kernel_play.PathParser.{PathPart, parse_path_root}
use kernel_play.PathParser.Parts.{IsName}
use kernel_play.PathParser.Roots.{path_of, NoNul-parts}
use kernel_play.Fat.Layout.{FatPrivate, DirectoryItem}
use kernel_play.Fat.Clusters.{get_first_cluster}
use kernel_play.Fat.Chain.{cluster_bytes, cluster_pos, IsChain, IsSmall}
use kernel_play.Fat.Content.{content}
use kernel_play.Fat.Read.{Streams, OnlyMoved}
use kernel_play.Fat.Directory.{subdirectory_flag, find_item}
use kernel_play.Fat.Lookup.{FirstMatch}
use kernel_play.Fat.File.{mode_read}
use kernel_play.Fat.Open.{IsLoaded, Allocated, entry_of, open_found, search_root}
use kernel_play.Fat.Members.{fat16_read-content}
use kernel_play.Files.{Files, first_free, fopen, fread, get_file_mode}
use kernel_play.Files.Table.{IsTable}
use kernel_play.Files.Lifecycle.{Opening, fopen-fread}
use kernel_play.Volume.{Handle, fat16_fs}

-- The volume as a reader sees it: the file with a name holds a text. Behind it stand the first
-- item of the root directory with that name, and the clusters of its chain.
pub record Stored (image : ℕ → ℕ) (fp : FatPrivate) (name text : List ℕ) : Type 0 where
  pub entry : DirectoryItem
  pub clusters : List ℕ
  pub match : FirstMatch name (take fp.root_directory.total fp.root_directory.item) (some entry)
  pub is_file : bit_and entry.attribute subdirectory_flag ≡ 0
  pub chain : IsChain image fp (get_first_cluster entry) clusters
  pub data_of : content image fp (get_first_cluster entry ∷ clusters) ≡ text

-- The data of a chain fills its clusters.
length-content :
    (image : ℕ → ℕ) (fp : FatPrivate) (cs : List ℕ)
    → length (content image fp cs) ≡ length cs * cluster_bytes fp
unfolding content
length-content image fp [] = omega arith
length-content image fp (c ∷ cs) =
    let front = bytes image (cluster_pos fp c) (cluster_bytes fp) in
    length-append front (content image fp cs)
    ∙ ap₂ ◌+◌ (length-bytes image (cluster_pos fp c) (cluster_bytes fp))
        (length-content image fp cs)
    ∙ omega arith

-- The heap has room for what opening allocates, and the table of descriptors for a descriptor.
pub record Room (heap : Heap) (files : Files FatPrivate Handle) (filename : List ℕ) (i : ℕ)
    : Type 0 where
  pub root : ℕ
  pub part : PathPart
  pub addr : ℕ
  pub m0 : Memory
  pub m1 : Memory
  pub m2 : Memory
  pub root_given : kheap_zalloc heap files.memory 8 ≡ ok (root, m0)
  pub root_some : root ≢ 0
  pub parsed :
      parse_path_root heap m0 filename (record { drive_no = 0; parts = [] })
      ≡ ok (0, record { drive_no = 0; parts = part ∷ [] }, m1)
  pub opens : Allocated heap m1
  pub given : kheap_zalloc heap opens.m3 16 ≡ ok (addr, m2)
  pub given_some : addr ≢ 0
  pub free : first_free files.slots ≡ some i

pub mode_r : (rest : List ℕ) → get_file_mode (b'r' ∷ rest) ≡ ok mode_read
unfolding get_file_mode strncmp strncmp_from
mode_r rest = refl

-- Opening a name of the root directory whose first item is a file goes through.
pub Room-Opening :
    (drive : Drive) (fuel : ℕ) (heap : Heap) (files : Files FatPrivate Handle)
    (name tail rest : List ℕ) (i : ℕ) (r : Room heap files (path_of 0 name [] tail) i)
    (entry : DirectoryItem)
    → files.mounted ≡ true
    → IsName name
    → Bytes name
    → IsLoaded files.state
    → r.part.name ≡ name
    → FirstMatch name
        (take files.state.root_directory.total files.state.root_directory.item)
        (some entry)
    → bit_and entry.attribute subdirectory_flag ≡ 0
    → (o : Opening
        (fat16_fs drive fuel heap)
        heap
        files
        (path_of 0 name [] tail)
        (b'r' ∷ rest)
        (r.opens.desc, entry_of r.opens entry)
        files.state
        i)
      × (o.m3 ≡ r.m2)
      × (o.addr ≡ r.addr)
Room-Opening drive fuel heap files name tail rest i r entry mounted clean char loaded named match
      is_file =
    let found =
      subst
        (λ s.
          find_item files.state.root_directory.item 0 (rounds files.state.root_directory.total)
            (c_string s [])
          ≡ ok (some entry))
        (sym named)
        (search_root files.state name (some entry) loaded (NoNul-parts name [] (clean, tt)) char
          match) in
    (
      record {
        root = r.root;
        part = r.part;
        rest = [];
        mode = mode_read;
        addr = r.addr;
        m0 = r.m0;
        m1 = r.m1;
        m2 = r.opens.m3;
        m3 = r.m2;
        root_given = r.root_given;
        root_some = r.root_some;
        parsed = r.parsed;
        mounted = mounted;
        mode_read = mode_r rest;
        mode_known = omega arith;
        found =
            rw (open_found drive fuel heap r.m1 files.state r.part r.opens entry found is_file)
              refl;
        free = r.free;
        given = r.given;
        given_some = r.given_some;
      },
      refl,
      refl,
    )

module _ {drive : Drive} {image : ℕ → ℕ} (holds : Holds drive image) (fuel : ℕ) (heap : Heap) where
  -- Where the allocations and the parsing that opening needs go through, opening a stored file of a
  -- mounted volume for reading returns the number of the first empty slot, and reading members through
  -- that number gives the first bytes of the file's text.
  pub fopen-fread_given :
      (files : Files FatPrivate Handle) (name tail text rest : List ℕ) (i size nmemb : ℕ)
      → IsTable files.slots
      → i < 511
      → files.mounted ≡ true
      → (r : Room heap files (path_of 0 name [] tail) i) → r.part.name ≡ name
      → IsName name
      → Bytes name
      → IsLoaded files.state
      → Streams holds files.state
      → IsSmall files.state
      → Stored image files.state name text
      → 0 < size
      → 0 < nmemb
      → nmemb * size ≤ length text
      → nmemb * size < 2147483648
      → (after : Files FatPrivate Handle) × (next : FatPrivate) × (fopen
            (fat16_fs drive fuel heap)
            heap
            files
            (path_of 0 name [] tail)
            (b'r' ∷ rest)
          ≡ ok (i + 1, after))
        × (fread (fat16_fs drive fuel heap) heap after size nmemb (i + 1)
            ≡ ok (0, take (nmemb * size) text, record after { state = next }))
        × OnlyMoved holds files.state next
  fopen-fread_given files name tail text rest i size nmemb t small mounted r named clean bytes
        loaded on short s some_size some_members fits big =
      let whole : length text ≡ suc (length s.clusters) * cluster_bytes files.state =
        ap length (sym s.data_of)
        ∙ length-content image files.state (get_first_cluster s.entry ∷ s.clusters) in
      let (o, _, _) =
        Room-Opening drive fuel heap files name tail rest i r s.entry mounted clean bytes loaded
          named s.match s.is_file in
      let (next, reads, moved) =
        fat16_read-content holds files.state (entry_of r.opens s.entry) r.opens.copy s.entry size
          nmemb s.clusters refl on short s.chain some_size (omega (arith, whole, fits))
          (omega arith) in
      let reads' = reads ∙ ap (λ l. ok (0, take (nmemb * size) l, next)) s.data_of in
      let (after, opens, gives) =
        fopen-fread (fat16_fs drive fuel heap) heap files (path_of 0 name [] tail) (b'r' ∷ rest)
          (r.opens.desc, entry_of r.opens s.entry) files.state next i size nmemb 0
          (take (nmemb * size) text) t small o some_size some_members reads' in
      (after, next, opens, gives, moved)
