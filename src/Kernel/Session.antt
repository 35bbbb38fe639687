-- ===== src/Kernel/Session.antt =====
-- The start of the kernel, then the first fopen and fread: the parts of the kernel together.
use kernel_play.Prelude.{
  ℕ, suc, ◌*◌, ◌+◌, ◌^◌, ◌≡◌, ◌≤◌, ◌<◌, sym, subst, arith, List, [], ◌∷◌, length, length-append,
  take,
}
use kernel_play.Prelude.Run.{ok}
use kernel_play.Memory.{Memory}
use kernel_play.Heap.Singles.{block}
use kernel_play.Disk.{Drive}
use kernel_play.Disk.Image.{Holds, bytes}
use kernel_play.Terminal.{Terminal}
use kernel_play.PathParser.Parts.{AllNames}
use kernel_play.PathParser.Roots.{path_of, parts_text}
use kernel_play.Fat.Layout.{FatPrivate, DirectoryItem, header_of}
use kernel_play.Fat.Chain.{IsSmall, IsChain, cluster_bytes}
use kernel_play.Fat.Content.{content}
use kernel_play.Fat.Clusters.{get_first_cluster}
use kernel_play.Fat.Load.{moved}
use kernel_play.Fat.Paths.{Leads}
use kernel_play.Volume.Tree.{fopen-fread_path}
use kernel_play.Fat.File.{signature}
use kernel_play.Fat.Mounting.{header_at, root_sector, IsVolume, mounted_of}
use kernel_play.Files.{Files, fopen, fread, fs_init}
use kernel_play.Files.Table.{IsTable, fs_init-IsTable}
use kernel_play.Volume.{Handle, fat16_fs}
use kernel_play.Paging.Blocks.{paged-IsUsable}
use kernel_play.Paging.Start.{kernel_heap, kernel_heap-IsPaged}
use kernel_play.Kernel.{Image, Machine, kernel_start}
use kernel_play.Kernel.Boot.{kernel_start_lem}

-- What the start leaves as the state of a volume.
abbrev pub started_state : (ℕ → ℕ) → ℕ → FatPrivate
started_state image n = mounted_of image (header_at image) n (block kernel_heap 5)

-- A volume whose files can be read: it has the signature, and a cluster has a sector.
pub record IsReadable (image : ℕ → ℕ) (n : ℕ) : Type 0 where
  pub signed : (header_at image).signature ≡ signature
  pub volume : IsVolume image (header_at image) n
  pub some_sectors : 0 < (header_at image).sectors_per_cluster

state-IsSmall :
    {drive : Drive} {image : ℕ → ℕ} (holds : Holds drive image) (n : ℕ)
    → IsReadable image n
    → IsSmall (started_state image n)
unfolding header_of bytes
state-IsSmall {image = image} holds n r = record {
  reserved = omega (arith, holds.byte 14, holds.byte 15);
  clusters = holds.byte 13;
  some_sectors = r.some_sectors;
}

-- Each name but the first has a separator.
pub names_few :
    (name : List ℕ) (names : List (List ℕ)) → length names ≤ length (parts_text name names)
names_few name [] = omega arith
names_few name (next ∷ names) =
    let later = names_few next names in
    let whole = length-append name (b'/' ∷ parts_text next names) in omega (arith, later, whole)

module _ {drive : Drive} {image : ℕ → ℕ} (holds : Holds drive image) where
  -- From any memory and any screen, with a drive that holds a FAT16 volume with at least a sector in
  -- a cluster and room for at most 128 entries in its root directory, of which `n`, less than the
  -- fuel, stand before the first unused one: the start of the kernel comes to its end, opening a
  -- path that leads on the disk from the root directory, through any number of directories with 1
  -- to 128 items in use, to a file then returns 1, and reading members through that number gives the
  -- first bytes of the data in the file's chain of clusters. The names of the path are at most 253
  -- bytes with their separators, the chain holds as many bytes as are read, fewer than 2 ^ 31, and
  -- the address of the task state segment is below 2 ^ 32.
  pub kernel_start-fread :
      (fuel n : ℕ) (img : Image) (t : Terminal) (m : Memory) (name : List ℕ) (names : List (List ℕ))
      (tail rest : List ℕ) (entry : DirectoryItem) (ds : List ℕ) (size nmemb : ℕ)
      → img.tss < 2 ^ 32
      → IsReadable image n
      → n < fuel
      → AllNames (name ∷ names)
      → length (parts_text name names) ≤ 253
      → Leads image
          (started_state image n)
          fuel
          (started_state image n).root_directory.item
          (started_state image n).root_directory.total
          name
          names
          entry
      → IsChain image (started_state image n) (get_first_cluster entry) ds
      → 0 < size
      → 0 < nmemb
      → nmemb * size ≤ suc (length ds) * cluster_bytes (started_state image n)
      → nmemb * size < 2147483648
      → (machine : Machine) × (opened : Files FatPrivate Handle) × (after : Files FatPrivate Handle)
        × (kernel_start drive fuel img t m ≡ ok machine)
        × (fopen
              (fat16_fs drive fuel machine.heap)
              machine.heap
              machine.files
              (path_of 0 name names tail)
              (b'r' ∷ rest)
            ≡ ok (1, opened))
        × (fread (fat16_fs drive fuel machine.heap) machine.heap opened size nmemb 1
            ≡ ok (
              0,
              take
                  (nmemb * size)
                  (content image (started_state image n) (get_first_cluster entry ∷ ds)),
              after,
            ))
  unfolding fs_init
  kernel_start-fread fuel n img t m name names tail rest entry ds size nmemb tss r enough clean
        short leads chain some_size some_members fits big =
      let (machine, run, started) =
        kernel_start_lem holds fuel n img t m tss r.signed r.volume enough in
      let fp = started_state image n in
      let d = 512 * root_sector fp.header + fp.header.root_dir_entries * 32 in
      let state : machine.files.state ≡ moved fp 0 0 d = started.state_is in
      let table = fs_init-IsTable (fat16_fs drive fuel kernel_heap) kernel_heap machine.files in
      let (opened, after, opens, reads) =
        fopen-fread_path kernel_heap (paged-IsUsable kernel_heap kernel_heap-IsPaged) holds fuel fp
          (state-IsSmall holds n r) machine.files 1031 0 0 d name names tail rest entry ds size
          nmemb (subst IsTable (sym started.none_open) table) started.none_open started.mounted
          state started.blocks clean short leads (omega (arith, names_few name names)) chain
          some_size some_members fits big in
      let calls =
        subst
          (λ h.
            (fopen (fat16_fs drive fuel h) h machine.files (path_of 0 name names tail) (b'r' ∷ rest)
              ≡ ok (1, opened))
            × (fread (fat16_fs drive fuel h) h opened size nmemb 1
                ≡ ok (
                  0,
                  take (nmemb * size) (content image fp (get_first_cluster entry ∷ ds)),
                  after,
                )))
          (sym started.heap_is) (opens, reads) in
      (machine, opened, after, run, calls.0, calls.1)
