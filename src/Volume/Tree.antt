-- ===== src/Volume/Tree.antt =====
-- From a path of any length to the bytes of a file: parsing, the table of descriptors, the walk
-- through directories on the disk, and the allocation chain together.
use kernel_play.Prelude.{
  ℕ, suc, ◌+◌, ◌*◌, ◌≤◌, ◌<◌, ◌≡◌, refl, sym, ap, subst, List, [], ◌∷◌, arith, true, none, length,
  take, replicate,
}
use kernel_play.Prelude.Run.{ok}
use kernel_play.Memory.{Memory}
use kernel_play.Heap.{Heap}
use kernel_play.Heap.Singles.{IsUsable, Singles, block, upto, zalloc_next}
use kernel_play.Heap.Below.{Below, Below-zalloc}
use kernel_play.Disk.{Drive}
use kernel_play.Disk.Image.{Holds}
use kernel_play.PathParser.{PathPart}
use kernel_play.PathParser.Parts.{AllNames}
use kernel_play.PathParser.Roots.{path_of, parts_text}
use kernel_play.PathParser.Release.{parts_at, root_placed}
use kernel_play.Fat.Layout.{FatPrivate, DirectoryItem}
use kernel_play.Fat.Clusters.{get_first_cluster}
use kernel_play.Fat.Chain.{IsChain, IsSmall, cluster_bytes}
use kernel_play.Fat.Content.{content}
use kernel_play.Fat.File.{mode_read}
use kernel_play.Fat.Load.{moved}
use kernel_play.Fat.Paths.{Leads}
use kernel_play.Fat.Paths.Walk.{names_of, fat16_open_path}
use kernel_play.Files.{Files, first_free, fopen, fread}
use kernel_play.Files.Table.{IsTable}
use kernel_play.Files.Lifecycle.{Opening, fopen-fread}
use kernel_play.Volume.{Handle, fat16_fs}
use kernel_play.Volume.Content.{mode_r}

names_of-parts_at :
    (heap : Heap) (k : ℕ) (names : List (List ℕ)) → names_of (parts_at heap k names) ≡ names
names_of-parts_at heap k [] = refl
names_of-parts_at heap k (name ∷ names) = ap (λ l. name ∷ l) (names_of-parts_at heap (k + 2) names)

length-parts_at :
    (heap : Heap) (k : ℕ) (names : List (List ℕ)) → length (parts_at heap k names) ≡ length names
length-parts_at heap k [] = refl
length-parts_at heap k (name ∷ names) = ap suc (length-parts_at heap (k + 2) names)

upto-Below : (heap : Heap) (m : Memory) (k : ℕ) → Singles heap m (upto k) → Below heap m k
upto-Below heap m k s = record { taken = upto k; singles = s; free = λ j above. ground arith }

module _ (heap : Heap) (usable : IsUsable heap) {drive : Drive} {image : ℕ → ℕ}
    (holds : Holds drive image) (fuel : ℕ) (fp : FatPrivate) (small : IsSmall fp) where
  -- On a mounted volume whose header has numbers within their fields and whose streams stand
  -- anywhere, with no file open, the first `k` blocks of the heap taken and more than `5 * n + 7`
  -- blocks behind them, where `n` is the number of names but one: opening a path, whose names are at
  -- most 253 bytes with their separators, that leads on the disk from the root directory, through directories that the
  -- disk holds, to a file returns 1. Reading members through 1, at least one, of at least one byte
  -- each, together no more than the file's chain of clusters holds and less than 2 GiB, then
  -- returns 0 with the first bytes of the data in the chain.
  pub fopen-fread_path :
      (files : Files FatPrivate Handle) (k a b d : ℕ) (name : List ℕ) (names : List (List ℕ))
      (tail rest : List ℕ) (entry : DirectoryItem) (ds : List ℕ) (size nmemb : ℕ)
      → IsTable files.slots
      → files.slots ≡ replicate 512 none
      → files.mounted ≡ true
      → files.state ≡ moved fp a b d
      → Singles heap files.memory (upto k)
      → AllNames (name ∷ names)
      → length (parts_text name names) ≤ 253
      → Leads image fp fuel fp.root_directory.item fp.root_directory.total name names entry
      → k + 5 * length names + 7 < heap.table.size
      → IsChain image fp (get_first_cluster entry) ds
      → 0 < size
      → 0 < nmemb
      → nmemb * size ≤ suc (length ds) * cluster_bytes fp
      → nmemb * size < 2147483648
      → (opened : Files FatPrivate Handle) × (after : Files FatPrivate Handle) × (fopen
            (fat16_fs drive fuel heap)
            heap
            files
            (path_of 0 name names tail)
            (b'r' ∷ rest)
          ≡ ok (1, opened))
        × (fread (fat16_fs drive fuel heap) heap opened size nmemb 1
            ≡ ok (0, take (nmemb * size) (content image fp (get_first_cluster entry ∷ ds)), after))
  unfolding first_free
  fopen-fread_path files k a b d name names tail rest entry ds size nmemb table empty mounted state
        s clean short leads room chain some_size some_members fits big =
      let (m0, root_run, s0) =
        zalloc_next heap usable files.memory k 8 (omega arith) (omega arith) (omega arith) s in
      let (m1, parsed, s1) =
        root_placed heap usable m0 (record { drive_no = 0; parts = [] }) (k + 1) 0 name names tail
          (omega arith) clean short (omega arith) s0 in
      let bound = k + 1 + 2 * length names + 2 in
      let part : PathPart = record {
        addr = block heap (k + 1);
        name_addr = block heap (k + 1 + 1);
        name = name;
      } in
      let parts = parts_at heap (k + 1 + 2) names in
      let len = length-parts_at heap (k + 1 + 2) names in
      let leads' =
        subst
          (λ ns. Leads image fp fuel fp.root_directory.item fp.root_directory.total name ns entry)
          (sym (names_of-parts_at heap (k + 1 + 2) names)) leads in
      let (desc_addr, desc, a', b', d', m2, fp', opens, below, reads, _) =
        fat16_open_path heap usable holds fuel fp small m1 bound a b d part parts entry ds size
          nmemb leads' (omega (arith, len)) (upto-Below heap m1 bound s1) chain some_size fits
          big in
      let (i, m3, i_low, given, _) =
        Below-zalloc heap usable m2 (bound + 3 * length parts + 3) 16 (omega arith) (omega arith)
          (omega (arith, len)) below in
      let o : Opening (fat16_fs drive fuel heap) heap files (path_of 0 name names tail)
          (b'r' ∷ rest) (desc_addr, desc) (moved fp a' b' d') 0 =
        record {
          root = block heap k;
          part = part;
          rest = parts;
          mode = mode_read;
          addr = block heap i;
          m0 = m0;
          m1 = m1;
          m2 = m2;
          m3 = m3;
          root_given = root_run;
          root_some = omega (arith, usable.placed.apart);
          parsed = parsed;
          mounted = mounted;
          mode_read = mode_r rest;
          mode_known = omega arith;
          found = rw (state, opens) refl;
          free = rw empty refl;
          given = given;
          given_some = omega (arith, usable.placed.apart);
        } in
      let (opened, run, read) =
        fopen-fread (fat16_fs drive fuel heap) heap files (path_of 0 name names tail) (b'r' ∷ rest)
          (desc_addr, desc) (moved fp a' b' d') fp' 0 size nmemb 0
          (take (nmemb * size) (content image fp (get_first_cluster entry ∷ ds))) table
          (omega arith) o some_size some_members reads in
      (opened, record opened { state = fp' }, run, read)
