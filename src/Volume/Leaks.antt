-- ===== src/Volume/Leaks.antt =====
-- What opening and closing a file leaves of the heap: the blocks of the parsed path.
use kernel_play.Prelude.{
  ℕ, zero, suc, ◌+◌, ◌*◌, ◌≡◌, ◌≤◌, ◌<◌, refl, sym, ap, subst, arith, List, [], ◌∷◌, some, none,
  length, replicate, take, set, rounds, ◌==◌, bit_and, true, false,
}
use kernel_play.Prelude.Run.{Run, ok, ◌>>=◌}
use kernel_play.Memory.{Memory}
use kernel_play.Heap.{Heap, heap_free}
use kernel_play.Heap.Singles.{IsUsable, Singles, Singles-ext, block, upto, without_block, free_one}
use kernel_play.Disk.{Drive, disk_get}
use kernel_play.Text.Length.{c_string}
use kernel_play.Text.Compare.{Bytes}
use kernel_play.PathParser.Parts.{IsName}
use kernel_play.PathParser.Roots.{path_of, NoNul-parts}
use kernel_play.Fat.Layout.{FatPrivate, DirectoryItem}
use kernel_play.Fat.Directory.{subdirectory_flag, fat_item_free, find_item}
use kernel_play.Fat.Lookup.{FirstMatch}
use kernel_play.Fat.File.{fat16_close}
use kernel_play.Fat.Open.{IsLoaded, entry_of, open_missing, search_root}
use kernel_play.Files.{FileDescriptor, Files, fopen, open_path, fclose, file_get_descriptor}
use kernel_play.Files.Lifecycle.{open_run}
use kernel_play.Volume.{Handle, fat16_fs}
use kernel_play.Volume.Content.{Room-Opening, mode_r}
use kernel_play.Volume.Room.{Singles-FromStart}

-- A mounted volume with no open file, where the first `k` blocks of the heap are taken.
pub record IsIdle (heap : Heap) (fp : FatPrivate) (files : Files FatPrivate Handle) (k : ℕ)
    : Type 0 where
  pub none_open : files.slots ≡ replicate 512 none
  pub mounted : files.mounted ≡ true
  pub state_is : files.state ≡ fp
  pub blocks : Singles heap files.memory (upto k)

module _ (heap : Heap) (drive : Drive) (fuel : ℕ) where
  -- A program that opens a file and closes it again, `n` times.
  abbrev pub open_and_close :
      ℕ → List ℕ → List ℕ → Files FatPrivate Handle → Run (Files FatPrivate Handle)
  open_and_close zero filename mode_str files = ok files
  open_and_close (suc n) filename mode_str files = do
    (fd, opened) ← fopen (fat16_fs drive fuel heap) heap files filename mode_str
    (_, closed) ← fclose (fat16_fs drive fuel heap) heap opened fd
    open_and_close n filename mode_str closed

module _ (heap : Heap) (usable : IsUsable heap) (drive : Drive) (fuel : ℕ) where
  -- The blocks of a descriptor are given back one by one.
  four_released :
      (m : Memory) (k : ℕ)
      → k + 7 < heap.table.size
      → Singles heap m (upto (k + 7))
      → (m1 : Memory) × (m2 : Memory) × (m3 : Memory) × (m4 : Memory) × (heap_free heap m
            (block heap (k + 5))
          ≡ ok m1)
        × (heap_free heap m1 (block heap (k + 4)) ≡ ok m2)
        × (heap_free heap m2 (block heap (k + 3)) ≡ ok m3)
        × (heap_free heap m3 (block heap (k + 6)) ≡ ok m4)
        × Singles heap m4 (upto (k + 3))
  four_released m k fits s =
      let t5 = without_block (k + 5) (upto (k + 7)) in
      let t4 = without_block (k + 4) t5 in
      let t3 = without_block (k + 3) t4 in
      let (m1, run1, s1) = free_one heap usable m (upto (k + 7)) (k + 5) s (omega arith) in
      let (m2, run2, s2) = free_one heap usable m1 t5 (k + 4) s1 (omega arith) in
      let (m3, run3, s3) = free_one heap usable m2 t4 (k + 3) s2 (omega arith) in
      let (m4, run4, s4) = free_one heap usable m3 t3 (k + 6) s3 (omega arith) in
      (m1, m2, m3, m4, run1, run2, run3, run4, Singles-ext (λ j lt. ground arith) s4)

  -- On a mounted volume with no open file and the first `k` blocks of the heap taken, with room for
  -- eight more: opening a file of the root directory for reading returns 1, closing 1 returns 0 with
  -- no file open and the volume as before, and the three blocks of the parsed path stay taken.
  pub fopen-fclose :
      (fp : FatPrivate) (files : Files FatPrivate Handle) (k : ℕ) (name tail rest : List ℕ)
      (entry : DirectoryItem)
      → IsLoaded fp
      → IsIdle heap fp files k
      → k + 7 < heap.table.size
      → IsName name
      → length name ≤ 253
      → Bytes name
      → FirstMatch name (take fp.root_directory.total fp.root_directory.item) (some entry)
      → bit_and entry.attribute subdirectory_flag ≡ 0
      → (opened : Files FatPrivate Handle) × (closed : Files FatPrivate Handle) × (fopen
            (fat16_fs drive fuel heap)
            heap
            files
            (path_of 0 name [] tail)
            (b'r' ∷ rest)
          ≡ ok (1, opened))
        × (fclose (fat16_fs drive fuel heap) heap opened 1 ≡ ok (0, closed))
        × IsIdle heap fp closed (k + 3)
  unfolding fopen fclose file_get_descriptor fat16_close fat_item_free
  fopen-fclose fp files k name tail rest entry loaded idle fits clean len char match is_file =
      let start =
        Singles-FromStart heap usable files k name tail idle.none_open clean len (omega arith)
          idle.blocks in
      let r = start.room in
      let (o, last, given) =
        Room-Opening drive fuel heap files name tail rest 0 r entry idle.mounted clean char
          (subst IsLoaded (sym idle.state_is) loaded) start.named
          (subst
            (λ s. FirstMatch name (take s.root_directory.total s.root_directory.item) (some entry))
            (sym idle.state_is) match)
          is_file in
      let run =
        open_run (fat16_fs drive fuel heap) heap files (path_of 0 name [] tail) (b'r' ∷ rest)
          (r.opens.desc, entry_of r.opens entry) files.state 0 o in
      let (m1, m2, m3, m4, run1, run2, run3, run4, left) = four_released r.m2 k fits start.full in
      let desc : FileDescriptor Handle = record {
        addr = r.addr;
        index = 1;
        private = (r.opens.desc, entry_of r.opens entry);
      } in
      let slots = set files.slots 0 (some desc) in
      let found : file_get_descriptor slots 1 ≡ ok (some desc) =
        ap (λ s. file_get_descriptor (set s 0 (some desc)) 1) idle.none_open in
      let emptied : set slots 0 none ≡ replicate 512 none =
        ap (λ s. set (set s 0 (some desc)) 0 none) idle.none_open in
      (
        record files { slots = slots; memory = r.m2 },
        record files { slots = set slots 0 none; memory = m4 },
        rw (run, last, given) refl,
        rw
            (
              found, start.copy_at, run1, start.item_at, run2, start.desc_at, run3, start.addr_at,
              run4,
            )
            refl,
        record {
          none_open = emptied;
          mounted = idle.mounted;
          state_is = idle.state_is;
          blocks = left;
        },
      )

  -- On a mounted volume with no open file and the first `k` blocks of the heap taken, with room for
  -- seven more: opening a name that no item of the root directory has, up to case, returns 0 with no
  -- file open, and four blocks stay taken: those of the parsed path and the descriptor of
  -- `fat16_open`.
  pub fopen_missing :
      (fp : FatPrivate) (files : Files FatPrivate Handle) (k : ℕ) (name tail rest : List ℕ)
      → IsLoaded fp
      → IsIdle heap fp files k
      → k + 7 ≤ heap.table.size
      → IsName name
      → length name ≤ 253
      → Bytes name
      → FirstMatch name (take fp.root_directory.total fp.root_directory.item) none
      → (after : Files FatPrivate Handle) × (fopen
            (fat16_fs drive fuel heap)
            heap
            files
            (path_of 0 name [] tail)
            (b'r' ∷ rest)
          ≡ ok (0, after))
        × IsIdle heap fp after (k + 4)
  unfolding fopen open_path disk_get
  fopen_missing fp files k name tail rest loaded idle fits clean len char match =
      let start =
        Singles-FromStart heap usable files k name tail idle.none_open clean len fits idle.blocks in
      let r = start.room in
      let loaded' = subst IsLoaded (sym idle.state_is) loaded in
      let missing = open_missing drive fuel heap r.m1 files.state r.part r.opens (
        subst
          (λ s.
            find_item files.state.root_directory.item 0 (rounds files.state.root_directory.total)
              (c_string s [])
            ≡ ok none)
          (sym start.named)
          (search_root files.state name none loaded' (NoNul-parts name [] (clean, tt)) char (
            subst (λ s. FirstMatch name (take s.root_directory.total s.root_directory.item) none)
              (sym idle.state_is) match))) in
      let root : (r.root == 0) ≡ false = ground (arith, r.root_some) in
      (
        record files { memory = r.opens.m1 },
        ground (arith, r.root_given, r.parsed, root, idle.mounted, mode_r rest, missing),
        record {
          none_open = idle.none_open;
          mounted = idle.mounted;
          state_is = idle.state_is;
          blocks = start.behind_desc;
        },
      )

  -- On a mounted volume with no open file and the first `k` blocks of the heap taken, `n` rounds of
  -- opening a file of the root directory and closing it go through while the heap has room, and leave
  -- `3 * n` blocks more taken, with no file open.
  pub open_and_close_leaks :
      (n : ℕ) (fp : FatPrivate) (files : Files FatPrivate Handle) (k : ℕ) (name tail rest : List ℕ)
      (entry : DirectoryItem)
      → IsLoaded fp
      → IsIdle heap fp files k
      → k + 3 * n + 4 < heap.table.size
      → IsName name
      → length name ≤ 253
      → Bytes name
      → FirstMatch name (take fp.root_directory.total fp.root_directory.item) (some entry)
      → bit_and entry.attribute subdirectory_flag ≡ 0
      → (after : Files FatPrivate Handle) × (open_and_close heap drive fuel n
            (path_of 0 name [] tail)
            (b'r' ∷ rest)
            files
          ≡ ok after)
        × IsIdle heap fp after (k + 3 * n)
  open_and_close_leaks zero fp files k name tail rest entry loaded idle fits clean len char match
        is_file =
      let none_more : k ≡ k + 3 * 0 = omega arith in
      (files, refl, subst (IsIdle heap fp files) none_more idle)
  open_and_close_leaks (suc n) fp files k name tail rest entry loaded idle fits clean len char match
        is_file =
      let (opened, closed, opens, closes, next) =
        fopen-fclose fp files k name tail rest entry loaded idle (omega arith) clean len char match
          is_file in
      let (after, run, done) =
        open_and_close_leaks n fp closed (k + 3) name tail rest entry loaded next (omega arith)
          clean len char match is_file in
      let more : k + 3 + 3 * n ≡ k + 3 * suc n = omega arith in
      (after, rw (opens, closes) run, subst (IsIdle heap fp after) more done)
