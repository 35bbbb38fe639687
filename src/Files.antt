-- ===== src/Files.antt =====
-- fs/file.c: the table of file descriptors over a file system. A file system is the record of the
-- operations that `filesystem_t` has; `S` is its state and `D` its private descriptor.
pub mod Table
pub mod Open
pub mod Close
pub mod Lifecycle
use kernel_play.Prelude.{
  ℕ, zero, suc, ◌+◌, ◌-◌, Bool, true, false, not, ◌||◌, Option, none, some, List, [], ◌∷◌,
  if◌then◌else◌, ◌==◌, int_le, int_lt, is_negative, word, get_elem?, set, replicate,
}
use kernel_play.Prelude.Run.{Run, ok, fault, ◌>>=◌}
use kernel_play.Config.{eio, einvarg, enomem, max_filedescriptors, max_filesystems}
use kernel_play.Memory.{Memory}
use kernel_play.Heap.{Heap, kheap_zalloc, kheap_free}
use kernel_play.Text.{strncmp}
use kernel_play.Disk.{DiskRef, null, disk_get}
use kernel_play.PathParser.{PathPart, PathRoot, parse_path_root}
use kernel_play.Fat.File.{FileStat}

-- The pointer that an `open` returns; one that stands for a failure is negative as an `int`.
pub data OpenedFile (D : Type 0) : Type 0 where
  no_file : OpenedFile D
  failed : ℕ → OpenedFile D
  opened : D → OpenedFile D

pub record Filesystem (S D : Type 0) : Type 0 where
  pub open_file : S → Memory → List PathPart → ℕ → Run (OpenedFile D × S × Memory)
  pub seek : D → ℕ → ℕ → Run (ℕ × D)
  pub read : S → D → ℕ → ℕ → Run (ℕ × List ℕ × S)
  pub stat : D → FileStat → Run (ℕ × FileStat)
  pub close : Memory → D → Run (ℕ × Memory)

-- `file_descriptor_t` with its address. The disk and the file system are the one mounted.
pub record FileDescriptor (D : Type 0) : Type 0 where
  pub addr : ℕ
  pub index : ℕ
  pub private : D

-- The array `filedescriptors`, the memory, the state of the file system, and whether the disk has
-- one.
pub record Files (S D : Type 0) : Type 0 where
  pub slots : List (Option (FileDescriptor D))
  pub memory : Memory
  pub state : S
  pub mounted : Bool

abbrev pub mode_invalid : ℕ
mode_invalid = 3

-- `get_file_mode`: the first character decides.
unfoldable pub get_file_mode : List ℕ → Run ℕ
get_file_mode s = do
  r ← strncmp s (b'r' ∷ 0 ∷ []) 1
  if r == 0 then ok 0 else do
    w ← strncmp s (b'w' ∷ 0 ∷ []) 1
    if w == 0
        then ok 1
        else do a ← strncmp s (b'a' ∷ 0 ∷ []) 1; if a == 0 then ok 2 else ok mode_invalid

-- The test `!path_root->parts`.
abbrev pub is_empty : List PathPart → Bool
is_empty [] = true
is_empty (_ ∷ _) = false

module _ {D : Type 0} where
  -- The index of the first empty slot.
  unfoldable pub first_free : List (Option (FileDescriptor D)) → Option ℕ
  first_free [] = none
  first_free (none ∷ slots) = some 0
  first_free (some _ ∷ slots) = elim (first_free slots) [ none ↦ none | some i ↦ some (i + 1) ]

  -- `file_get_descriptor`; a number of 0 reads before the array.
  unfoldable pub file_get_descriptor :
      List (Option (FileDescriptor D)) → ℕ → Run (Option (FileDescriptor D))
  file_get_descriptor slots fd =
      if is_negative fd || int_le max_filedescriptors fd
      then ok none
      else if fd == 0
      then fault
      else elim (get_elem? slots (fd - 1)) [ none ↦ fault | some slot ↦ ok slot ]

module _ {S D : Type 0} (fs : Filesystem S D) (heap : Heap) where
  -- `fs_init` on the descriptors; its call of `fs_load` is in Registry.
  unfoldable pub fs_init : Files S D → Files S D
  fs_init files = record files { slots = replicate max_filedescriptors none }

  -- `file_new_descriptor` and the stores that follow it in `fopen`: the number of the descriptor.
  unfoldable pub new_descriptor : Files S D → D → Run (ℕ × Files S D)
  new_descriptor files private = elim (first_free files.slots) [
    | none ↦ ok (enomem, files)
    | some i ↦ do
      (addr, m) ← kheap_zalloc heap files.memory 16
      if addr == 0
          then fault
          else (let desc : FileDescriptor D = record {
            addr = addr;
            index = i + 1;
            private = private;
          } in
              ok (i + 1, record files { slots = set files.slots i (some desc); memory = m }))
  ]

  -- `fopen` up to `out:`.
  unfoldable pub open_path : Files S D → List ℕ → List ℕ → Run (ℕ × Files S D)
  open_path files filename mode_str = do
    (root_addr, m) ← kheap_zalloc heap files.memory 8
    (res, path_root, m') ← parse_path_root heap m filename (record { drive_no = 0; parts = [] })
    let files' : Files S D = record files { memory = m' }
    if is_negative res
        then ok (res, files')
        else if root_addr == 0
        then fault
        else if is_empty path_root.parts
        then ok (einvarg, files')
        else elim (disk_get path_root.drive_no) [
          | null ↦ ok (eio, files')
          | _ ↦ if not files.mounted then ok (eio, files') else do
            mode ← get_file_mode mode_str
            if mode == mode_invalid then ok (einvarg, files') else do
              (result, state, m'') ← fs.open_file files.state m' path_root.parts mode
              let files'' : Files S D = record files { memory = m''; state = state }
              elim result [
                | no_file ↦ ok (eio, files'')
                | failed code ↦ if is_negative code then ok (code, files'') else fault
                | opened private ↦ new_descriptor files'' private
              ]
        ]

  unfoldable pub fopen : Files S D → List ℕ → List ℕ → Run (ℕ × Files S D)
  fopen files filename mode_str = do
    (res, files') ← open_path files filename mode_str
    if is_negative res then ok (0, files') else ok (res, files')

  unfoldable pub fseek : Files S D → ℕ → ℕ → ℕ → Run (ℕ × Files S D)
  fseek files fd offset whence = do
    found ← file_get_descriptor files.slots fd
    elim found [
      | none ↦ ok (eio, files)
      | some desc ↦ do
        (res, private) ← fs.seek desc.private offset whence
        let moved : FileDescriptor D = record desc { private = private }
        let files' : Files S D = record files { slots = set files.slots (fd - 1) (some moved) }
        if not (res == 0) then ok (eio, files') else ok (res, files')
    ]

  -- The result, and the bytes stored through `out`.
  unfoldable pub fread : Files S D → ℕ → ℕ → ℕ → Run (ℕ × List ℕ × Files S D)
  fread files size nmemb fd =
      if (size == 0) || (nmemb == 0) || int_lt fd 1 then ok (einvarg, [], files) else do
        found ← file_get_descriptor files.slots fd
        elim found [
          | none ↦ ok (eio, [], files)
          | some desc ↦ do
            (res, out, state) ← fs.read files.state desc.private size nmemb
            ok (res, out, record files { state = state })
        ]

  unfoldable pub fstat : Files S D → ℕ → FileStat → Run (ℕ × FileStat)
  fstat files fd stat = do
    found ← file_get_descriptor files.slots fd
    elim found [ none ↦ ok (eio, stat) | some desc ↦ fs.stat desc.private stat ]

  -- `file_descriptor_free` empties the slot that the descriptor's own index names.
  unfoldable pub fclose : Files S D → ℕ → Run (ℕ × Files S D)
  fclose files fd = do
    found ← file_get_descriptor files.slots fd
    elim found [
      | none ↦ ok (eio, files)
      | some desc ↦ do
        (res, m) ← fs.close files.memory desc.private
        if not (res == 0) then ok (eio, record files { memory = m }) else do
          m' ← kheap_free heap m desc.addr
          ok (res, record files { slots = set files.slots (desc.index - 1) none; memory = m' })
    ]
