-- ===== src/Registry.antt =====
-- fs/file.c: the table of file systems, and the choice of one for a disk. `F` is a file system and
-- `resolve` its operation on the state of a disk.
pub mod Resolve
use kernel_play.Prelude.{
  ℕ, ◌+◌, true, false, Option, none, some, List, [], ◌∷◌, if◌then◌else◌, ◌==◌, set, replicate,
}
use kernel_play.Prelude.Run.{Run, ok, ◌>>=◌}
use kernel_play.Memory.{Memory}
use kernel_play.Config.{max_filesystems, disk_sector_size}

module _ {F : Type 0} where
  -- `fs_get_free_filesystem`, the index in place of the address of the slot.
  unfoldable pub get_free_filesystem : List (Option F) → Option ℕ
  get_free_filesystem [] = none
  get_free_filesystem (none ∷ slots) = some 0
  get_free_filesystem (some _ ∷ slots) = elim (get_free_filesystem slots) [
    | none ↦ none
    | some i ↦ some (i + 1)
  ]

  unfoldable pub fs_insert_filesystem : List (Option F) → F → List (Option F)
  fs_insert_filesystem slots fs = elim (get_free_filesystem slots) [
    | none ↦ slots
    | some i ↦ set slots i (some fs)
  ]

  -- `fs_load`, with the file system that `fat16_init` returns.
  unfoldable pub fs_load : F → List (Option F)
  fs_load fat16 = fs_insert_filesystem (replicate max_filesystems none) fat16

module _ {F S : Type 0} (resolve : F → S → Run (ℕ × S)) where
  unfoldable pub fs_resolve : List (Option F) → S → Run (Option F × S)
  fs_resolve [] disk = ok (none, disk)
  fs_resolve (none ∷ slots) disk = fs_resolve slots disk
  fs_resolve (some fs ∷ slots) disk = do
    (res, disk') ← resolve fs disk
    elim (res == 0) [ true ↦ ok (some fs, disk') | false ↦ fs_resolve slots disk' ]

-- `disk_t`, with the file system's own state of it.
pub record RootDisk (F P : Type 0) : Type 0 where
  pub id : ℕ
  pub kind : ℕ
  pub sector_size : ℕ
  pub filesystem : Option F
  pub fs_private : Option P

module _ {F P : Type 0}
    (resolve : F → RootDisk F P × Memory → Run (ℕ × (RootDisk F P × Memory))) where
  -- `disk_search_and_init`. The type `DISK_TYPE_REAL` is 0.
  unfoldable pub disk_search_and_init : List (Option F) → Memory → Run (RootDisk F P × Memory)
  disk_search_and_init slots m = do
    let blank : RootDisk F P = record {
      id = 0;
      kind = 0;
      sector_size = disk_sector_size;
      filesystem = none;
      fs_private = none;
    }
    (fs, (disk, m')) ← fs_resolve resolve slots (blank, m)
    ok (record disk { filesystem = fs }, m')
