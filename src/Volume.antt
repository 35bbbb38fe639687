-- ===== src/Volume.antt =====
-- `fat16_fs` of fs/fat/fat16.c: the FAT16 operations as the file system that fs/file.c calls. The
-- state is the private data of the disk, a private descriptor is the descriptor with its address.
pub mod Content
pub mod Room
pub mod Leaks
pub mod Texts
pub mod Tree
use kernel_play.Prelude.{ℕ, List}
use kernel_play.Prelude.Run.{Run, ok, ◌>>=◌}
use kernel_play.Prelude.Codes.{literal}
use kernel_play.Text.{strcpy}
use kernel_play.Config.{disk_sector_size}
use kernel_play.Heap.{Heap}
use kernel_play.Disk.{Drive}
use kernel_play.Fat.Layout.{FatPrivate, FatFileDescriptor}
use kernel_play.Fat.File.{Opened, fat16_open, fat16_seek, fat16_read, fat16_stat, fat16_close}
use kernel_play.Files.{OpenedFile, Filesystem}

abbrev pub Handle : Type 0
Handle = ℕ × FatFileDescriptor

-- The pointer that `fat16_open` returns, as `fopen` tests it.
abbrev pub as_pointer : Opened → OpenedFile Handle
as_pointer (Opened.failed code) = OpenedFile.failed code
as_pointer (Opened.opened addr desc) = OpenedFile.opened (addr, desc)

abbrev pub fat16_fs : Drive → ℕ → Heap → Filesystem FatPrivate Handle
fat16_fs drive fuel heap = record {
  open_file = λ fp m path mode. do
    (result, fp', m') ← fat16_open drive disk_sector_size fuel heap m fp path mode
    ok (as_pointer result, fp', m');
  seek = λ handle offset whence. do
    (res, desc) ← fat16_seek handle.1 offset whence
    ok (res, (handle.0, desc));
  read = λ fp handle size nmemb. fat16_read drive disk_sector_size fp handle.1 size nmemb;
  stat = λ handle stat. fat16_stat handle.1 stat;
  close = λ m handle. fat16_close heap m handle.0 handle.1;
}

-- `fat16_init`: the 20 bytes of the file system's name, before and after.
unfoldable pub fat16_init : List ℕ → Run (List ℕ)
fat16_init name = do (_, named) ← strcpy name (literal "FAT16"); ok named
