-- ===== src/Volume/Texts.antt =====
-- The volume as texts under names: fopen of "0:/name" and fread, on a heap that is filled from its
-- start, with no file open.
use kernel_play.Prelude.{ℕ, ◌+◌, ◌*◌, ◌≤◌, ◌<◌, ◌≡◌, sym, subst, List, [], ◌∷◌, arith, length, take}
use kernel_play.Prelude.Run.{ok}
use kernel_play.Heap.{Heap}
use kernel_play.Heap.Singles.{IsUsable}
use kernel_play.Disk.{Drive}
use kernel_play.Disk.Image.{Holds}
use kernel_play.Text.Compare.{Bytes}
use kernel_play.PathParser.Parts.{IsName}
use kernel_play.PathParser.Roots.{path_of}
use kernel_play.Fat.Layout.{FatPrivate}
use kernel_play.Fat.Chain.{IsSmall}
use kernel_play.Fat.Read.{Streams, OnlyMoved}
use kernel_play.Fat.Open.{IsLoaded}
use kernel_play.Files.{Files, fopen, fread, fs_init}
use kernel_play.Files.Table.{IsTable, fs_init-IsTable}
use kernel_play.Volume.{Handle, fat16_fs}
use kernel_play.Volume.Content.{Stored, fopen-fread_given}
use kernel_play.Volume.Room.{Singles-FromStart}
use kernel_play.Volume.Leaks.{IsIdle}

module _ (heap : Heap) (usable : IsUsable heap) {drive : Drive} {image : ℕ → ℕ}
    (holds : Holds drive image) (fuel : ℕ) where
  IsTable-of_none :
      (files : Files FatPrivate Handle) (k : ℕ)
      → IsIdle heap files.state files k
      → IsTable files.slots
  unfolding fs_init
  IsTable-of_none files k idle =
      subst IsTable (sym idle.none_open) (fs_init-IsTable (fat16_fs drive fuel heap) heap files)

  -- On a mounted volume with its root directory in memory, its streams on the drive and the numbers
  -- of its header within their fields, with no file open, the first `k` blocks of the heap taken and
  -- seven more free: opening "0:/name" for reading, where the volume stores a text under the name, of
  -- at most 253 bytes, returns 1. Reading members through 1, at least one, of at least one byte each,
  -- together no more than the text and less than 2 GiB, then returns 0 with the first bytes of the
  -- text, and only moves streams.
  pub fopen-fread_text :
      (files : Files FatPrivate Handle) (k : ℕ) (name tail text rest : List ℕ) (size nmemb : ℕ)
      → IsIdle heap files.state files k
      → k + 7 ≤ heap.table.size
      → IsName name
      → length name ≤ 253
      → Bytes name
      → IsLoaded files.state
      → Streams holds files.state
      → IsSmall files.state
      → Stored image files.state name text
      → 0 < size
      → 0 < nmemb
      → nmemb * size ≤ length text
      → nmemb * size < 2147483648
      → (after : Files FatPrivate Handle) × (next : FatPrivate) × (fopen
            (fat16_fs drive fuel heap)
            heap
            files
            (path_of 0 name [] tail)
            (b'r' ∷ rest)
          ≡ ok (1, after))
        × (fread (fat16_fs drive fuel heap) heap after size nmemb 1
            ≡ ok (0, take (nmemb * size) text, record after { state = next }))
        × OnlyMoved holds files.state next
  fopen-fread_text files k name tail text rest size nmemb idle room clean short bytes loaded on
        small stored some_size some_members fits big =
      let start =
        Singles-FromStart heap usable files k name tail idle.none_open clean short room
          idle.blocks in
      fopen-fread_given holds fuel heap files name tail text rest 0 size nmemb
        (IsTable-of_none files k idle) (omega arith) idle.mounted start.room start.named clean bytes
        loaded on small stored some_size some_members fits big
