-- ===== src/Tests/Leaks.antt =====
-- Opening, closing and missing names on the disk of Lookups, from an empty heap of twelve blocks.
use kernel_play.Prelude.{ℕ, ◌+◌, ◌*◌, ◌≡◌, refl, List, [], ◌∷◌, arith, true, replicate, none}
use kernel_play.Prelude.Run.{ok}
use kernel_play.Prelude.Codes.{codes}
use kernel_play.Heap.{Heap}
use kernel_play.Heap.Singles.{IsUsable}
use kernel_play.PathParser.Roots.{path_of}
use kernel_play.Files.{Files, fopen, fclose}
use kernel_play.Volume.{Handle, fat16_fs}
use kernel_play.Volume.Leaks.{
  IsIdle, fopen-fclose, fopen_missing, open_and_close, open_and_close_leaks,
}
use kernel_play.Fat.Layout.{FatPrivate}
use kernel_play.Tests.Heaps.{zeros}
use kernel_play.Tests.Disks
use kernel_play.Tests.Lookups

abbrev pub heap : Heap
heap = record { table = record { entries = 100; size = 12 }; start_addr = 4096 }

pub usable : IsUsable heap
usable = record {
  placed = record { apart = omega arith; low = omega arith };
  some_table = omega arith;
}

abbrev pub fresh : Files FatPrivate Handle
fresh = record { slots = replicate 512 none; memory = zeros; state = Lookups.fp; mounted = true }

pub idle : IsIdle heap Lookups.fp fresh 0
idle = record {
  none_open = refl;
  mounted = refl;
  state_is = refl;
  blocks = record { marks = λ i lt. ground arith };
}

abbrev path : List ℕ → List ℕ
path name = path_of 0 name [] []

fopen-fclose_example :
    (opened : Files FatPrivate Handle) × (closed : Files FatPrivate Handle) × (fopen
        (fat16_fs Disks.drive 9 heap)
        heap
        fresh
        (path (codes "b.txt"))
        (b'r' ∷ 0 ∷ [])
      ≡ ok (1, opened))
    × (fclose (fat16_fs Disks.drive 9 heap) heap opened 1 ≡ ok (0, closed))
    × IsIdle heap Lookups.fp closed (0 + 3)
fopen-fclose_example =
    fopen-fclose heap usable Disks.drive 9 Lookups.fp fresh 0 (codes "b.txt") [] (0 ∷ [])
      Lookups.text Lookups.loaded idle (omega arith) (omega arith) (omega arith) (omega arith)
      Lookups.match refl

fopen_missing_example :
    (after : Files FatPrivate Handle) × (fopen
        (fat16_fs Disks.drive 9 heap)
        heap
        fresh
        (path (codes "c"))
        (b'r' ∷ 0 ∷ [])
      ≡ ok (0, after))
    × IsIdle heap Lookups.fp after (0 + 4)
fopen_missing_example =
    fopen_missing heap usable Disks.drive 9 Lookups.fp fresh 0 (codes "c") [] (0 ∷ [])
      Lookups.loaded idle (omega arith) (omega arith) (omega arith) (omega arith) Lookups.no_match

open_and_close_leaks_example :
    (after : Files FatPrivate Handle) × (open_and_close heap Disks.drive 9 2
        (path (codes "b.txt"))
        (b'r' ∷ 0 ∷ [])
        fresh
      ≡ ok after)
    × IsIdle heap Lookups.fp after (0 + 3 * 2)
open_and_close_leaks_example =
    open_and_close_leaks heap usable Disks.drive 9 2 Lookups.fp fresh 0 (codes "b.txt") [] (0 ∷ [])
      Lookups.text Lookups.loaded idle (omega arith) (omega arith) (omega arith) (omega arith)
      Lookups.match refl
