-- ===== src/Tests/Volumes.antt =====
-- Opening and reading "0:/b.txt" on the disk of Lookups.
use kernel_play.Prelude.{ℕ, ◌≡◌, ◌*◌, refl, List, [], ◌∷◌, arith, take}
use kernel_play.Prelude.Run.{ok}
use kernel_play.Prelude.Codes.{codes}
use kernel_play.PathParser.Roots.{path_of}
use kernel_play.Fat.Layout.{FatPrivate}
use kernel_play.Fat.Clusters.{get_first_cluster}
use kernel_play.Fat.Content.{content}
use kernel_play.Fat.Read.{OnlyMoved}
use kernel_play.Files.{Files, fopen, fread}
use kernel_play.Volume.{Handle, fat16_fs}
use kernel_play.Volume.Content.{Stored}
use kernel_play.Volume.Texts.{fopen-fread_text}
use kernel_play.Tests.Disks
use kernel_play.Tests.Leaks.{heap, usable, fresh, idle}
use kernel_play.Tests.Lookups

abbrev text : List ℕ
text = content Disks.image Lookups.fp (get_first_cluster Lookups.text ∷ 3 ∷ [])

stored : Stored Disks.image Lookups.fp (codes "b.txt") text
stored = record {
  entry = Lookups.text;
  clusters = 3 ∷ [];
  match = Lookups.match;
  is_file = refl;
  chain = Lookups.chain;
  data_of = refl;
}

fopen-fread_text_example :
    (after : Files FatPrivate Handle) × (next : FatPrivate) × (fopen
        (fat16_fs Disks.drive 9 heap)
        heap
        fresh
        (path_of 0 (codes "b.txt") [] [])
        (b'r' ∷ 0 ∷ [])
      ≡ ok (1, after))
    × (fread (fat16_fs Disks.drive 9 heap) heap after 100 6 1
        ≡ ok (0, take (6 * 100) text, record after { state = next }))
    × OnlyMoved Disks.holds Lookups.fp next
unfolding content kernel_play.Disk.Image.bytes
fopen-fread_text_example =
    fopen-fread_text heap usable Disks.holds 9 fresh 0 (codes "b.txt") [] text (0 ∷ []) 100 6 idle
      (omega arith) (omega arith) (omega arith) (omega arith) Lookups.loaded Lookups.streams
      Lookups.small stored (omega arith) (omega arith) (omega arith) (omega arith)
