-- ===== src/Tests/Starts.antt =====
-- The start of the kernel on the disk of Boots.
use kernel_play.Prelude.{none, some, ◌^◌, ◌<◌, Bool, ◌*◌, ℕ, ◌≡◌, [], ◌∷◌, arith, take}
use kernel_play.Prelude.Run.{ok}
use kernel_play.Prelude.Codes.{codes}
use kernel_play.Memory.{Memory}
use kernel_play.Heap.Singles.{Singles, block}
use kernel_play.Fat.Layout.{FatPrivate}
use kernel_play.Fat.Clusters.{get_first_cluster}
use kernel_play.Fat.Content.{content}
use kernel_play.Fat.Mounting.{header_at, mounted_of}
use kernel_play.Paging.Start.{kernel_heap}
use kernel_play.PathParser.Roots.{path_of}
use kernel_play.Files.{Files, fopen, fread}
use kernel_play.Volume.{Handle, fat16_fs}
use kernel_play.Terminal.{Terminal}
use kernel_play.Kernel.{Image, Machine, kernel_start}
use kernel_play.Kernel.Boot.{found_disk, IsStarted, kernel_start_lem}
use kernel_play.Kernel.Session.{kernel_start-fread}
use kernel_play.Tests.Heaps.{zeros}
use kernel_play.Tests.Boots.{
  image, drive, holds, volume, readable, fp, text, leads, text_cluster, one_cluster, zero_disk,
  unsigned,
}
use kernel_play.Kernel.Demos.{demo_pparser, demo_disk_streamer}
use kernel_play.Kernel.Parsing.{with_memory, desk_of, kernel_start-demo_pparser}
use kernel_play.Kernel.Unmounted.{kernel_start_unmounted}
use kernel_play.Paging.Walk.{translate}
use kernel_play.Tests.Drives.{ata}

abbrev img : Image
img = record {
  tss = 0x20000;
  idt_descriptors = 0x30000;
  no_interrupt = 0x100000;
  int21h = 0x100100;
}

abbrev screen : Terminal
screen = record { video_mem = λ j. 0; row = 0; col = 0 }

kernel_start_lem_example :
    (machine : Machine) × (kernel_start drive 9 img screen zeros ≡ ok machine)
    × IsStarted img (mounted_of image (header_at image) 1 (block kernel_heap 5)) machine
kernel_start_lem_example =
    kernel_start_lem holds 9 1 img screen zeros (omega arith) readable.signed volume (omega arith)

-- "0:/sub/b.txt".
kernel_start-fread_example :
    (machine : Machine) × (opened : Files FatPrivate Handle) × (after : Files FatPrivate Handle)
    × (kernel_start drive 9 img screen zeros ≡ ok machine)
    × (fopen
          (fat16_fs drive 9 machine.heap)
          machine.heap
          machine.files
          (path_of 0 (codes "sub") (codes "b.txt" ∷ []) [])
          (b'r' ∷ 0 ∷ [])
        ≡ ok (1, opened))
    × (fread (fat16_fs drive 9 machine.heap) machine.heap opened 100 5 1
        ≡ ok (0, take (5 * 100) (content image fp (get_first_cluster text ∷ [])), after))
kernel_start-fread_example =
    kernel_start-fread holds 9 1 img screen zeros (codes "sub") (codes "b.txt" ∷ []) [] (0 ∷ [])
      text [] 100 5 (omega arith) readable (omega arith) (omega arith) (omega arith) leads
      text_cluster (omega arith) (omega arith) one_cluster (omega arith)

kernel_start-demo_pparser_example :
    (machine : Machine) × (m1 : Memory) × (m2 : Memory) × (kernel_start drive 9 img screen zeros
      ≡ ok machine)
    × (demo_pparser drive 9 machine.heap (desk_of machine) ≡ ok (with_memory (desk_of machine) m1))
    × (demo_disk_streamer drive 9 machine.heap (with_memory (desk_of machine) m1)
        ≡ ok (with_memory (desk_of machine) m2))
    × ((taken : ℕ → Bool)
        → Singles kernel_heap machine.files.memory taken
        → Singles kernel_heap m2 taken)
kernel_start-demo_pparser_example =
    kernel_start-demo_pparser holds 9 1 img screen zeros (omega arith) readable.signed volume
      (omega arith)

-- A disk of zeros.
kernel_start_unmounted_example :
    (machine : Machine) × (after : Files FatPrivate Handle) × (kernel_start
        (ata (λ a. 0))
        9
        img
        screen
        zeros
      ≡ ok machine)
    × (machine.disk ≡ found_disk none none)
    × ((va : ℕ)
        → va < 2 ^ 32
        → translate machine.files.memory machine.loaded_directory va ≡ some va)
    × (fopen
          (fat16_fs (ata (λ a. 0)) 9 machine.heap)
          machine.heap
          machine.files
          (path_of 0 (codes "b.txt") [] [])
          (b'r' ∷ 0 ∷ [])
        ≡ ok (0, after))
kernel_start_unmounted_example =
    kernel_start_unmounted zero_disk 9 img screen zeros (codes "b.txt") [] [] (b'r' ∷ 0 ∷ [])
      (omega arith) unsigned (omega arith) (omega arith)
