-- ===== src/Kernel/Parsing.antt =====
-- The first two demonstrations of kernel.c, behind the start of the kernel.
use kernel_play.Prelude.{
  ℕ, ◌+◌, ◌*◌, ◌^◌, ◌≤◌, ◌<◌, ◌≡◌, refl, sym, Bool, subst, ◌∙◌, List, [], ◌∷◌, arith, false, length,
  ◌==◌,
}
use kernel_play.Prelude.Run.{ok}
use kernel_play.Prelude.Codes.{codes}
use kernel_play.Memory.{Memory}
use kernel_play.Heap.{Heap}
use kernel_play.Heap.Singles.{IsUsable, Singles, Singles-ext, block, upto, free_one}
use kernel_play.Disk.{Drive, disk_streamer_seek_pos, disk_streamer_close}
use kernel_play.Disk.Image.{Holds}
use kernel_play.Disk.Stream.{read_bytes_lem}
use kernel_play.PathParser.Parts.{AllNames}
use kernel_play.PathParser.Roots.{path_of, parts_text}
use kernel_play.PathParser.Release.{parse-free_path_root}
use kernel_play.Fat.File.{signature}
use kernel_play.Fat.Mounting.{header_at, IsVolume, new_stream}
use kernel_play.Terminal.{Terminal}
use kernel_play.Paging.Blocks.{paged-IsUsable}
use kernel_play.Paging.Start.{kernel_heap, kernel_heap-IsPaged}
use kernel_play.Kernel.{Image, Machine, kernel_start}
use kernel_play.Kernel.Boot.{kernel_start_lem}
use kernel_play.Kernel.Demos.{Desk, parse_and_free, demo_pparser, demo_disk_streamer}

-- A desk with another memory.
abbrev pub with_memory : Desk → Memory → Desk
with_memory d m = record d { files = record d.files { memory = m } }

abbrev pub desk_of : Machine → Desk
desk_of machine = record { terminal = machine.terminal; files = machine.files }

module _ (heap : Heap) (usable : IsUsable heap) (drive : Drive) (fuel : ℕ) where
  -- A path that parses and is released.
  parse_and_free_lem :
      (d : Desk) (k drive_no : ℕ) (name : List ℕ) (names : List (List ℕ))
      → drive_no < 10
      → AllNames (name ∷ names)
      → length (parts_text name names) ≤ 253
      → k + 2 * length names + 3 < heap.table.size
      → Singles heap d.files.memory (upto k)
      → (m : Memory) × (parse_and_free drive fuel heap d (path_of drive_no name names [])
          ≡ ok (with_memory d m))
        × Singles heap m (upto k)
  unfolding parse_and_free
  parse_and_free_lem d k drive_no name names digit clean short room s =
      let (m1, m2, m3, given, parsed, full, freed, after) =
        parse-free_path_root heap usable d.files.memory k drive_no name names [] digit clean short
          room s in
      let some_root : (block heap k == 0) ≡ false = ground (arith, usable.placed.apart) in
      (m3, rw (given, parsed, some_root, freed) refl, after)

  -- `demo_pparser` comes to its end with the screen as it was, and gives back every block that it
  -- takes.
  pub demo_pparser_lem :
      (d : Desk) (k : ℕ)
      → k + 7 < heap.table.size
      → Singles heap d.files.memory (upto k)
      → (m : Memory) × (demo_pparser drive fuel heap d ≡ ok (with_memory d m))
        × Singles heap m (upto k)
  unfolding demo_pparser
  demo_pparser_lem d k room s =
      let (m1, run1, s1) =
        parse_and_free_lem d k 0 (codes "test") (codes "ok" ∷ codes "me.txt" ∷ []) (omega arith)
          (omega arith) (omega arith) (omega arith) s in
      let (m2, run2, s2) =
        parse_and_free_lem (with_memory d m1) k 1 (codes "another")
          (codes "dir" ∷ codes "you.txt" ∷ []) (omega arith) (omega arith) (omega arith)
          (omega arith) s1 in
      (m2, rw run1 run2, s2)

  -- `demo_disk_streamer` too.
  pub demo_disk_streamer_lem :
      {image : ℕ → ℕ} (holds : Holds drive image) (d : Desk) (k : ℕ)
      → k + 1 < heap.table.size
      → Singles heap d.files.memory (upto k)
      → (m : Memory) × (demo_disk_streamer drive fuel heap d ≡ ok (with_memory d m))
        × Singles heap m (upto k)
  unfolding demo_disk_streamer disk_streamer_seek_pos disk_streamer_close
  demo_disk_streamer_lem holds d k room s =
      let (m1, given, s1) = new_stream heap usable d.files.memory k (omega arith) s in
      let read = read_bytes_lem holds 0x201 1 (omega arith) in
      let (m2, freed, s2) = free_one heap usable m1 (upto (k + 1)) k s1 (omega arith) in
      (m2, rw (given, read, freed) refl, Singles-ext (λ j lt. ground arith) s2)

-- From any memory and any screen, with a drive that holds a FAT16 volume with room for at most 128
-- entries in its root directory, of which `n`, less than the fuel, stand before the first unused
-- one, and with a 32-bit address of the task state segment: the start of
-- the kernel comes to its end, and then `demo_pparser` and `demo_disk_streamer` do, one after the
-- other. They leave the screen and the file system as they were, and the blocks of the heap that
-- are taken are those that the start had taken.
pub kernel_start-demo_pparser :
    {drive : Drive} {image : ℕ → ℕ} (holds : Holds drive image) (fuel n : ℕ) (img : Image)
    (t : Terminal) (m : Memory)
    → img.tss < 2 ^ 32
    → (header_at image).signature ≡ signature
    → IsVolume image (header_at image) n
    → n < fuel
    → (machine : Machine) × (m1 : Memory) × (m2 : Memory) × (kernel_start drive fuel img t m
        ≡ ok machine)
      × (demo_pparser drive fuel machine.heap (desk_of machine)
          ≡ ok (with_memory (desk_of machine) m1))
      × (demo_disk_streamer drive fuel machine.heap (with_memory (desk_of machine) m1)
          ≡ ok (with_memory (desk_of machine) m2))
      × ((taken : ℕ → Bool)
          → Singles kernel_heap machine.files.memory taken
          → Singles kernel_heap m2 taken)
kernel_start-demo_pparser {drive} holds fuel n img t m small signed v enough =
    let (machine, run, started) = kernel_start_lem holds fuel n img t m small signed v enough in
    let usable = paged-IsUsable kernel_heap kernel_heap-IsPaged in
    let desk = desk_of machine in
    let (m1, run1, s1) =
      demo_pparser_lem kernel_heap usable drive fuel desk 1031 (omega arith) started.blocks in
    let (m2, run2, s2) =
      demo_disk_streamer_lem kernel_heap usable drive fuel holds (with_memory desk m1) 1031
        (omega arith) s1 in
    let calls =
      subst
        (λ h.
          (demo_pparser drive fuel h desk ≡ ok (with_memory desk m1))
          × (demo_disk_streamer drive fuel h (with_memory desk m1) ≡ ok (with_memory desk m2)))
        (sym started.heap_is) (run1, run2) in
    (
      machine,
      m1,
      m2,
      run,
      calls.0,
      calls.1,
      λ taken old. record {
        marks = λ i lt. s2.marks i lt ∙ sym (started.blocks.marks i lt) ∙ old.marks i lt;
      },
    )
