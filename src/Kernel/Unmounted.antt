-- ===== src/Kernel/Unmounted.antt =====
-- The start of the kernel on a disk without a FAT16 volume.
use kernel_play.Prelude.{
  ℕ, ◌+◌, ◌*◌, ◌^◌, ◌≤◌, ◌<◌, ◌≡◌, ◌≢◌, refl, arith, Bool, false, none, some, List, [], ◌∷◌,
  replicate, length, ◌==◌,
}
use kernel_play.Prelude.Run.{ok}
use kernel_play.Memory.{Memory}
use kernel_play.Heap.Singles.{Singles, block, upto, without_block, IsFirstFree, zalloc_next}
use kernel_play.Disk.{Drive, disk_get}
use kernel_play.Disk.Image.{Holds}
use kernel_play.Fat.Layout.{FatPrivate}
use kernel_play.Fat.File.{signature}
use kernel_play.Fat.Mount.{blank}
use kernel_play.Fat.Mounting.{header_at}
use kernel_play.Fat.Resolve.{with_streams, fat16_resolve_refused}
use kernel_play.Registry.{
  fs_load, fs_insert_filesystem, get_free_filesystem, fs_resolve, disk_search_and_init,
}
use kernel_play.Files.{Files, fs_init, fopen, open_path}
use kernel_play.Volume.{Handle, fat16_fs}
use kernel_play.Terminal.{Terminal, terminal_init}
use kernel_play.PathParser.Parts.{AllNames}
use kernel_play.PathParser.Roots.{path_of, parts_text}
use kernel_play.PathParser.Release.{root_placed}
use kernel_play.Paging.{paging_4gb_chunk_get_directory, paging_switch}
use kernel_play.Paging.Walk.{translate}
use kernel_play.Paging.Blocks.{paged-IsUsable}
use kernel_play.Paging.Start.{
  kernel_heap, kernel_heap-IsPaged, cleared_table, init_run, init-Singles,
}
use kernel_play.Idt.{idtr_init}
use kernel_play.Task.{tss_init}
use kernel_play.Kernel.{Image, Machine, fat16, resolve_fat16, kernel_start}
use kernel_play.Kernel.Segments.{gdt_table_init-Selects}
use kernel_play.Kernel.Boot.{found_disk, paging_lem, welcome}
use kernel_play.Kernel.Session.{names_few}

-- The three streams that a refused mount keeps.
abbrev behind_refusal : ℕ → Bool
behind_refusal = without_block 0 (with_streams 0)

search_lem :
    {drive : Drive} {image : ℕ → ℕ} (holds : Holds drive image) (fuel : ℕ) (m : Memory)
    → (header_at image).signature ≢ signature
    → (m' : Memory) × (disk_search_and_init
          (resolve_fat16 drive fuel kernel_heap)
          (fs_load fat16)
          (cleared_table m)
        ≡ ok (found_disk none none, m'))
      × Singles kernel_heap m' behind_refusal
unfolding disk_search_and_init resolve_fat16 fs_load fs_insert_filesystem get_free_filesystem
    fs_resolve
search_lem holds fuel m unsigned =
    let (m', run, after) =
      fat16_resolve_refused kernel_heap (paged-IsUsable kernel_heap kernel_heap-IsPaged) holds fuel
        0 (cleared_table m) none unsigned (omega arith) (init-Singles m) in
    (m', rw run refl, after)

-- Where no disk is mounted opening fails.
fopen_unmounted :
    (drive : Drive) (fuel : ℕ) (files : Files FatPrivate Handle) (k : ℕ) (name : List ℕ)
    (names : List (List ℕ)) (tail mode_str : List ℕ)
    → files.mounted ≡ false
    → AllNames (name ∷ names)
    → length (parts_text name names) ≤ 253
    → k + 2 * length names + 2 < 25600
    → Singles kernel_heap files.memory (upto k)
    → (after : Files FatPrivate Handle) × (fopen
          (fat16_fs drive fuel kernel_heap)
          kernel_heap
          files
          (path_of 0 name names tail)
          mode_str
        ≡ ok (0, after))
unfolding fopen open_path disk_get
fopen_unmounted drive fuel files k name names tail mode_str unmounted clean short room s =
    let usable = paged-IsUsable kernel_heap kernel_heap-IsPaged in
    let (m0, given, s0) =
      zalloc_next kernel_heap usable files.memory k 8 (omega arith) (omega arith) (omega arith) s in
    let (m1, parsed, _) =
      root_placed kernel_heap usable m0 (record { drive_no = 0; parts = [] }) (k + 1) 0 name names
        tail (omega arith) clean short (omega arith) s0 in
    let some_root : (block kernel_heap k == 0) ≡ false = ground arith in
    (record files { memory = m1 }, rw (given, parsed, some_root, unmounted) refl)

-- From any memory and any screen, with a drive that holds an image whose header does not have the
-- signature, and with a 32-bit address of the task state segment: the start of the kernel comes to
-- its end with no file system on the disk, the loaded directory translates every 32-bit address to
-- itself through entries that are present, and opening any path on drive 0 whose names are at most 253 bytes with their separators
-- then returns 0.
pub kernel_start_unmounted :
    {drive : Drive} {image : ℕ → ℕ} (holds : Holds drive image) (fuel : ℕ) (img : Image)
    (t : Terminal) (m : Memory) (name : List ℕ) (names : List (List ℕ)) (tail mode_str : List ℕ)
    → img.tss < 2 ^ 32
    → (header_at image).signature ≢ signature
    → AllNames (name ∷ names)
    → length (parts_text name names) ≤ 253
    → (machine : Machine) × (after : Files FatPrivate Handle) × (kernel_start drive fuel img t m
        ≡ ok machine)
      × (machine.disk ≡ found_disk none none)
      × ((va : ℕ)
          → va < 2 ^ 32
          → translate machine.files.memory machine.loaded_directory va ≡ some va)
      × (fopen
            (fat16_fs drive fuel machine.heap)
            machine.heap
            machine.files
            (path_of 0 name names tail)
            mode_str
          ≡ ok (0, after))
unfolding kernel_start fs_init paging_switch
kernel_start_unmounted {drive} holds fuel img t m name names tail mode_str small unsigned clean
      short =
    let (gdt, gdt_run, segments, _, _, _) = gdt_table_init-Selects img.tss small in
    let (m2, mount_run, s2) = search_lem holds fuel m unsigned in
    let gap : IsFirstFree kernel_heap behind_refusal 0 = record {
      inside_table = omega arith;
      below = λ j lt. absurd (omega arith);
      free = refl;
    } in
    let (chunk, m3, paging_run, identity, s3) =
      paging_lem m2 7 behind_refusal 0 4 (omega arith) refl s2 gap (λ j. ground arith)
        (omega arith) in
    let (t1, print_run) = welcome (terminal_init t) in
    let directory = paging_4gb_chunk_get_directory m3 chunk in
    let files : Files FatPrivate Handle = record {
      slots = replicate 512 none;
      memory = m3;
      state = blank;
      mounted = false;
    } in
    let (after, refused) =
      fopen_unmounted drive fuel files 1029 name names tail mode_str refl clean short
        (omega (arith, names_few name names)) s3 in
    (
      record {
        terminal = t1;
        heap = kernel_heap;
        idt = (idtr_init img.idt_descriptors img.no_interrupt img.int21h).0;
        idtr = (idtr_init img.idt_descriptors img.no_interrupt img.int21h).1;
        gdt = gdt;
        gdt_size = 47;
        disk = found_disk none none;
        tss = tss_init.0;
        task_selector = tss_init.1;
        loaded_directory = directory;
        current_directory = directory;
        files = files;
      },
      after,
      rw (print_run, gdt_run, init_run m, mount_run, paging_run) refl,
      refl,
      identity,
      refused,
    )
