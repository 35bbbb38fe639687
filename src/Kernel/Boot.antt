-- ===== src/Kernel/Boot.antt =====
-- The start of the kernel on a disk that holds a FAT16 volume: what each part leaves for the next.
use kernel_play.Prelude.{
  ◌≤◌, ◌+◌, ◌%◌, ℕ, ◌^◌, ◌<◌, ◌≡◌, refl, sym, subst, ◌∙◌, arith, Bool, true, Option, none, some,
  map, replicate,
}
use kernel_play.Prelude.Run.{Run, ok}
use kernel_play.Prelude.Codes.{literal}
use kernel_play.Memory.{Memory}
use kernel_play.Heap.Singles.{with_block, Singles, block, upto, without_block, IsFirstFree}
use kernel_play.Disk.{Drive}
use kernel_play.Disk.Image.{Holds}
use kernel_play.Fat.Layout.{FatPrivate}
use kernel_play.Fat.File.{signature}
use kernel_play.Fat.Mounting.{header_at, IsVolume, mounted_of}
use kernel_play.Fat.Resolve.{fat16_resolve_lem}
use kernel_play.Registry.{
  RootDisk, fs_load, fs_insert_filesystem, get_free_filesystem, fs_resolve, disk_search_and_init,
}
use kernel_play.Files.{fs_init}
use kernel_play.Terminal.{Terminal, terminal_init, print_string}
use kernel_play.Paging.{paging_new_4gb, paging_4gb_chunk_get_directory, paging_switch}
use kernel_play.Paging.Walk.{translate}
use kernel_play.Paging.Whole.{paging_new_4gb-identity}
use kernel_play.Paging.Blocks.{Singles-HasRoom, paged-IsUsable, paging_new_4gb-Singles}
use kernel_play.Paging.Start.{
  kernel_heap, kernel_heap-IsPaged, cleared_table, init_run, init-Singles,
}
use kernel_play.Idt.{idtr_init}
use kernel_play.Task.{tss_init}
use kernel_play.Gdt.Decode.{segment_of}
use kernel_play.Kernel.{
  Image, Machine, Registered, fat16, gdt_structured_table, resolve_fat16, kernel_start,
}
use kernel_play.Kernel.Segments.{gdt_table_init-Selects}

-- The root disk behind the search for its file system.
abbrev pub found_disk : Option Registered → Option FatPrivate → RootDisk Registered FatPrivate
found_disk fs p = record { id = 0; kind = 0; sector_size = 512; filesystem = fs; fs_private = p }

-- Mounting takes five blocks of an empty table and one behind a gap.
abbrev pub behind_mount : ℕ → Bool
behind_mount = without_block 4 (upto 6)

mount_lem :
    {drive : Drive} {image : ℕ → ℕ} (holds : Holds drive image) (fuel n : ℕ) (m : Memory)
    → (header_at image).signature ≡ signature
    → IsVolume image (header_at image) n
    → n < fuel
    → (m' : Memory) × (disk_search_and_init
          (resolve_fat16 drive fuel kernel_heap)
          (fs_load fat16)
          (cleared_table m)
        ≡ ok (
          found_disk
              (some fat16)
              (some (mounted_of image (header_at image) n (block kernel_heap 5))),
          m',
        ))
      × Singles kernel_heap m' behind_mount
unfolding disk_search_and_init resolve_fat16 fs_load fs_insert_filesystem get_free_filesystem
    fs_resolve
mount_lem holds fuel n m signed v enough =
    let (m', run, after) =
      fat16_resolve_lem kernel_heap (paged-IsUsable kernel_heap kernel_heap-IsPaged) holds fuel n 0
        (cleared_table m) none signed v enough (omega arith) (init-Singles m) in
    (m', rw run refl, after)

-- Where the first free block completes the first `k`, the page tables take it and 1025 more.
pub paging_lem :
    (m : Memory) (flags : ℕ) (taken : ℕ → Bool) (i k : ℕ)
    → flags < 256
    → flags % 2 ≡ 1
    → Singles kernel_heap m taken
    → IsFirstFree kernel_heap taken i
    → ((j : ℕ) → with_block i taken j ≡ upto k j)
    → k + 1026 ≤ 25600
    → (chunk : ℕ) × (m' : Memory) × (paging_new_4gb kernel_heap m flags ≡ ok (chunk, m'))
      × ((va : ℕ)
          → va < 2 ^ 32
          → translate m' (paging_4gb_chunk_get_directory m' chunk) va ≡ some va)
      × Singles kernel_heap m' (upto (k + 1025))
paging_lem m flags taken i k small present s gap complete room =
    let (chunk, m', run, identity) =
      paging_new_4gb-identity kernel_heap kernel_heap-IsPaged m flags small present
        (Singles-HasRoom k 1026 s (λ j above. let all = complete j in ground (arith, all)) room) in
    let (chunk', m'', run', after) =
      paging_new_4gb-Singles kernel_heap kernel_heap-IsPaged m flags taken i k s gap complete
        (omega arith) in
    let both : ◌≡◌ {A = Run (ℕ × Memory)} (ok (chunk', m'')) (ok (chunk, m')) = sym run' ∙ run in
    let same : m'' ≡ m' = cc both in
    (chunk, m', run, identity, subst (λ x. Singles kernel_heap x (upto (k + 1025))) same after)

-- What the start leaves: the file system's own state of the disk, the memory, the tables, and the
-- blocks that are taken.
pub record IsStarted (img : Image) (private : FatPrivate) (machine : Machine) : Type 0 where
  pub heap_is : machine.heap ≡ kernel_heap
  pub disk_is : machine.disk ≡ found_disk (some fat16) (some private)
  pub state_is : machine.files.state ≡ private
  pub mounted : machine.files.mounted ≡ true
  pub none_open : machine.files.slots ≡ replicate 512 none
  pub blocks : Singles kernel_heap machine.files.memory (upto 1031)
  pub segments : map segment_of machine.gdt ≡ gdt_structured_table img.tss
  pub identity :
      (va : ℕ) → va < 2 ^ 32 → translate machine.files.memory machine.loaded_directory va ≡ some va

pub welcome : (t : Terminal) → (t' : Terminal) × (print_string t (literal "Welcome!\n") ≡ ok t')
unfolding print_string
welcome t = (_, refl)

-- From any memory and any screen, with a drive that holds an image whose header has the signature
-- and describes a volume with room for at most 128 entries in its root directory, of which `n`, less
-- than the fuel, stand before the first unused one, and with a 32-bit address of the task segment, the start of the kernel comes to its end: the disk is
-- mounted with the header and the root directory that it holds, no file is open, the segment table
-- reads back as the segments, the loaded directory translates every 32-bit address to itself through
-- entries that are present, and the first 1031 blocks of the heap are taken and no other.
pub kernel_start_lem :
    {drive : Drive} {image : ℕ → ℕ} (holds : Holds drive image) (fuel n : ℕ) (img : Image)
    (t : Terminal) (m : Memory)
    → img.tss < 2 ^ 32
    → (header_at image).signature ≡ signature
    → IsVolume image (header_at image) n
    → n < fuel
    → (machine : Machine) × (kernel_start drive fuel img t m ≡ ok machine)
      × IsStarted img (mounted_of image (header_at image) n (block kernel_heap 5)) machine
unfolding kernel_start fs_init paging_switch
kernel_start_lem {image = image} holds fuel n img t m small signed v enough =
    let (gdt, gdt_run, segments, _, _, _) = gdt_table_init-Selects img.tss small in
    let (m2, mount_run, s2) = mount_lem holds fuel n m signed v enough in
    let gap : IsFirstFree kernel_heap behind_mount 4 = record {
      inside_table = omega arith;
      below = λ j lt. ground arith;
      free = refl;
    } in
    let (chunk, m3, paging_run, identity, s3) =
      paging_lem m2 7 behind_mount 4 6 (omega arith) refl s2 gap (λ j. ground arith)
        (omega arith) in
    let (t1, print_run) = welcome (terminal_init t) in
    let directory = paging_4gb_chunk_get_directory m3 chunk in
    let private = mounted_of image (header_at image) n (block kernel_heap 5) in
    (
      record {
        terminal = t1;
        heap = kernel_heap;
        idt = (idtr_init img.idt_descriptors img.no_interrupt img.int21h).0;
        idtr = (idtr_init img.idt_descriptors img.no_interrupt img.int21h).1;
        gdt = gdt;
        gdt_size = 47;
        disk = found_disk (some fat16) (some private);
        tss = tss_init.0;
        task_selector = tss_init.1;
        loaded_directory = directory;
        current_directory = directory;
        files = record { slots = replicate 512 none; memory = m3; state = private; mounted = true };
      },
      rw (print_run, gdt_run, init_run m, mount_run, paging_run) refl,
      record {
        heap_is = refl;
        disk_is = refl;
        state_is = refl;
        mounted = refl;
        none_open = refl;
        blocks = s3;
        segments = segments;
        identity = identity;
      },
    )
