-- ===== src/Kernel.antt =====
-- kernel.c: the start of the kernel. The addresses of the static tables and of the handlers in
-- assembly are parameters. What is loaded into registers is part of the machine.
pub mod Segments
pub mod Demos
pub mod Count
pub mod Main
pub mod Boot
pub mod Session
pub mod Parsing
pub mod Unmounted
use kernel_play.Prelude.{
  ℕ, ◌-◌, ◌*◌, Bool, true, false, Option, none, some, List, [], ◌∷◌, if◌then◌else◌, is_negative,
  bit_or, ◌==◌,
}
use kernel_play.Prelude.Run.{Run, ok, fault, ◌>>=◌}
use kernel_play.Prelude.Codes.{literal}
use kernel_play.Memory.{Memory}
use kernel_play.Heap.{Heap, kheap_init}
use kernel_play.Disk.{Drive}
use kernel_play.Fat.Layout.{FatPrivate}
use kernel_play.Fat.Mount.{DiskState, blank, fat16_resolve}
use kernel_play.Files.{Files, fs_init}
use kernel_play.Registry.{RootDisk, fs_load, disk_search_and_init}
use kernel_play.Volume.{Handle, fat16_fs}
use kernel_play.Gdt.{Gdt, GdtStructured, gdt_structured_to_gdt}
use kernel_play.Idt.{IdtDesc, IdtrDesc, idtr_init}
use kernel_play.Task.{Tss, tss_init, size_of_tss}
use kernel_play.Terminal.{Terminal, terminal_init, print_string}
use kernel_play.Paging.{
  paging_new_4gb, paging_4gb_chunk_get_directory, paging_switch, is_writable, access_from_all,
  is_present,
}

abbrev pub total_gdt_segments : ℕ
total_gdt_segments = 6

-- `gdt_structured_table`, with the address of the static task state segment.
abbrev pub gdt_structured_table : ℕ → List GdtStructured
gdt_structured_table tss_addr =
    record { base = 0x00; limit = 0x00; access_type = 0x00 }
    ∷ record { base = 0x00; limit = 0xFFFFFFFF; access_type = 0x9A }
    ∷ record { base = 0x00; limit = 0xFFFFFFFF; access_type = 0x92 }
    ∷ record { base = 0x00; limit = 0xFFFFFFFF; access_type = 0xF8 }
    ∷ record { base = 0x00; limit = 0xFFFFFFFF; access_type = 0xF2 }
    ∷ record { base = tss_addr; limit = size_of_tss; access_type = 0xE9 }
    ∷ []

-- `gdt_table_init`: the table, and the size that `gdt_load` gets. The result of the conversion is
-- not tested.
unfoldable pub gdt_table_init : ℕ → Run (List Gdt × ℕ)
gdt_table_init tss_addr = do
  (_, table) ← gdt_structured_to_gdt (gdt_structured_table tss_addr) total_gdt_segments
  ok (table, total_gdt_segments * 8 - 1)

-- What `panic` leaves on the screen before its endless loop.
unfoldable pub panic : Terminal → List ℕ → Run Terminal
panic t msg = do
  t1 ← print_string t (literal "\n")
  t2 ← print_string t1 (literal "panic: ")
  t3 ← print_string t2 msg
  print_string t3 (literal "\n")

-- The file systems that `fs_load` registers: the one of fat16.c.
pub data Registered : Type 0 where
  fat16 : Registered

-- The addresses that the linker gives.
pub record Image : Type 0 where
  pub tss : ℕ
  pub idt_descriptors : ℕ
  pub no_interrupt : ℕ
  pub int21h : ℕ

-- The machine behind the start: the tables and what the registers point to.
pub record Machine : Type 0 where
  pub terminal : Terminal
  pub heap : Heap
  pub idt : List IdtDesc
  pub idtr : IdtrDesc
  pub gdt : List Gdt
  pub gdt_size : ℕ
  pub disk : RootDisk Registered FatPrivate
  pub tss : Tss
  pub task_selector : ℕ
  pub loaded_directory : ℕ
  pub current_directory : ℕ
  pub files : Files FatPrivate Handle

-- `fat16_resolve` on the root disk.
unfoldable pub resolve_fat16 :
    Drive
    → ℕ
    → Heap
    → Registered
    → RootDisk Registered FatPrivate × Memory
    → Run (ℕ × (RootDisk Registered FatPrivate × Memory))
resolve_fat16 drive fuel heap _ (disk, m) = do
  (res, state, m') ←
      fat16_resolve drive fuel heap m
        (record { id = disk.id; sector_size = disk.sector_size; mounted = disk.fs_private })
  let mounted : RootDisk Registered FatPrivate = record disk { fs_private = state.mounted }
  ok (res, (mounted, m'))

abbrev private_or_blank : Option FatPrivate → FatPrivate
private_or_blank none = blank
private_or_blank (some fp) = fp

abbrev has_filesystem : Option Registered → Bool
has_filesystem none = false
has_filesystem (some _) = true

-- `kernel_main` up to the demonstrations. `fs_init` empties the descriptors at the end here, since no
-- call before it reads them.
unfoldable pub kernel_start : Drive → ℕ → Image → Terminal → Memory → Run Machine
kernel_start drive fuel image t m = do
  t1 ← print_string (terminal_init t) (literal "Welcome!\n")
  let (idt, idtr) = idtr_init image.idt_descriptors image.no_interrupt image.int21h
  (gdt, gdt_size) ← gdt_table_init image.tss
  (res, heap, m1) ← kheap_init m
  t2 ← if is_negative res then print_string t1 (literal "Failed to create kernel heap\n") else ok t1
  (disk, m2) ← disk_search_and_init (resolve_fat16 drive fuel heap) (fs_load fat16) m1
  let (tss, task_selector) = tss_init
  (chunk, m3) ← paging_new_4gb heap m2 (bit_or (bit_or is_writable access_from_all) is_present)
  let (loaded, current) = paging_switch (paging_4gb_chunk_get_directory m3 chunk)
  let opened : Files FatPrivate Handle = record {
    slots = [];
    memory = m3;
    state = private_or_blank disk.fs_private;
    mounted = has_filesystem disk.filesystem;
  }
  ok (record {
    terminal = t2;
    heap = heap;
    idt = idt;
    idtr = idtr;
    gdt = gdt;
    gdt_size = gdt_size;
    disk = disk;
    tss = tss;
    task_selector = task_selector;
    loaded_directory = loaded;
    current_directory = current;
    files = fs_init (fat16_fs drive fuel heap) heap opened;
  })
