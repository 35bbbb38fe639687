-- ===== src/Kernel/Segments.antt =====
-- The segment table of the kernel as the processor reads it.
use kernel_play.Prelude.{ℕ, ◌/◌, ◌≡◌, ◌<◌, refl, ap, List, map, arith, some, get_elem?}
use kernel_play.Prelude.Run.{ok}
use kernel_play.Config.{kernel_code_selector}
use kernel_play.Gdt.{Gdt, GdtStructured, is_refused}
use kernel_play.Gdt.Decode.{AllSegments, IsSegment, segment_of, gdt_roundtrip}
use kernel_play.Task.{tss_init, size_of_tss}
use kernel_play.Kernel.{gdt_structured_table, gdt_table_init}

-- The whole address space, with an access byte.
abbrev pub flat : ℕ → GdtStructured
flat access = record { base = 0; limit = 0xFFFFFFFF; access_type = access }

flat-IsSegment : (access : ℕ) → IsSegment (flat access)
unfolding is_refused
flat-IsSegment access = record {
  base_small = omega arith;
  limit_small = omega arith;
  accepted = refl;
}

table-AllSegments :
    (tss_addr : ℕ) → tss_addr < 4294967296 → AllSegments (gdt_structured_table tss_addr)
unfolding is_refused
table-AllSegments tss_addr small =
    let null : IsSegment (record { base = 0; limit = 0; access_type = 0 }) = record {
      base_small = omega arith;
      limit_small = omega arith;
      accepted = refl;
    } in
    let task : IsSegment (record { base = tss_addr; limit = size_of_tss; access_type = 0xE9 }) =
      record { base_small = small; limit_small = omega arith; accepted = refl } in
    (
      null,
      (
        flat-IsSegment 0x9A,
        (flat-IsSegment 0x92, (flat-IsSegment 0xF8, (flat-IsSegment 0xF2, (task, tt)))),
      ),
    )

-- The descriptor that a selector names is read back as the segment.
abbrev pub Selects : List Gdt → ℕ → GdtStructured → Type 0
Selects table selector s = get_elem? (map segment_of table) (selector / 8) ≡ some s

-- For a task segment at any 32-bit address `gdt_table_init` makes six descriptors and loads the 48
-- bytes of them. The selectors that the kernel uses then name what they are meant for: the code
-- selector of the interrupt gates and the data selector of the task's stack the whole address
-- space, and the selector that `tss_init` loads the task segment.
pub gdt_table_init-Selects :
    (tss_addr : ℕ)
    → tss_addr < 4294967296
    → (table : List Gdt) × (gdt_table_init tss_addr ≡ ok (table, 47))
      × (map segment_of table ≡ gdt_structured_table tss_addr)
      × Selects table kernel_code_selector (flat 0x9A)
      × Selects table (tss_init.0).ss0 (flat 0x92)
      × Selects table tss_init.1
          (record { base = tss_addr; limit = size_of_tss; access_type = 0xE9 })
unfolding gdt_table_init tss_init
gdt_table_init-Selects tss_addr small =
    let (table, run, back) =
      gdt_roundtrip (gdt_structured_table tss_addr) (table-AllSegments tss_addr small) in
    let at : (i : ℕ)
        → get_elem? (map segment_of table) i ≡ get_elem? (gdt_structured_table tss_addr) i =
      λ i. ap (λ l. get_elem? l i) back in
    (table, rw run refl, back, at 1, at 2, at 5)
