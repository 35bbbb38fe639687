-- ===== src/Tests/Gates.antt =====
-- The gate of the keyboard's interrupt, with a table and handlers at made-up addresses.
use kernel_play.Prelude.{◌≡◌, arith, some, get_elem?, if◌then◌else◌, ◌==◌}
use kernel_play.Idt.{IdtDesc, idtr_init}
use kernel_play.Idt.Gates.{LeadsTo, idtr_init-handlers}

idtr_init-handlers_example :
    (desc : IdtDesc) × (get_elem? (idtr_init 0x3000 0x100020 0x100340).0 0x21 ≡ some desc)
    × LeadsTo desc (if 0x21 == 0x21 then 0x100340 else 0x100020)
idtr_init-handlers_example =
    idtr_init-handlers 0x3000 0x100020 0x100340 0x21 (omega arith) (omega arith) (omega arith)
