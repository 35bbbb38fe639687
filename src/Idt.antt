-- ===== src/Idt.antt =====
-- idt/idt.c: the table of interrupt gates. The addresses of the table and of the two handlers,
-- which are assembly, are parameters.
pub mod Gates
use kernel_play.Prelude.{
  [], ◌∷◌, ℕ, zero, suc, ◌+◌, ◌-◌, ◌*◌, ◌/◌, ◌^◌, List, bit_and, set, replicate,
}
use kernel_play.Prelude.Run.{Run, ok, ◌>>=◌}
use kernel_play.Prelude.Codes.{literal}
use kernel_play.Terminal.{Terminal, print_string}
use kernel_play.Config.{kernel_code_selector, os_total_interrupts}

-- `idt_desc`.
pub record IdtDesc : Type 0 where
  pub offset_1 : ℕ
  pub selector : ℕ
  pub zero_byte : ℕ
  pub type_attributes : ℕ
  pub offset_2 : ℕ

-- `idtr_desc`.
pub record IdtrDesc : Type 0 where
  pub limit : ℕ
  pub base : ℕ

-- The gate that `set_interrupt_handler` stores.
unfoldable pub gate : ℕ → IdtDesc
gate handler_addr = record {
  offset_1 = bit_and handler_addr 0xFFFF;
  selector = kernel_code_selector;
  zero_byte = 0x00;
  type_attributes = 0xEE;
  offset_2 = handler_addr / 2 ^ 16;
}

unfoldable pub set_interrupt_handler : List IdtDesc → ℕ → ℕ → List IdtDesc
set_interrupt_handler idt int_no handler_addr = set idt int_no (gate handler_addr)

-- The loop of `idtr_init`, over the interrupts that are left from `i` on.
unfoldable pub set_all : List IdtDesc → ℕ → ℕ → ℕ → List IdtDesc
set_all idt i zero handler = idt
set_all idt i (suc n) handler = set_all (set_interrupt_handler idt i handler) (i + 1) n handler

abbrev pub cleared : IdtDesc
cleared = record { offset_1 = 0; selector = 0; zero_byte = 0; type_attributes = 0; offset_2 = 0 }

-- `idtr_init` before the table is loaded.
unfoldable pub idtr_init : ℕ → ℕ → ℕ → List IdtDesc × IdtrDesc
idtr_init table_addr no_interrupt int21h =
    let cleared_table = replicate os_total_interrupts cleared in
    let filled = set_all cleared_table 0 os_total_interrupts no_interrupt in
    (
      set_interrupt_handler filled 0x21 int21h,
      record { limit = os_total_interrupts * 8 - 1; base = table_addr },
    )

-- The handlers: what is printed, and the bytes that go to ports, in order.
abbrev pub acknowledge : List (ℕ × ℕ)
acknowledge = (0x20, 0x20) ∷ []

unfoldable pub int21h_handler : Terminal → Run (Terminal × List (ℕ × ℕ))
int21h_handler t = do t' ← print_string t (literal "Keyboard pressed!!!"); ok (t', acknowledge)

unfoldable pub no_interrupt_handler : List (ℕ × ℕ)
no_interrupt_handler = acknowledge
