-- ===== src/Idt/Gates.antt =====
-- The handler that the processor calls for each interrupt of the table of `idtr_init`.
use kernel_play.Prelude.{
  length-replicate, ℕ, zero, suc, ◌+◌, ◌*◌, ◌^◌, ◌≤◌, ◌<◌, ◌≡◌, refl, subst, ◌∙◌, arith, List,
  length, get_elem?, set, replicate, some, length-set, get_elem?-set_self, get_elem?-set_ne,
  ℕ_discrete, if◌then◌else◌, ◌==◌, ◌/◌, ◌%◌, true, false,
}
use kernel_play.Prelude.Bits.{bit_and_half}
use kernel_play.Idt.{IdtDesc, gate, set_interrupt_handler, set_all, idtr_init, cleared}

-- The address that the two halves of a gate give.
abbrev pub handler_of : IdtDesc → ℕ
handler_of desc = desc.offset_1 + 2 ^ 16 * desc.offset_2

-- The gate as the processor reads its bytes: present, at the privilege level 3, of the type of a
-- 32-bit interrupt gate, which is 0xE, with 0 in the unused byte, into the segment of the kernel's
-- code, to the handler.
pub record LeadsTo (desc : IdtDesc) (handler : ℕ) : Type 0 where
  pub present : desc.type_attributes / 128 % 2 ≡ 1
  pub level : desc.type_attributes / 32 % 4 ≡ 3
  pub system : desc.type_attributes / 16 % 2 ≡ 0
  pub kind : desc.type_attributes % 16 ≡ 0xE
  pub unused : desc.zero_byte ≡ 0
  pub segment : desc.selector ≡ 0x08
  pub target : handler_of desc ≡ handler

gate-LeadsTo : (handler : ℕ) → handler < 2 ^ 32 → LeadsTo (gate handler) handler
unfolding gate
gate-LeadsTo handler small = record {
  present = refl;
  level = refl;
  system = refl;
  kind = refl;
  unused = refl;
  segment = refl;
  target = omega (arith, bit_and_half handler);
}

length-set_all :
    (idt : List IdtDesc) (i n handler : ℕ) → length (set_all idt i n handler) ≡ length idt
unfolding set_all set_interrupt_handler
length-set_all idt i zero handler = refl
length-set_all idt i (suc n) handler =
    length-set_all (set idt i (gate handler)) (i + 1) n handler ∙ length-set idt i (gate handler)

set_all-before :
    (idt : List IdtDesc) (i n handler k : ℕ)
    → k < i
    → get_elem? (set_all idt i n handler) k ≡ get_elem? idt k
unfolding set_all set_interrupt_handler
set_all-before idt i zero handler k lt = refl
set_all-before idt i (suc n) handler k lt =
    set_all-before (set idt i (gate handler)) (i + 1) n handler k (omega arith)
    ∙ get_elem?-set_ne idt (gate handler) (omega (arith, lt))

set_all-at :
    (idt : List IdtDesc) (i n handler k : ℕ)
    → i ≤ k
    → k < i + n
    → k < length idt
    → get_elem? (set_all idt i n handler) k ≡ some (gate handler)
unfolding set_all set_interrupt_handler
set_all-at idt i zero handler k le lt inside = absurd (omega arith)
set_all-at idt i (suc n) handler k le lt inside =
    let idt' = set idt i (gate handler) in
    let size = length-set idt i (gate handler) in
    elim (ℕ_discrete i k) [
      | yes same ↦
          set_all-before idt' (i + 1) n handler k (omega (arith, same))
          ∙ subst (λ j. get_elem? idt' j ≡ some (gate handler)) same
              (get_elem?-set_self idt i (gate handler) (omega (arith, same)))
      | no ne ↦
          set_all-at idt' (i + 1) n handler k (omega arith) (omega arith) (omega (arith, size))
    ]

-- With 32-bit addresses of the handlers, behind `idtr_init` the gate of each of the 512 interrupts is
-- a present 32-bit interrupt gate for all privilege levels into the kernel's code segment, selector
-- 0x08, and leads to a handler: that of the keyboard for 0x21, and the one that only acknowledges for
-- every other.
pub idtr_init-handlers :
    (table_addr no_interrupt int21h k : ℕ)
    → no_interrupt < 2 ^ 32
    → int21h < 2 ^ 32
    → k < 512
    → (desc : IdtDesc) × (get_elem? (idtr_init table_addr no_interrupt int21h).0 k ≡ some desc)
      × LeadsTo desc (if k == 0x21 then int21h else no_interrupt)
unfolding idtr_init set_interrupt_handler
idtr_init-handlers table_addr no_interrupt int21h k small small' inside =
    let idt = set_all (replicate 512 cleared) 0 512 no_interrupt in
    let size : length idt ≡ 512 =
      length-set_all (replicate 512 cleared) 0 512 no_interrupt ∙ length-replicate 512 cleared in
    elim (ℕ_discrete 0x21 k) [
      | yes same ↦ (
        gate int21h,
        subst (λ j. get_elem? (set idt 0x21 (gate int21h)) j ≡ some (gate int21h)) same
            (get_elem?-set_self idt 0x21 (gate int21h) (omega (arith, size))),
        let hit : (k == 0x21) ≡ true = ground (arith, same) in rw hit (gate-LeadsTo int21h small'),
      )
      | no ne ↦ (
        gate no_interrupt,
        get_elem?-set_ne idt (gate int21h) ne
            ∙ set_all-at (replicate 512 cleared) 0 512 no_interrupt k (omega arith) (omega arith)
                (omega (arith, length-replicate 512 cleared)),
        let miss : (k == 0x21) ≡ false = ground (arith, ne) in
            rw miss (gate-LeadsTo no_interrupt small),
      )
    ]
