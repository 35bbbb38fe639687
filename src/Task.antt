-- ===== src/Task.antt =====
-- task/tss.h: the task state segment, and `tss_init` of kernel.c.
use kernel_play.Prelude.{ℕ, ◌*◌}
use kernel_play.Config.{kernel_data_selector}

-- `tss_t`, in the order of its fields, each of 32 bits.
pub record Tss : Type 0 where
  pub link : ℕ
  pub esp0 : ℕ
  pub ss0 : ℕ
  pub esp1 : ℕ
  pub esp2 : ℕ
  pub ss2 : ℕ
  pub cr3 : ℕ
  pub eip : ℕ
  pub eflags : ℕ
  pub eax : ℕ
  pub ecx : ℕ
  pub edx : ℕ
  pub ebx : ℕ
  pub esp : ℕ
  pub ebp : ℕ
  pub esi : ℕ
  pub edi : ℕ
  pub es : ℕ
  pub cs : ℕ
  pub ss : ℕ
  pub ds : ℕ
  pub fs : ℕ
  pub gs : ℕ
  pub ldtr : ℕ
  pub iopb : ℕ
  pub ssp : ℕ

abbrev pub size_of_tss : ℕ
size_of_tss = 104

-- What `memset` leaves.
abbrev pub cleared_tss : Tss
cleared_tss = record {
  link = 0;
  esp0 = 0;
  ss0 = 0;
  esp1 = 0;
  esp2 = 0;
  ss2 = 0;
  cr3 = 0;
  eip = 0;
  eflags = 0;
  eax = 0;
  ecx = 0;
  edx = 0;
  ebx = 0;
  esp = 0;
  ebp = 0;
  esi = 0;
  edi = 0;
  es = 0;
  cs = 0;
  ss = 0;
  ds = 0;
  fs = 0;
  gs = 0;
  ldtr = 0;
  iopb = 0;
  ssp = 0;
}

-- The segment, and the selector that `tss_load` gets.
unfoldable pub tss_init : Tss × ℕ
tss_init = (record cleared_tss { esp0 = 0x600000; ss0 = kernel_data_selector }, 5 * 8)
