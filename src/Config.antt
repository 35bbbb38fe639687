-- ===== src/Config.antt =====
-- The constants of config.h and the error codes, which functions return negated.
use kernel_play.Prelude.{ℕ, neg}

abbrev pub kernel_data_selector : ℕ
kernel_data_selector = 0x10

abbrev pub kernel_code_selector : ℕ
kernel_code_selector = 0x8

abbrev pub os_total_interrupts : ℕ
os_total_interrupts = 512

abbrev pub disk_sector_size : ℕ
disk_sector_size = 512

abbrev pub kernel_heap_size : ℕ
kernel_heap_size = 0x6400000

abbrev pub kernel_heap_block_size : ℕ
kernel_heap_block_size = 4096

abbrev pub kernel_heap_address : ℕ
kernel_heap_address = 0x01000000

abbrev pub kernel_heap_table_address : ℕ
kernel_heap_table_address = 0x00007E00

abbrev pub max_filesystems : ℕ
max_filesystems = 12

abbrev pub max_filedescriptors : ℕ
max_filedescriptors = 512

-- `-EIO`, `-EINVARG` and the others, as the patterns that the functions return.
abbrev pub eio : ℕ
eio = neg 1

abbrev pub einvarg : ℕ
einvarg = neg 2

abbrev pub enomem : ℕ
enomem = neg 3

abbrev pub efsnotus : ℕ
efsnotus = neg 4

abbrev pub erdonly : ℕ
erdonly = neg 5

abbrev pub eunimp : ℕ
eunimp = neg 99
