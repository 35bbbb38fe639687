-- ===== src/Tests/Kernels.antt =====
-- The number 305, its announcement, and the segment table with a task segment at 0x20000.
use kernel_play.Prelude.{
  ℕ, ◌≡◌, ◌≤◌, ◌<◌, refl, List, [], ◌∷◌, ◌++◌, arith, map, suc, length, drop, replicate,
}
use kernel_play.Prelude.Run.{ok}
use kernel_play.Prelude.Codes.{codes}
use kernel_play.Config.{kernel_code_selector}
use kernel_play.Text.{itoa, itoa_digits, reverse_from, store, load}
use kernel_play.Text.Length.{c_string}
use kernel_play.Text.Decimal.{AllDigits, read_from, itoa-read_from}
use kernel_play.Terminal.{Terminal}
use kernel_play.Terminal.Print.{printed}
use kernel_play.Gdt.{Gdt}
use kernel_play.Gdt.Decode.{segment_of}
use kernel_play.Task.{tss_init, size_of_tss}
use kernel_play.Kernel.{gdt_structured_table, gdt_table_init}
use kernel_play.Kernel.Segments.{flat, Selects, gdt_table_init-Selects}
use kernel_play.Kernel.Demos.{count_and_print}
use kernel_play.Kernel.Count.{announcement, count_and_print_lem}

abbrev stack : List ℕ
stack = replicate 12 7

itoa-read_from_example :
    (digits : List ℕ) × (itoa 305 stack ≡ ok (digits ++ 0 ∷ drop (suc (length digits)) stack))
    × AllDigits digits
    × (0 < length digits)
    × (length digits ≤ 10)
    × (read_from 0 digits ≡ 305)
itoa-read_from_example = itoa-read_from 305 stack (omega arith) (omega arith) (omega arith)

-- What evaluating gives.
itoa_305 : itoa 305 stack ≡ ok (codes "305" ++ 0 ∷ replicate 8 7)
unfolding itoa itoa_digits reverse_from store load
itoa_305 = refl

abbrev screen : Terminal
screen = record { video_mem = λ j. 0; row = 0; col = 0 }

count_and_print_lem_example :
    (digits : List ℕ) × (t' : Terminal) × (count_and_print stack screen
        (c_string (codes "abc") (9 ∷ []))
      ≡ ok t')
    × AllDigits digits
    × (read_from 0 digits ≡ 3)
    × (t'.col ≡ 0)
    × ((j : ℕ) → t'.video_mem j ≡ printed screen (announcement ++ digits) j)
count_and_print_lem_example =
    count_and_print_lem stack (codes "abc") (9 ∷ []) screen (omega arith) (omega arith)
      (omega arith) (omega arith) (omega arith)

gdt_table_init-Selects_example :
    (table : List Gdt) × (gdt_table_init 0x20000 ≡ ok (table, 47))
    × (map segment_of table ≡ gdt_structured_table 0x20000)
    × Selects table kernel_code_selector (flat 0x9A)
    × Selects table (tss_init.0).ss0 (flat 0x92)
    × Selects table tss_init.1 (record { base = 0x20000; limit = size_of_tss; access_type = 0xE9 })
gdt_table_init-Selects_example = gdt_table_init-Selects 0x20000 (omega arith)
