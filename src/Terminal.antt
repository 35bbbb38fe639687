-- ===== src/Terminal.antt =====
-- terminal/terminal.c: text output to the video memory, 16 bits for each character.
pub mod Print
use kernel_play.Prelude.{
  ℕ, zero, suc, ◌+◌, ◌*◌, ◌%◌, List, [], ◌∷◌, bit_or, if◌then◌else◌, ◌==◌, leb, char_int, word,
  ◌*w◌,
}
use kernel_play.Prelude.Run.{Run, ok, fault}

abbrev pub terminal_width : ℕ
terminal_width = 80

abbrev pub terminal_height : ℕ
terminal_height = 80

-- `video_mem` by index, and the cursor.
pub record Terminal : Type 0 where
  pub video_mem : ℕ → ℕ
  pub row : ℕ
  pub col : ℕ

-- The characters are promoted with their sign, and the result keeps the low 16 bits.
unfoldable pub make_char : ℕ → ℕ → ℕ
make_char c colour = bit_or (char_int colour *w 256) (char_int c) % 65536

unfoldable pub put : (ℕ → ℕ) → ℕ → ℕ → ℕ → ℕ
put mem i v j = if j == i then v else mem j

unfoldable pub print_char : Terminal → ℕ → Terminal
print_char t c =
    if c == 10
    then record t { row = t.row + 1; col = 0 }
    else (let mem = put t.video_mem (t.row * terminal_width + t.col) (make_char c 0xF) in
        if leb terminal_width (t.col + 1)
        then record { video_mem = mem; row = t.row + 1; col = 0 }
        else record { video_mem = mem; row = t.row; col = t.col + 1 })

-- Up to the terminator; a text without one is read past its end.
unfoldable pub print_string : Terminal → List ℕ → Run Terminal
print_string t [] = fault
print_string t (c ∷ input) = if c == 0 then ok t else print_string (print_char t c) input

-- The inner loop of `terminal_init`, over the rows that are left from `j` on.
unfoldable pub clear_column : (ℕ → ℕ) → ℕ → ℕ → ℕ → ℕ → ℕ
clear_column mem i j zero = mem
clear_column mem i j (suc n) =
    clear_column (put mem (j * terminal_width + i) (make_char 0x20 0)) i (j + 1) n

unfoldable pub clear_columns : (ℕ → ℕ) → ℕ → ℕ → ℕ → ℕ
clear_columns mem i zero = mem
clear_columns mem i (suc n) = clear_columns (clear_column mem i 0 terminal_height) (i + 1) n

unfoldable pub terminal_init : Terminal → Terminal
terminal_init t = record t { video_mem = clear_columns t.video_mem 0 terminal_width }
