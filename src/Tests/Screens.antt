-- ===== src/Tests/Screens.antt =====
-- The terminal and the segment table at concrete inputs.
use kernel_play.Prelude.{ℕ, ◌+◌, ◌≡◌, refl, List, [], ◌∷◌, ◌++◌, map, arith}
use kernel_play.Prelude.Run.{ok}
use kernel_play.Terminal.{Terminal, print_string}
use kernel_play.Terminal.Print.{cursor, IsOnLine, printed, print_string_lem}
use kernel_play.Gdt.{Gdt, GdtStructured, is_refused, gdt_structured_to_gdt}
use kernel_play.Gdt.Decode.{AllSegments, segment_of, gdt_roundtrip}

-- Two cells before the end of a line.
abbrev near_end : Terminal
near_end = record { video_mem = λ j. 0; row = 1; col = 78 }

print_string_lem_example :
    (t' : Terminal) × (print_string near_end ((65 ∷ 66 ∷ 67 ∷ []) ++ 0 ∷ []) ≡ ok t')
    × (cursor t' ≡ cursor near_end + 3)
    × IsOnLine t'
    × ((j : ℕ) → t'.video_mem j ≡ printed near_end (65 ∷ 66 ∷ 67 ∷ []) j)
print_string_lem_example =
    print_string_lem (65 ∷ 66 ∷ 67 ∷ []) [] near_end (omega arith) (omega arith)

-- The null segment and the code segment of the kernel.
abbrev null_segment : GdtStructured
null_segment = record { base = 0; limit = 0; access_type = 0 }

abbrev code_segment : GdtStructured
code_segment = record { base = 0; limit = 0xFFFFFFFF; access_type = 0x9A }

-- A limit of more than 64 KiB that is no whole number of pages.
abbrev odd_segment : GdtStructured
odd_segment = record { base = 0; limit = 0x10000; access_type = 0x92 }

two_accepted : AllSegments (null_segment ∷ code_segment ∷ [])
unfolding is_refused
two_accepted = (
  record { base_small = omega arith; limit_small = omega arith; accepted = refl },
  (record { base_small = omega arith; limit_small = omega arith; accepted = refl }, tt),
)

gdt_roundtrip_example :
    (gs : List Gdt) × (gdt_structured_to_gdt (null_segment ∷ code_segment ∷ []) 2 ≡ ok (0, gs))
    × (map segment_of gs ≡ null_segment ∷ code_segment ∷ [])
gdt_roundtrip_example = gdt_roundtrip (null_segment ∷ code_segment ∷ []) two_accepted
