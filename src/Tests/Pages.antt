-- ===== src/Tests/Pages.antt =====
-- Paging at concrete inputs.
use kernel_play.Prelude.{
  ℕ, ◌+◌, ◌*◌, ◌/◌, ◌^◌, ◌<◌, ◌≡◌, ◌%◌, some, none, ◌≢◌, refl, arith, if◌then◌else◌, ◌==◌, inr,
}
use kernel_play.Prelude.Run.{ok}
use kernel_play.Memory.{Memory}
use kernel_play.Heap.{Heap, is_free_block}
use kernel_play.Paging.{paging_set_value, read_word, paging_new_4gb, paging_4gb_chunk_get_directory}
use kernel_play.Paging.Walk.{place, table_of, translate, set_value-translate}
use kernel_play.Paging.Pages.{IsPaged, HasRoom}
use kernel_play.Paging.Whole.{paging_new_4gb-identity}
use kernel_play.Tests.Heaps.{zeros}

-- A directory at address 8192 whose first table stands at 0x5000 and is present.
abbrev tables : Memory
tables a = if a == 8192 then 1 else if a == 8193 then 0x50 else 0

tables-byte : (a : ℕ) → tables a < 256
tables-byte a = ground arith

third_place : place tables 8192 0x3000 ≡ 0x500C
unfolding place table_of read_word
third_place = refl

present : read_word tables (8192 + 4 * (0x3000 / 2 ^ 22)) % 2 ≡ 1
unfolding read_word
present = refl

set_value-translate_example :
    (m' : Memory) × (paging_set_value tables 8192 0x3000 0x9003 ≡ (0, m'))
    × ((off : ℕ)
        → off < 4096
        → translate m' 8192 (0x3000 + off)
          ≡ (if 0x9003 % 2 == 1 then some (0x9003 / 4096 * 4096 + off) else none))
    × ((vb : ℕ)
        → vb < 2 ^ 32
        → place tables 8192 vb ≢ place tables 8192 0x3000
        → translate m' 8192 vb ≡ translate tables 8192 vb)
set_value-translate_example =
    set_value-translate tables 8192 0x3000 0x9003 tables-byte refl (omega arith) (omega arith)
      present (inr (omega (arith, third_place)))

-- A heap of 1026 blocks, all free, with its pages from 8192 on.
abbrev pages : Heap
pages = record { table = record { entries = 100; size = 1026 }; start_addr = 8192 }

pages-IsPaged : IsPaged pages
pages-IsPaged = record {
  placed = record { apart = omega arith; low = omega arith };
  some_table = omega arith;
  aligned = refl;
}

pages-HasRoom : HasRoom pages zeros 1026
unfolding is_free_block
pages-HasRoom = record {
  start = 100;
  above = omega arith;
  below = omega arith;
  free = λ i lt. refl;
}

paging_new_4gb-identity_example :
    (chunk : ℕ) × (m' : Memory) × (paging_new_4gb pages zeros 7 ≡ ok (chunk, m'))
    × ((va : ℕ) → va < 2 ^ 32 → translate m' (paging_4gb_chunk_get_directory m' chunk) va ≡ some va)
paging_new_4gb-identity_example =
    paging_new_4gb-identity pages pages-IsPaged zeros 7 (omega arith) refl pages-HasRoom
