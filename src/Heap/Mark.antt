-- ===== src/Heap/Mark.antt =====
-- The entries that `heap_mark_table_entries_taken` writes, and how they read back.
use kernel_play.Prelude.{
  ℕ, zero, suc, ◌+◌, ◌-◌, ◌%◌, ◌≡◌, ◌∙◌, arith, ltb, if◌then◌else◌, rounds, bit_and, ℕ_discrete,
}
use kernel_play.Memory.{Memory, write}
use kernel_play.Memory.Fill.{inside}
use kernel_play.Heap.{new_entry, mark_from, heap_mark_table_entries_taken}

-- Every entry that is marked is odd, so its block is taken.
pub new_entry-odd : (start end cur : ℕ) → new_entry start end cur % 2 ≡ 1
unfolding new_entry
new_entry-odd start end cur = ground arith

-- An entry says that a block follows exactly when it is not the last one.
pub new_entry-has_next :
    (start end cur : ℕ) → ltb 0 (bit_and 0x80 (new_entry start end cur)) ≡ ltb cur (end - 1)
unfolding new_entry
new_entry-has_next start end cur = ground arith

mark_from-at :
    (m : Memory) (start end cur n a : ℕ)
    → mark_from m start end cur n a ≡ (if inside a cur n then new_entry start end a else m a)
unfolding mark_from
mark_from-at m start end cur zero a = ground arith
mark_from-at m start end cur (suc n) a =
    mark_from-at (write m cur (new_entry start end cur)) start end (cur + 1) n a ∙ step
  where
    step :
        (if inside a (cur + 1) n
          then new_entry start end a
          else write m cur (new_entry start end cur) a)
        ≡ (if inside a cur (suc n) then new_entry start end a else m a)
    step = elim (ℕ_discrete a cur) [
      | yes e ↦ unfold write in rw e (ground arith)
      | no ne ↦ unfold write in ground arith
    ]

-- Exactly the entries of the run are written.
pub mark-at :
    (m : Memory) (start blocks a : ℕ)
    → heap_mark_table_entries_taken m start blocks a
      ≡ (if inside a start (rounds blocks) then new_entry start (start + rounds blocks) a else m a)
unfolding heap_mark_table_entries_taken
mark-at m start blocks a = mark_from-at m start (start + rounds blocks) start (rounds blocks) a
