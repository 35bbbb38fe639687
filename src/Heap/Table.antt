-- ===== src/Heap/Table.antt =====
-- The table entries as numbers: which are free, and which say that a block follows.
use kernel_play.Prelude.{ℕ, zero, suc, ◌+◌, ◌%◌, ◌<◌, ◌≡◌, refl, true, arith, ◌==◌}
use kernel_play.Prelude.Bits.{one-bit_and}
use kernel_play.Memory.{Memory}
use kernel_play.Heap.{is_free_block, is_free_run}

-- A block is free when the lowest bit of its entry is clear.
pub is_free_block-even : (m : Memory) (p : ℕ) → is_free_block m p ≡ (m p % 2 == 0)
unfolding is_free_block
is_free_block-even m p = rw (one-bit_and (m p))

-- The `n` entries from `p` on are free.
abbrev pub FreeRun : Memory → ℕ → ℕ → Type 0
FreeRun m p n = (i : ℕ) → i < n → is_free_block m (p + i) ≡ true

-- What the loop of `is_free_blocks` decides.
pub is_free_run_sound : (m : Memory) (p n : ℕ) → is_free_run m p n ≡ true → FreeRun m p n
unfolding is_free_run
is_free_run_sound m p zero h i lt = absurd (omega arith)
is_free_run_sound m p (suc n) h zero lt = let e : p + 0 ≡ p = omega arith in rw e (ground arith)
is_free_run_sound m p (suc n) h (suc i) lt =
    let e : p + suc i ≡ p + 1 + i = omega arith in
    rw e (is_free_run_sound m (p + 1) n (ground arith) i (omega arith))

pub is_free_run_complete : (m : Memory) (p n : ℕ) → FreeRun m p n → is_free_run m p n ≡ true
unfolding is_free_run
is_free_run_complete m p zero h = refl
is_free_run_complete m p (suc n) h =
    let e : p + 0 ≡ p = omega arith in
    let head : is_free_block m p ≡ true = rw e at (h 0 (omega arith)) in
    rw head (is_free_run_complete m (p + 1) n rest)
  where
    rest : FreeRun m (p + 1) n
    rest i lt = let e : p + suc i ≡ p + 1 + i = omega arith in rw e at (h (suc i) (omega arith))
