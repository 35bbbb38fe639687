-- ===== src/Paging/Words.antt =====
-- Words that are written read back, and words apart do not change.
use kernel_play.Prelude.{ℕ, ◌+◌, ◌/◌, ◌%◌, ◌^◌, ◌≤◌, ◌<◌, ◌≡◌, arith, ◌⊎◌}
use kernel_play.Memory.{Memory, write}
use kernel_play.Paging.{read_word, write_word}

-- A written word is its own four bytes, and the rest of memory is as before.
pub write_word-apart : (m : Memory) (p v a : ℕ) → (a < p) ⊎ (p + 4 ≤ a) → write_word m p v a ≡ m a
unfolding write_word write
write_word-apart m p v a apart = ground arith

pub read_word-write_word_self :
    (m : Memory) (p v : ℕ) → v < 2 ^ 32 → read_word (write_word m p v) p ≡ v
unfolding read_word write_word write
read_word-write_word_self m p v small =
    let b0 : write_word m p v p ≡ v % 256 = ground arith in
    let b1 : write_word m p v (p + 1) ≡ v / 256 % 256 = ground arith in
    let b2 : write_word m p v (p + 2) ≡ v / 65536 % 256 = ground arith in
    let b3 : write_word m p v (p + 3) ≡ v / 16777216 % 256 = ground arith in
    omega (arith, b0, b1, b2, b3)

pub read_word-write_word_apart :
    (m : Memory) (p v q : ℕ)
    → (q + 4 ≤ p) ⊎ (p + 4 ≤ q)
    → read_word (write_word m p v) q ≡ read_word m q
unfolding read_word
read_word-write_word_apart m p v q apart =
    let b0 = write_word-apart m p v q (omega arith) in
    let b1 = write_word-apart m p v (q + 1) (omega arith) in
    let b2 = write_word-apart m p v (q + 2) (omega arith) in
    let b3 = write_word-apart m p v (q + 3) (omega arith) in omega (arith, b0, b1, b2, b3)

pub read_word-below : (m : Memory) (p : ℕ) → ((a : ℕ) → m a < 256) → read_word m p < 2 ^ 32
unfolding read_word
read_word-below m p byte = omega (arith, byte p, byte (p + 1), byte (p + 2), byte (p + 3))
