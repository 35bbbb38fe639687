-- ===== src/Paging/Identity.antt =====
-- The tables that `paging_new_4gb` fills map each page to itself.
use kernel_play.Prelude.{
  ℕ, zero, suc, ◌+◌, ◌*◌, ◌/◌, ◌%◌, ◌^◌, ◌≤◌, ◌<◌, ◌≡◌, refl, ap, ◌∙◌, arith, ◌⊎◌, bit_or, ◌+w◌,
  ◌*w◌, subst, ℕ_discrete,
}
use kernel_play.Prelude.Bits.{bit_or-disjoint, bit_or_step, bit_or-zero}
use kernel_play.Memory.{Memory}
use kernel_play.Paging.{read_word, write_word, fill_table}
use kernel_play.Paging.Words.{read_word-write_word_self, read_word-write_word_apart}

-- The entry that stands for a page keeps the flags in its low bits.
entry_lem : (frame flags : ℕ) → flags < 256 → bit_or (frame * 4096) flags ≡ frame * 4096 + flags
entry_lem frame flags small = bit_or-disjoint 12 frame flags (omega arith)

-- A further flag does not reach the address.
writable_lem : (x : ℕ) → bit_or x 2 / 4096 ≡ x / 4096
writable_lem x = omega (arith, bit_or_step x 2, bit_or_step (x / 2) 1, bit_or-zero (x / 2 / 2))

-- Words before the entries that are left to fill do not change.
fill_table-before :
    (m : Memory) (table offset flags j n p : ℕ)
    → (p + 4 ≤ table + 4 * j) ⊎ (table + 4 * (j + n) ≤ p)
    → read_word (fill_table m table offset flags j n) p ≡ read_word m p
unfolding fill_table
fill_table-before m table offset flags j zero p apart = refl
fill_table-before m table offset flags j (suc n) p apart =
    let v = bit_or (offset +w j *w 4096) flags in
    fill_table-before (write_word m (table + 4 * j) v) table offset flags (j + 1) n p (omega arith)
    ∙ read_word-write_word_apart m (table + 4 * j) v p (omega arith)

-- The entry with the index `i` of a filled table.
fill_table-at :
    (m : Memory) (table base flags j n i : ℕ)
    → flags < 256
    → base + j + n ≤ 2 ^ 20
    → j ≤ i
    → i < j + n
    → read_word (fill_table m table (base * 4096) flags j n) (table + 4 * i)
      ≡ (base + i) * 4096 + flags
unfolding fill_table
fill_table-at m table base flags j zero i small fits le lt = absurd (omega arith)
fill_table-at m table base flags j (suc n) i small fits le lt =
    let v = bit_or (base * 4096 +w j *w 4096) flags in
    let frame : base * 4096 +w j *w 4096 ≡ (base + j) * 4096 = omega arith in
    let value : v ≡ (base + j) * 4096 + flags = rw frame (entry_lem (base + j) flags small) in
    let m' = write_word m (table + 4 * j) v in
    elim (ℕ_discrete j i) [
      | yes same ↦
          let later =
            fill_table-before m' table (base * 4096) flags (j + 1) n (table + 4 * j)
              (omega arith) in
          let here = read_word-write_word_self m (table + 4 * j) v (omega (arith, value)) in
          subst
            (λ k.
              read_word (fill_table m' table (base * 4096) flags (j + 1) n) (table + 4 * k)
              ≡ (base + k) * 4096 + flags)
            same (later ∙ here ∙ value)
      | no ne ↦
          fill_table-at m' table base flags (j + 1) n i small (omega arith) (omega arith)
            (omega arith)
    ]

-- The memory behind a round that fills the table at a page.
abbrev pub filled : Memory → ℕ → ℕ → ℕ → Memory
filled m table flags i = fill_table m (table * 4096) (i * 4194304) flags 0 1024

abbrev pub linked : Memory → ℕ → ℕ → ℕ → ℕ → Memory
linked m directory table flags i =
    write_word (filled m table flags i) (directory + 4 * i) (bit_or (bit_or (table * 4096) flags) 2)

-- The entry of the directory keeps the lowest flag, too.
pub linked_directory :
    (m : Memory) (directory table flags i : ℕ)
    → table < 2 ^ 20
    → flags < 256
    → (read_word (linked m directory table flags i) (directory + 4 * i) / 4096 ≡ table)
      × (read_word (linked m directory table flags i) (directory + 4 * i) % 2 ≡ flags % 2)
linked_directory m directory table flags i below small =
    let entry = bit_or (bit_or (table * 4096) flags) 2 in
    let high : entry / 4096 ≡ table =
      omega (arith, writable_lem (bit_or (table * 4096) flags), entry_lem table flags small) in
    let value =
      read_word-write_word_self (filled m table flags i) (directory + 4 * i) entry
        (omega (arith, high)) in
    let low : entry % 2 ≡ flags % 2 =
      omega (arith, bit_or_step (bit_or (table * 4096) flags) 2, entry_lem table flags small) in
    (omega (arith, value, high), omega (arith, value, low))

pub linked_table :
    (m : Memory) (directory table flags i k : ℕ)
    → flags < 256
    → i < 1024
    → k < 1024
    → (table * 4096 + 4096 ≤ directory) ⊎ (directory + 4096 ≤ table * 4096)
    → read_word (linked m directory table flags i) (table * 4096 + 4 * k)
      ≡ (i * 1024 + k) * 4096 + flags
linked_table m directory table flags i k small inside lt apart =
    let kept =
      read_word-write_word_apart (filled m table flags i) (directory + 4 * i)
        (bit_or (bit_or (table * 4096) flags) 2) (table * 4096 + 4 * k) (omega arith) in
    let offset : i * 4194304 ≡ i * 1024 * 4096 = omega arith in
    let at_k =
      fill_table-at m (table * 4096) (i * 1024) flags 0 1024 k small (omega arith) (omega arith)
        (omega arith) in
    kept
    ∙ ap (λ o. read_word (fill_table m (table * 4096) o flags 0 1024) (table * 4096 + 4 * k)) offset
    ∙ at_k
