-- ===== src/Paging/Walk.antt =====
-- The walk that the processor makes through the tables, and what `paging_set_value` changes in it.
use kernel_play.Prelude.{
  ℕ, ◌+◌, ◌*◌, ◌/◌, ◌%◌, ◌^◌, ◌≤◌, ◌<◌, ◌≡◌, ◌≢◌, refl, ◌∙◌, arith, ◌⊎◌, true, ◌==◌, ap, Option,
  some, none, if◌then◌else◌,
}
use kernel_play.Prelude.Bits.{bit_and-upper}
use kernel_play.Memory.{Memory}
use kernel_play.Paging.{read_word, write_word, paging_is_address_aligned, paging_set_value}
use kernel_play.Paging.Words.{
  read_word-write_word_self, read_word-write_word_apart, read_word-below,
}

-- The table and the entry in it that translate an address, and the address that it stands for.
unfoldable pub table_of : Memory → ℕ → ℕ → ℕ
table_of m directory va = read_word m (directory + 4 * (va / 2 ^ 22)) / 4096 * 4096

unfoldable pub place : Memory → ℕ → ℕ → ℕ
place m directory va = table_of m directory va + 4 * (va / 4096 % 1024)

-- What an entry of a table gives for an address of its page: nothing, where its PRESENT bit, the
-- lowest one, is 0.
unfoldable pub frame_of : ℕ → ℕ → Option ℕ
frame_of entry va = if entry % 2 == 1 then some (entry / 4096 * 4096 + va % 4096) else none

-- `none` is a page fault: the entry of the directory or the entry of the table is not present.
unfoldable pub translate : Memory → ℕ → ℕ → Option ℕ
translate m directory va =
    if read_word m (directory + 4 * (va / 2 ^ 22)) % 2 == 1
    then frame_of (read_word m (place m directory va)) va
    else none

-- Behind a present entry of the directory the entry of the table decides.
pub translate_linked :
    (m : Memory) (directory va entry : ℕ)
    → read_word m (directory + 4 * (va / 2 ^ 22)) % 2 ≡ 1
    → read_word m (place m directory va) ≡ entry
    → translate m directory va ≡ frame_of entry va
unfolding translate
translate_linked m directory va entry linked value =
    let test : (read_word m (directory + 4 * (va / 2 ^ 22)) % 2 == 1) ≡ true =
      ground (arith, linked) in
    rw (test, value) refl

-- Addresses of one page are translated by one entry.
place-page :
    (m : Memory) (directory va off : ℕ)
    → va % 4096 ≡ 0
    → off < 4096
    → place m directory (va + off) ≡ place m directory va
unfolding place table_of
place-page m directory va off aligned inside =
    let high : (va + off) / 2 ^ 22 ≡ va / 2 ^ 22 = omega arith in
    let low : (va + off) / 4096 % 1024 ≡ va / 4096 % 1024 = omega arith in rw (high, low) refl

-- A store outside the directory keeps which entry translates an address.
place-write_word :
    (m : Memory) (directory p v va : ℕ)
    → va < 2 ^ 32
    → (p + 4 ≤ directory) ⊎ (directory + 4096 ≤ p)
    → place (write_word m p v) directory va ≡ place m directory va
unfolding place table_of
place-write_word m directory p v va small apart =
    let same = read_word-write_word_apart m p v (directory + 4 * (va / 2 ^ 22)) (omega arith) in
    rw same refl

places_apart :
    (m : Memory) (directory va vb : ℕ)
    → place m directory vb ≢ place m directory va
    → (place m directory vb + 4 ≤ place m directory va)
      ⊎ (place m directory va + 4 ≤ place m directory vb)
unfolding place table_of
places_apart m directory va vb other = omega (arith, other)

set_value_run :
    (m : Memory) (directory va entry : ℕ)
    → ((a : ℕ) → m a < 256)
    → va % 4096 ≡ 0
    → paging_set_value m directory va entry ≡ (0, write_word m (place m directory va) entry)
unfolding paging_set_value paging_is_address_aligned place table_of
set_value_run m directory va entry byte aligned =
    let upper =
      bit_and-upper (read_word m (directory + 4 * (va / 2 ^ 22)))
        (read_word-below m (directory + 4 * (va / 2 ^ 22)) byte) in
    let low : va % 4194304 / 4096 ≡ va / 4096 % 1024 = omega arith in
    let test : (va % 4096 == 0) ≡ true = ground (arith, aligned) in rw (test, upper, low) refl

-- For a page-aligned 32-bit address whose table is present in the directory and whose entry lies
-- outside the directory, `paging_set_value` returns 0. Where the new entry has the PRESENT bit each
-- address of the page then translates to the frame of the new entry, and where it has not to none.
-- The addresses of all pages that other entries translate are translated as before.
pub set_value-translate :
    (m : Memory) (directory va entry : ℕ)
    → ((a : ℕ) → m a < 256)
    → va % 4096 ≡ 0
    → va < 2 ^ 32
    → entry < 2 ^ 32
    → read_word m (directory + 4 * (va / 2 ^ 22)) % 2 ≡ 1
    → (place m directory va + 4 ≤ directory) ⊎ (directory + 4096 ≤ place m directory va)
    → (m' : Memory) × (paging_set_value m directory va entry ≡ (0, m'))
      × ((off : ℕ)
          → off < 4096
          → translate m' directory (va + off)
            ≡ (if entry % 2 == 1 then some (entry / 4096 * 4096 + off) else none))
      × ((vb : ℕ)
          → vb < 2 ^ 32
          → place m directory vb ≢ place m directory va
          → translate m' directory vb ≡ translate m directory vb)
unfolding translate frame_of
set_value-translate m directory va entry byte aligned small entry_small present apart =
    let m' = write_word m (place m directory va) entry in
    let link : (x : ℕ)
        → x < 2 ^ 32
        → read_word m' (directory + 4 * (x / 2 ^ 22)) ≡ read_word m (directory + 4 * (x / 2 ^ 22)) =
      (λ x h.
        read_word-write_word_apart m (place m directory va) entry (directory + 4 * (x / 2 ^ 22))
          (omega (arith, h, apart))) in
    (
      m',
      set_value_run m directory va entry byte aligned,
      (λ off inside.
          let spot =
            place-page m' directory va off aligned inside
            ∙ place-write_word m directory (place m directory va) entry va small apart in
          let value = read_word-write_word_self m (place m directory va) entry entry_small in
          let high : (va + off) / 2 ^ 22 ≡ va / 2 ^ 22 = omega arith in
          let linked : read_word m' (directory + 4 * ((va + off) / 2 ^ 22)) % 2 ≡ 1 =
            rw high (omega (arith, link va small, present)) in
          let low : (va + off) % 4096 ≡ off = omega arith in
          translate_linked m' directory (va + off) entry linked (ap (read_word m') spot ∙ value)
          ∙ rw low refl),
      (λ vb below other.
          let spot = place-write_word m directory (place m directory va) entry vb below apart in
          let value =
            read_word-write_word_apart m (place m directory va) entry (place m directory vb)
              (places_apart m directory va vb other) in
          rw (link vb below, spot, value) refl),
    )
