-- ===== src/Disk/Sector.antt =====
-- `read_from_disk` and `disk_read_sector` against the documented behaviour of the drive.
use kernel_play.Prelude.{
  ℕ, zero, suc, ◌+◌, ◌*◌, ◌/◌, ◌%◌, ◌^◌, ◌<◌, ◌≡◌, refl, ap, ap₂, ◌∙◌, [], ◌∷◌, arith, bit_or,
  bit_and, to_char, ◌==◌, ==_iff, true, not_negative, rounds,
}
use kernel_play.Prelude.Bits.{every, every-at, bit_and_byte}
use kernel_play.Config.{eio}
use kernel_play.Disk.{
  Drive, DiskRef, root_disk, null, other, shift_right, read_command, read_words, read_from_disk,
  disk_read_sector,
}
use kernel_play.Disk.Image.{bytes, lba28_read, Holds}

select_table : every (λ n. bit_or n 0xE0 == 0xE0 + n) 16 ≡ true
select_table = refl

select : (n : ℕ) → n < 16 → bit_or n 0xE0 ≡ 0xE0 + n
select n h = (==_iff _ _).0 (every-at (λ n. bit_or n 0xE0 == 0xE0 + n) 16 n select_table h)

shift_right_lem : (lba k : ℕ) → lba < 2 ^ 31 → shift_right lba k ≡ lba / 2 ^ k
shift_right_lem lba k h = rw (not_negative lba h)

-- For a 28-bit block number and up to 255 sectors the code writes the registers of a read.
pub read_command_lem :
    (lba total : ℕ) → lba < 2 ^ 28 → total < 256 → read_command lba total ≡ lba28_read lba total
unfolding read_command
read_command_lem lba total h k =
    let s24 = shift_right_lem lba 24 (omega arith) in
    let s16 = shift_right_lem lba 16 (omega arith) in
    let s8 = shift_right_lem lba 8 (omega arith) in
    let top : to_char (bit_or (lba / 2 ^ 24) 0xE0) ≡ 0xE0 + lba / 2 ^ 24 =
      omega (arith, select (lba / 2 ^ 24) (omega arith)) in
    let count : to_char total ≡ total = omega arith in
    let low : to_char (bit_and (to_char lba) 0xFF) ≡ lba % 256 =
      omega (arith, bit_and_byte (lba % 256)) in
    rw (s24, s16, s8, top, count, low)

module _ {drive : Drive} {image : ℕ → ℕ} (holds : Holds drive image) where
  read_words-bytes :
      (port : ℕ → ℕ) (p i n : ℕ)
      → ((j : ℕ) → j < i + n → port j ≡ image (p + 2 * j) + 256 * image (p + 2 * j + 1))
      → read_words port i n ≡ bytes image (p + 2 * i) (n * 2)
  unfolding read_words bytes
  read_words-bytes port p i zero h = refl
  read_words-bytes port p i (suc n) h =
      let q = p + 2 * i in
      let word = h i (omega arith) in
      let lo : port i % 256 ≡ image q = omega (arith, word, holds.byte q, holds.byte (q + 1)) in
      let hi : port i / 256 % 256 ≡ image (q + 1) =
        omega (arith, word, holds.byte q, holds.byte (q + 1)) in
      let place : p + 2 * (i + 1) ≡ q + 1 + 1 = omega arith in
      let count : suc (suc (n * 2)) ≡ suc n * 2 = omega arith in
      let rest = read_words-bytes port p (i + 1) n (λ j lt. h j (omega arith)) in
      ap₂ (λ a b. a ∷ b ∷ read_words port (i + 1) n) lo hi
      ∙ ap (λ l. image q ∷ image (q + 1) ∷ l) (rest ∙ ap (λ x. bytes image x (n * 2)) place)
      ∙ ap (bytes image q) count

  -- `read_from_disk` succeeds and stores the bytes of the `total` sectors from `lba` on.
  pub read_from_disk-bytes :
      (lba total : ℕ)
      → lba < 2 ^ 28
      → 0 < total
      → total < 256
      → read_from_disk drive lba total ≡ (0, bytes image (lba * 512) (total * 512))
  unfolding read_from_disk
  read_from_disk-bytes lba total h pos k =
      let count : rounds total * 256 ≡ total * 256 = ground arith in
      let size : total * 256 * 2 ≡ total * 512 = omega arith in
      let start : lba * 512 + 2 * 0 ≡ lba * 512 = omega arith in
      let port = drive (read_command lba total) in
      let same = ap drive (read_command_lem lba total h k) in
      let stored : read_words port 0 (total * 256)
          ≡ bytes image (lba * 512 + 2 * 0) (total * 256 * 2) =
        read_words-bytes port (lba * 512) 0 (total * 256)
          λ j lt. ap (λ f. f j) same ∙ holds.answer lba total j h pos k (omega arith) in
      ap (λ l. (0, l)) (ap (read_words port 0) count ∙ stored ∙ ap₂ (bytes image) start size)

  -- Sectors are read of the kernel's disk; for any other pointer the call returns -EIO.
  pub disk_read_sector-bytes :
      (disk : DiskRef) (lba total : ℕ)
      → lba < 2 ^ 28
      → 0 < total
      → total < 256
      → disk_read_sector drive disk lba total
        ≡ elim disk [ root_disk ↦ (0, bytes image (lba * 512) (total * 512)) | _ ↦ (eio, []) ]
  unfolding disk_read_sector
  disk_read_sector-bytes root_disk lba total h pos k = read_from_disk-bytes lba total h pos k
  disk_read_sector-bytes null lba total h pos k = refl
  disk_read_sector-bytes other lba total h pos k = refl
