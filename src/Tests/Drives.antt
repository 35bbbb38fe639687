-- ===== src/Tests/Drives.antt =====
-- A drive that answers from an image: it takes the block number from the registers.
use kernel_play.Prelude.{ℕ, ◌+◌, ◌-◌, ◌*◌, ◌/◌, ◌%◌, ◌^◌, ◌<◌, ◌≡◌, ap, ◌∷◌, arith}
use kernel_play.Disk.{Drive}
use kernel_play.Disk.Image.{Holds}

abbrev pub word_at : (ℕ → ℕ) → ℕ → ℕ → ℕ
word_at image lba i = image (lba * 512 + 2 * i) + 256 * image (lba * 512 + 2 * i + 1)

abbrev pub ata : (ℕ → ℕ) → Drive
ata image ((_, top) ∷ (_, n) ∷ (_, low) ∷ (_, mid) ∷ (_, high) ∷ rest) i =
    word_at image ((top - 0xE0) * 2 ^ 24 + high * 65536 + mid * 256 + low) i
ata image _ i = 0

-- Any image of bytes is held by its drive.
pub ata-Holds : (image : ℕ → ℕ) → ((a : ℕ) → image a < 256) → Holds (ata image) image
ata-Holds image small = record {
  byte = small;
  answer = λ lba total i h pos k lt.
      let e : (0xE0 + lba / 2 ^ 24 - 0xE0) * 2 ^ 24
            + lba / 65536 % 256 * 65536
            + lba / 256 % 256 * 256
            + lba % 256
          ≡ lba =
        omega arith in
      ap (λ b. word_at image b i) e;
}
