-- ===== src/Disk/Image.antt =====
-- The content of a disk as a function from a position to its byte, and the documented answer of an
-- ATA drive to a 28-bit read command.
use kernel_play.Prelude.{
  ℕ, zero, suc, ◌+◌, ◌*◌, ◌/◌, ◌%◌, ◌^◌, ◌≤◌, ◌<◌, ◌≡◌, refl, ap, ap₂, ◌∙◌, List, [], ◌∷◌, ◌++◌,
  arith, length, some, get_elem?, ◌+w◌,
}
use kernel_play.Prelude.Run.{ok}
use kernel_play.Disk.{Drive, PortWrite, copy_out}

-- The `n` bytes from position `p` on.
unfoldable pub bytes : (ℕ → ℕ) → ℕ → ℕ → List ℕ
bytes image p zero = []
bytes image p (suc n) = image p ∷ bytes image (p + 1) n

-- The registers of a read of `total` sectors from block `lba` on: drive 0 in LBA mode with the
-- top four bits, the count, the other three bytes, and READ SECTORS.
abbrev pub lba28_read : ℕ → ℕ → List PortWrite
lba28_read lba total =
    (0x1F6, 0xE0 + lba / 2 ^ 24)
    ∷ (0x1F2, total)
    ∷ (0x1F3, lba % 256)
    ∷ (0x1F4, lba / 256 % 256)
    ∷ (0x1F5, lba / 65536 % 256)
    ∷ (0x1F7, 0x20)
    ∷ []

-- The drive holds the image: it answers a read of `total` sectors with their words in order, each
-- with its first byte low.
pub record Holds (drive : Drive) (image : ℕ → ℕ) : Type 0 where
  pub byte : (a : ℕ) → image a < 256
  pub answer :
      (lba total i : ℕ)
      → lba < 2 ^ 28
      → 0 < total
      → total < 256
      → i < total * 256
      → drive (lba28_read lba total) i
        ≡ image (lba * 512 + 2 * i) + 256 * image (lba * 512 + 2 * i + 1)

copy_out-some :
    (buf : List ℕ) (at k : ℕ) {v : ℕ} {rest : List ℕ}
    → get_elem? buf at ≡ some v
    → copy_out buf (at +w 1) k ≡ ok rest
    → copy_out buf at (suc k) ≡ ok (v ∷ rest)
unfolding copy_out
copy_out-some buf at k h r = ground (arith, h, r)

module _ (image : ℕ → ℕ) where
  pub length-bytes : (p n : ℕ) → length (bytes image p n) ≡ n
  unfolding bytes
  length-bytes p zero = refl
  length-bytes p (suc n) = ap suc (length-bytes (p + 1) n)

  -- Two stretches that meet.
  pub bytes-append : (p n k : ℕ) → bytes image p n ++ bytes image (p + n) k ≡ bytes image p (n + k)
  unfolding bytes
  bytes-append p zero k =
      let e : p + 0 ≡ p = omega arith in let f : k ≡ 0 + k = omega arith in ap₂ (bytes image) e f
  bytes-append p (suc n) k =
      let e : p + suc n ≡ p + 1 + n = omega arith in
      let f : suc (n + k) ≡ suc n + k = omega arith in
      ap (λ q. image p ∷ bytes image (p + 1) n ++ bytes image q k) e
      ∙ ap (λ l. image p ∷ l) (bytes-append (p + 1) n k)
      ∙ ap (bytes image p) f

  pub get_elem?-bytes : (p n i : ℕ) → i < n → get_elem? (bytes image p n) i ≡ some (image (p + i))
  unfolding bytes
  get_elem?-bytes p zero i h = absurd (omega arith)
  get_elem?-bytes p (suc n) zero h = ap (λ x. some (image x)) (omega arith)
  get_elem?-bytes p (suc n) (suc i) h =
      get_elem?-bytes (p + 1) n i (omega arith) ∙ ap (λ x. some (image x)) (omega arith)

  -- A copy inside the buffer gives the bytes at that place of the image.
  pub copy_out-bytes :
      (p n at k : ℕ)
      → at + k ≤ n
      → n < 2 ^ 32
      → copy_out (bytes image p n) at k ≡ ok (bytes image (p + at) k)
  unfolding copy_out bytes
  copy_out-bytes p n at zero h small = refl
  copy_out-bytes p n at (suc k) h small =
      let next : at +w 1 ≡ at + 1 = omega arith in
      let shift : p + (at + 1) ≡ p + at + 1 = omega arith in
      let rest : copy_out (bytes image p n) (at + 1) k ≡ ok (bytes image (p + at + 1) k) =
        rw shift at (copy_out-bytes p n (at + 1) k (omega arith) small) in
      copy_out-some (bytes image p n) at k (get_elem?-bytes p n at (omega arith))
        (ap (λ j. copy_out (bytes image p n) j k) next ∙ rest)
