-- ===== src/Disk/Stream.antt =====
-- `disk_streamer_read_bytes` reads the bytes of the image from the stream's position on, across
-- sectors.
use kernel_play.Prelude.{
  ℕ, zero, suc, ◌+◌, ◌-◌, ◌*◌, ◌/◌, ◌%◌, ◌^◌, ◌≤◌, ◌<◌, ◌≡◌, ap, ◌∙◌, [], arith, true, false,
  rounds, ◌+w◌, ◌-w◌, int_div, int_mod, int_lt, int_le, dec_lt,
}
use kernel_play.Prelude.Run.{ok}
use kernel_play.Disk.{
  Drive, root_disk, Streamer, disk_read_sector, copy_out, read_bytes_fuel, disk_streamer_read_bytes,
}
use kernel_play.Disk.Image.{bytes, Holds, bytes-append, copy_out-bytes}
use kernel_play.Disk.Sector.{disk_read_sector-bytes}

-- A stream of the kernel's disk.
abbrev pub at : ℕ → Streamer
at p = record { pos = p; disk = root_disk }

module _ {drive : Drive} {image : ℕ → ℕ} (holds : Holds drive image) where
  -- The sector that a round reads, and the part of it that it copies.
  round :
      (p k : ℕ)
      → p < 2 ^ 31
      → p % 512 + k ≤ 512
      → copy_out (disk_read_sector drive root_disk (p / 512) 1).1 (p % 512) k ≡ ok (bytes image p k)
  round p k h fits =
      let sector =
        disk_read_sector-bytes holds root_disk (p / 512) 1 (omega arith) (omega arith)
          (omega arith) in
      let place : p / 512 * 512 + p % 512 ≡ p = omega arith in
      ap (λ r. copy_out r.1 (p % 512) k) sector
      ∙ copy_out-bytes image (p / 512 * 512) 512 (p % 512) k fits (omega arith)
      ∙ ap (λ q. ok (bytes image q k)) place

  sector_result : (p : ℕ) → p < 2 ^ 31 → (disk_read_sector drive root_disk (p / 512) 1).0 ≡ 0
  sector_result p h =
      ap (λ r. r.0)
        (disk_read_sector-bytes holds root_disk (p / 512) 1 (omega arith) (omega arith)
          (omega arith))

  read_nothing :
      (fuel p : ℕ) → read_bytes_fuel drive (suc fuel) (at p) 0 ≡ ok (0, bytes image p 0, at (p + 0))
  unfolding read_bytes_fuel bytes
  read_nothing fuel p = let e : p ≡ p + 0 = omega arith in ap (λ q. ok (0, [], at q)) e

  read_last :
      (fuel p total : ℕ)
      → p + total < 2 ^ 31
      → 0 < total
      → p % 512 + total ≤ 512
      → read_bytes_fuel drive (suc fuel) (at p) total ≡ ok (0, bytes image p total, at (p + total))
  unfolding read_bytes_fuel
  read_last fuel p total h pos fits =
      let e1 : int_le total 0 ≡ false = ground arith in
      let e2 : int_div p 512 ≡ p / 512 = ground arith in
      let e3 : int_mod p 512 ≡ p % 512 = ground arith in
      let e4 : 512 -w (p % 512) ≡ 512 - p % 512 = omega arith in
      let e5 : int_lt (512 - p % 512) total ≡ false = ground arith in
      let e6 : rounds total ≡ total = ground arith in
      let e7 : p +w total ≡ p + total = omega arith in
      ground (
        arith,
        e1,
        e2,
        e3,
        e4,
        e5,
        sector_result p (omega arith),
        e6,
        round p total (omega arith) fits,
        e7,
      )

  read_across :
      (fuel p total : ℕ)
      → p + total < 2 ^ 31
      → 512 < p % 512 + total
      → let here = 512 - p % 512 in
        read_bytes_fuel drive fuel (at (p + here)) (total - here)
          ≡ ok (0, bytes image (p + here) (total - here), at (p + here + (total - here)))
        → read_bytes_fuel drive (suc fuel) (at p) total
          ≡ ok (0, bytes image p total, at (p + total))
  unfolding read_bytes_fuel
  read_across fuel p total h past rest =
      let here = 512 - p % 512 in
      let e1 : int_le total 0 ≡ false = ground arith in
      let e2 : int_div p 512 ≡ p / 512 = ground arith in
      let e3 : int_mod p 512 ≡ p % 512 = ground arith in
      let e4 : 512 -w (p % 512) ≡ here = omega arith in
      let e5 : int_lt here total ≡ true = ground arith in
      let e6 : rounds here ≡ here = ground arith in
      let e7 : p +w here ≡ p + here = omega arith in
      let e8 : total -w here ≡ total - here = omega arith in
      let e9 : here + (total - here) ≡ total = omega arith in
      let e10 : p + here + (total - here) ≡ p + total = omega arith in
      ground (
        arith,
        e1,
        e2,
        e3,
        e4,
        e5,
        sector_result p (omega arith),
        e6,
        round p here (omega arith) (omega arith),
        e7,
        e8,
        rest,
        bytes-append image p here (total - here),
        e9,
        e10,
      )

  read_fuel :
      (fuel p total : ℕ)
      → total < fuel
      → p + total < 2 ^ 31
      → read_bytes_fuel drive fuel (at p) total ≡ ok (0, bytes image p total, at (p + total))
  read_fuel zero p total enough h = absurd (omega arith)
  read_fuel (suc fuel) p zero enough h = read_nothing fuel p
  read_fuel (suc fuel) p (suc total) enough h = elim (dec_lt 512 (p % 512 + suc total)) [
    | no fits ↦ read_last fuel p (suc total) h (omega arith) (omega arith)
    | yes past ↦ read_across fuel p (suc total) h past (
        read_fuel fuel (p + (512 - p % 512)) (suc total - (512 - p % 512)) (omega arith)
          (omega arith))
  ]

  -- A read of `total` bytes returns 0, stores exactly the bytes of the image from the position of
  -- the stream on, in order, however many sectors they touch, and moves the stream by `total`.
  pub read_bytes_lem :
      (p total : ℕ)
      → p + total < 2 ^ 31
      → disk_streamer_read_bytes drive (at p) total ≡ ok (0, bytes image p total, at (p + total))
  unfolding disk_streamer_read_bytes
  read_bytes_lem p total h = read_fuel (total + 1) p total (omega arith) h
