-- ===== src/Fat/Count.antt =====
-- fat16_get_total_items_for_directory counts the items in use before the first unused entry.
use kernel_play.Prelude.{
  ℕ, zero, suc, ◌+◌, ◌*◌, ◌^◌, ◌≤◌, ◌<◌, ◌≡◌, ◌≢◌, refl, arith, false, ◌==◌, get_or, some,
  if◌then◌else◌, ◌+w◌, ◌*w◌, Bool-cases, inl, inr, subst,
}
use kernel_play.Prelude.Run.{ok}
use kernel_play.Disk.{Drive, disk_streamer_seek_pos}
use kernel_play.Disk.Image.{bytes, Holds}
use kernel_play.Disk.Stream.{at, read_bytes_lem}
use kernel_play.Fat.Layout.{FatPrivate}
use kernel_play.Fat.Directory.{count_items, get_total_items_for_directory}

-- How many of the `n` entries from `p` on are not deleted.
unfoldable pub used : (ℕ → ℕ) → ℕ → ℕ → ℕ
used image p zero = 0
used image p (suc n) =
    let rest = used image (p + 32) n in if image p == 0xE5 then rest else rest + 1

-- The `n` entries from `p` on are followed by the first that is unused.
pub record EndsAfter (image : ℕ → ℕ) (p n : ℕ) : Type 0 where
  pub filled : (k : ℕ) → k < n → image (p + 32 * k) ≢ 0
  pub last : image (p + 32 * n) ≡ 0

EndsAfter-tail : (image : ℕ → ℕ) (p n : ℕ) → EndsAfter image p (suc n) → EndsAfter image (p + 32) n
EndsAfter-tail image p n ends = record {
  filled = λ k lt. subst (λ a. image a ≢ 0) (omega arith) (ends.filled (suc k) (omega arith));
  last = subst (λ a. image a ≡ 0) (omega arith) ends.last;
}

pub used-bound : (image : ℕ → ℕ) (p n : ℕ) → used image p n ≤ n
unfolding used
used-bound image p zero = omega arith
used-bound image p (suc n) = ground (arith, used-bound image (p + 32) n)

first_byte : (image : ℕ → ℕ) (p n : ℕ) → get_or (bytes image p (suc n)) 0 0 ≡ image p
unfolding bytes
first_byte image p n = refl

module _ {drive : Drive} {image : ℕ → ℕ} (holds : Holds drive image) where
  count-Ends :
      (fuel n p count : ℕ)
      → n < fuel
      → EndsAfter image p n
      → p + 32 * (n + 1) < 2 ^ 31
      → count + n < 2 ^ 31
      → count_items drive fuel (at p) count ≡ ok (count + used image p n, at (p + 32 * (n + 1)))
  unfolding count_items used
  count-Ends zero n p count enough ends h small = absurd (omega arith)
  count-Ends (suc fuel) zero p count enough ends h small =
      let read = read_bytes_lem holds p 32 (omega arith) in
      let zero_byte : image p ≡ 0 = subst (λ a. image a ≡ 0) (omega arith) ends.last in
      let first = first_byte image p 31 in ground (arith, read, first, zero_byte)
  count-Ends (suc fuel) (suc n) p count enough ends h small =
      let read = read_bytes_lem holds p 32 (omega arith) in
      let byte : image p ≢ 0 =
        subst (λ a. image a ≢ 0) (omega arith) (ends.filled 0 (omega arith)) in
      let first = first_byte image p 31 in
      let used' = used-bound image (p + 32) n in
      let tail = EndsAfter-tail image p n ends in
      let skip = count-Ends fuel n (p + 32) count (omega arith) tail (omega arith) (omega arith) in
      let seen =
        count-Ends fuel n (p + 32) (count + 1) (omega arith) tail (omega arith) (omega arith) in
      let next : count +w 1 ≡ count + 1 = omega arith in
      let pos : p + 32 + 32 * (n + 1) ≡ p + 32 * (suc n + 1) = omega arith in
      let filled : (image p == 0) ≡ false = ground (arith, byte) in
      elim (Bool-cases (image p == 0xE5)) [
        | inl deleted ↦ ground (arith, read, first, filled, deleted, skip, pos)
        | inr kept ↦
            let sum : count + 1 + used image (p + 32) n ≡ count + (used image (p + 32) n + 1) =
              omega arith in
            ground (arith, read, first, filled, kept, next, seen, pos, sum)
      ]

  -- For a directory of `n` entries before its first unused one, the count is the number of entries
  -- that are not deleted, and the stream stands behind the unused entry; fuel for one more than `n`
  -- entries is enough.
  pub total_items-used :
      (fuel sector n p : ℕ) (fp : FatPrivate)
      → fp.directory_stream ≡ some (at p)
      → EndsAfter image (512 * sector) n
      → n < fuel
      → 512 * sector + 32 * (n + 1) < 2 ^ 31
      → get_total_items_for_directory drive 512 fuel fp sector
        ≡ ok (
          used image (512 * sector) n,
          record fp { directory_stream = some (at (512 * sector + 32 * (n + 1))) },
        )
  unfolding get_total_items_for_directory disk_streamer_seek_pos
  total_items-used fuel sector n p fp on ends enough h =
      let place : 512 *w sector ≡ 512 * sector = omega arith in
      let run = count-Ends fuel n (512 * sector) 0 enough ends h (omega arith) in
      ground (arith, on, place, run)
