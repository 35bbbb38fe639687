-- ===== src/Fat/Resolve.antt =====
-- fat16_resolve as a whole, on a disk that holds a FAT16 volume, and on one that does not.
use kernel_play.Prelude.{
  ℕ, ◌+◌, ◌≤◌, ◌<◌, ◌≡◌, ◌≢◌, refl, subst, arith, Bool, true, false, none, some, Option, ◌==◌,
}
use kernel_play.Prelude.Run.{ok}
use kernel_play.Config.{efsnotus}
use kernel_play.Memory.{Memory}
use kernel_play.Heap.{Heap, kheap_zalloc}
use kernel_play.Heap.Singles.{IsUsable, Singles, block, upto, without_block, zalloc_next, free_one}
use kernel_play.Disk.{Drive, disk_streamer_new, disk_streamer_close}
use kernel_play.Disk.Image.{Holds}
use kernel_play.Disk.Stream.{at, read_bytes_lem}
use kernel_play.Fat.Layout.{FatPrivate}
use kernel_play.Fat.File.{signature}
use kernel_play.Fat.Mount.{DiskState, init_private, resolve_out, fat16_resolve}
use kernel_play.Fat.Mounting.{
  header_at, IsVolume, mounted_of, streams_only, new_stream, init_lem, root_lem,
}

-- The blocks below `k` and the four behind it that hold the private data and the streams.
abbrev pub with_streams : ℕ → ℕ → Bool
with_streams k = without_block (k + 4) (upto (k + 5))

-- The state of the root disk, whose number is 0.
abbrev pub root_disk_with : Option FatPrivate → DiskState
root_disk_with p = record { id = 0; sector_size = 512; mounted = p }

-- The blocks that a mount takes and gives back before it reads the root directory.
record Prepared (heap : Heap) (m : Memory) (k : ℕ) : Type 0 where
  m1 : Memory
  m2 : Memory
  m3 : Memory
  space : kheap_zalloc heap m 92 ≡ ok (block heap k, m1)
  streams : init_private heap m1 0 ≡ ok (0, streams_only, m2)
  stream : disk_streamer_new heap m2 0 ≡ ok (some (block heap (k + 4), at 0), m3)
  table : Singles heap m3 (upto (k + 5))

module _ (heap : Heap) (usable : IsUsable heap) where
  shifted : {m : Memory} {i j : ℕ} → i ≡ j → Singles heap m (upto i) → Singles heap m (upto j)
  shifted {m} e s = subst (λ k. Singles heap m (upto k)) e s

  prepare :
      (m : Memory) (k : ℕ) → k + 6 ≤ heap.table.size → Singles heap m (upto k) → Prepared heap m k
  prepare m k lt s =
      let (m1, run1, s1) =
        zalloc_next heap usable m k 92 (omega arith) (omega arith) (omega arith) s in
      let (m2, run2, s2) = init_lem heap usable m1 (k + 1) (omega arith) s1 in
      let (m3, run3, s3) =
        new_stream heap usable m2 (k + 4) (omega arith) (shifted (omega arith) s2) in
      record {
        m1 = m1;
        m2 = m2;
        m3 = m3;
        space = run1;
        streams = run2;
        stream = run3;
        table = shifted (omega arith) s3;
      }

  some_block : (k : ℕ) → (block heap k == 0) ≡ false
  some_block k = ground (arith, usable.placed.apart)

  module _ {drive : Drive} {image : ℕ → ℕ} (holds : Holds drive image) where
    -- Where the header of the disk has the signature and describes a volume with room for at most
    -- 128 entries in its root directory, of which `n`, less than the fuel, stand before the first
    -- unused one, and the first `k` blocks of the heap are taken with
    -- six free ones behind them, `fat16_resolve` returns 0 with the disk mounted: the private data has
    -- the header, the items and their count as the disk holds them. Of the six blocks the one of the
    -- stream that read the header is free again, and no other.
    pub fat16_resolve_lem :
        (fuel n k : ℕ) (m : Memory) (before : Option FatPrivate)
        → (header_at image).signature ≡ signature
        → IsVolume image (header_at image) n
        → n < fuel
        → k + 6 ≤ heap.table.size
        → Singles heap m (upto k)
        → (m' : Memory) × (fat16_resolve drive fuel heap m (root_disk_with before)
            ≡ ok (
              0,
              root_disk_with (some (mounted_of image (header_at image) n (block heap (k + 5)))),
              m',
            ))
          × Singles heap m' (without_block (k + 4) (upto (k + 6)))
    unfolding fat16_resolve resolve_out disk_streamer_close
    fat16_resolve_lem fuel n k m before signed v enough lt s =
        let p = prepare m k lt s in
        let read = read_bytes_lem holds 0 62 (omega arith) in
        let fp = record streams_only { header = header_at image } in
        let (m4, run4, s4) =
          root_lem heap usable holds fuel n (k + 5) 0 p.m3 fp refl v enough (omega arith) p.table in
        let same : ((header_at image).signature == signature) ≡ true = ground (arith, signed) in
        let (m5, run5, s5) =
          free_one heap usable m4 (upto (k + 6)) (k + 4) (shifted (omega arith) s4) (omega arith) in
        (m5, rw (p.space, some_block k, p.streams, p.stream, read) (rw (same, run4, run5) refl), s5)

    -- Where the header of the disk does not have the signature, and the first `k` blocks of the heap
    -- are taken with six free ones behind them, `fat16_resolve` returns -EFSNOTUS with no private
    -- data on the disk. The blocks of the private data and of the stream that read the header are
    -- free again; those of the three streams behind the private data stay taken.
    pub fat16_resolve_refused :
        (fuel k : ℕ) (m : Memory) (before : Option FatPrivate)
        → (header_at image).signature ≢ signature
        → k + 6 ≤ heap.table.size
        → Singles heap m (upto k)
        → (m' : Memory) × (fat16_resolve drive fuel heap m (root_disk_with before)
            ≡ ok (efsnotus, root_disk_with none, m'))
          × Singles heap m' (without_block k (with_streams k))
    unfolding fat16_resolve resolve_out disk_streamer_close
    fat16_resolve_refused fuel k m before unsigned lt s =
        let p = prepare m k lt s in
        let read = read_bytes_lem holds 0 62 (omega arith) in
        let (m4, run4, s4) =
          free_one heap usable p.m3 (upto (k + 5)) (k + 4) p.table (omega arith) in
        let (m5, run5, s5) = free_one heap usable m4 (with_streams k) k s4 (omega arith) in
        let other : ((header_at image).signature == signature) ≡ false = ground (arith, unsigned) in
        (
          m5,
          rw (p.space, some_block k, p.streams, p.stream, read) (rw (other, run4) (rw run5 refl)),
          s5,
        )
