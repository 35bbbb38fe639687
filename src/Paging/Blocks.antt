-- ===== src/Paging/Blocks.antt =====
-- The blocks of the kernel heap that the page tables take.
use kernel_play.Prelude.{
  ℕ, zero, suc, ◌+◌, ◌*◌, ◌/◌, ◌≤◌, ◌≡◌, refl, sym, ap, subst, ◌∙◌, arith, Bool, inl, false, ◌==◌,
  ◌+w◌, ◌*w◌, word,
}
use kernel_play.Prelude.Run.{ok}
use kernel_play.Memory.{Memory}
use kernel_play.Heap.{Heap, kheap_zalloc}
use kernel_play.Heap.Table.{is_free_block-even}
use kernel_play.Heap.Singles.{
  IsUsable, Singles, Singles-ext, Singles-same, IsFirstFree, block, upto, with_block, zalloc_single,
  zalloc_next,
}
use kernel_play.Paging.{write_word, fill_directory, paging_new_4gb}
use kernel_play.Paging.Words.{write_word-apart}
use kernel_play.Paging.Identity.{linked}
use kernel_play.Paging.Pages.{IsPaged, HasRoom}
use kernel_play.Paging.Tables.{linked-apart}
use kernel_play.Paging.Whole.{one_round}

-- Where the blocks from `k` on are free there is room in them.
pub Singles-HasRoom :
    {heap : Heap} {m : Memory} {taken : ℕ → Bool} (k n : ℕ)
    → Singles heap m taken
    → ((j : ℕ) → k ≤ j → taken j ≡ false)
    → k + n ≤ heap.table.size
    → HasRoom heap m n
Singles-HasRoom {heap} {m} k n s free fits = record {
  start = heap.table.entries + k;
  above = omega arith;
  below = omega arith;
  free = λ i lt.
      let at = heap.table.entries + (k + i) in
      let e : heap.table.entries + k + i ≡ at = omega arith in
      let zero_byte : m at ≡ 0 =
        s.marks (k + i) (omega arith) ∙ rw (free (k + i) (omega arith)) refl in
      rw e (ground (arith, is_free_block-even m at, zero_byte));
}

module _ (heap : Heap) (paged : IsPaged heap) where
  pub paged-IsUsable : IsUsable heap
  paged-IsUsable = record { placed = paged.placed; some_table = paged.some_table }

  -- A linked table leaves the heap's table as it was.
  linked-Singles :
      (m : Memory) (taken : ℕ → Bool) (d k table flags i : ℕ)
      → block heap k ≡ table * 4096
      → Singles heap m taken
      → Singles heap (linked m (block heap d) table flags i) taken
  linked-Singles m taken d k table flags i at s =
      Singles-same
        (λ j lt.
          linked-apart m (block heap d) table flags i (heap.table.entries + j)
            (inl (omega (arith, at, paged.placed.apart))) (inl (omega (arith, paged.placed.apart))))
        s

  -- The rounds that are left take a block each.
  rounds_singles :
      (n : ℕ) (m : Memory) (k d flags i offset : ℕ)
      → i + n ≤ 1024
      → offset ≡ word (i * 4194304)
      → k + n ≤ heap.table.size
      → Singles heap m (upto k)
      → (m' : Memory) × (fill_directory heap m (block heap d) offset flags i n ≡ ok m')
        × Singles heap m' (upto (k + n))
  unfolding fill_directory
  rounds_singles zero m k d flags i offset fits at room s =
      (m, refl, Singles-ext (λ j lt. ground arith) s)
  rounds_singles (suc n) m k d flags i offset fits at room s =
      let (m1, run, s1) =
        zalloc_next heap paged-IsUsable m k 4096 (omega arith) (omega arith) (omega arith) s in
      let table = block heap k / 4096 in
      let whole : block heap k ≡ table * 4096 = omega (arith, paged.aligned) in
      let here : offset ≡ i * 4194304 = omega arith in
      let (m', rest, done) =
        rounds_singles n (linked m1 (block heap d) table flags i) (k + 1) d flags (i + 1)
          (i * 4194304 +w 4096 *w 1024) (omega arith) (omega arith) (omega arith)
          (linked-Singles m1 (upto (k + 1)) d k table flags i whole s1) in
      let given : kheap_zalloc heap m 4096 ≡ ok (table * 4096, m1) =
        run ∙ ap (λ p. ok (p, m1)) whole in
      (
        m',
        subst (λ o. fill_directory heap m (block heap d) o flags i (suc n) ≡ ok m') (sym here)
            (one_round heap m m1 m' (block heap d) table flags i n given
              (omega (arith, whole, paged.placed.apart)) (omega (arith, paged.placed.apart)) rest),
        Singles-ext (λ j lt. ground arith) done,
      )

  -- The page tables fill the table up: where the first free block completes the first `k`, they
  -- take it and the 1025 blocks behind these.
  pub paging_new_4gb-Singles :
      (m : Memory) (flags : ℕ) (taken : ℕ → Bool) (i k : ℕ)
      → Singles heap m taken
      → IsFirstFree heap taken i
      → ((j : ℕ) → with_block i taken j ≡ upto k j)
      → k + 1025 ≤ heap.table.size
      → (chunk : ℕ) × (m' : Memory) × (paging_new_4gb heap m flags ≡ ok (chunk, m'))
        × Singles heap m' (upto (k + 1025))
  unfolding paging_new_4gb
  paging_new_4gb-Singles m flags taken i k s first complete room =
      let (m1, run1, s1) =
        zalloc_single heap paged-IsUsable m taken i 4096 (omega arith) (omega arith) s first in
      let (m2, run2, s2) =
        rounds_singles 1024 m1 k i flags 0 0 (omega arith) refl (omega arith)
          (Singles-ext (λ j lt. complete j) s1) in
      let (m3, run3, s3) =
        zalloc_next heap paged-IsUsable m2 (k + 1024) 4 (omega arith) (omega arith) (omega arith)
          s2 in
      let some_chunk : (block heap (k + 1024) == 0) ≡ false = ground (arith, paged.placed.apart) in
      (
        block heap (k + 1024),
        write_word m3 (block heap (k + 1024)) (block heap i),
        rw (run1, run2, run3, some_chunk) refl,
        Singles-ext (λ j lt. ground arith)
            (Singles-same
              (λ j lt.
                write_word-apart m3 (block heap (k + 1024)) (block heap i) (heap.table.entries + j)
                  (inl (omega (arith, paged.placed.apart))))
              s3),
      )
