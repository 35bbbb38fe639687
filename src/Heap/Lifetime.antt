-- ===== src/Heap/Lifetime.antt =====
-- What two calls on the heap do to one another: two allocations in a row, and an allocation and its
-- release.
use kernel_play.Prelude.{
  ℕ, suc, ◌+◌, ◌-◌, ◌*◌, ◌%◌, ◌^◌, ◌≤◌, ◌<◌, ◌≡◌, ◌≢◌, ◌∙◌, ap, sym, ◌⊎◌, inl, inr, true, false,
  arith, if◌then◌else◌, ◌||◌, dec_lt, ℕ_discrete, subst, ltb,
}
use kernel_play.Prelude.Run.{ok}
use kernel_play.Memory.{Memory}
use kernel_play.Memory.Fill.{inside}
use kernel_play.Heap.{Heap, heap_table_entry_has_next, heap_malloc, heap_free, is_free_block}
use kernel_play.Heap.Table.{FreeRun, is_free_block-even}
use kernel_play.Heap.Mark.{new_entry-odd, new_entry-has_next}
use kernel_play.Heap.Malloc.{Granted, blocks_for, malloc_first_fit}
use kernel_play.Heap.Release.{Chain, Cleared, has_next-cong, heap_free-Cleared}

module _ {heap : Heap} {m : Memory} {n p ptr : ℕ} {m' : Memory}
    (g : Granted heap m n p ptr m') where
  -- The entries of the run are taken, and carry the flag up to the last one.
  granted-odd : (a : ℕ) → p ≤ a → a < p + n → m' a % 2 ≡ 1
  granted-odd a h k = ap (λ x. x % 2) (g.marked a) ∙ ground (arith, new_entry-odd p (p + n) a)

  granted-taken : (a : ℕ) → p ≤ a → a < p + n → is_free_block m' a ≡ false
  granted-taken a h k = ground (arith, is_free_block-even m' a, granted-odd a h k)

  granted-has_next :
      (a : ℕ) → p ≤ a → a < p + n → heap_table_entry_has_next m' a ≡ ltb a (p + n - 1)
  unfolding heap_table_entry_has_next
  granted-has_next a h k = ground (arith, g.marked a, new_entry-has_next p (p + n) a)

  -- A later run of free entries misses the run that was granted.
  run-disjoint : (q k : ℕ) → 0 < n → 0 < k → FreeRun m' q k → (p + n ≤ q) ⊎ (q + k ≤ p)
  run-disjoint q k pos pos' run = elim (dec_lt q (p + n)) [
    | no h ↦ omega arith
    | yes h ↦ elim (dec_lt p (q + k)) [
      | no h' ↦ omega arith
      | yes h' ↦ elim (dec_lt p q) [
        | yes lt ↦
            let e : q + 0 ≡ q = omega arith in
            let free : is_free_block m' q ≡ true = rw e at (run 0 pos') in
            absurd (ground (arith, free, granted-taken q (omega arith) h))
        | no ge ↦
            let e : q + (p - q) ≡ p = omega arith in
            let free : is_free_block m' p ≡ true = rw e at (run (p - q) (omega arith)) in
            absurd (ground (arith, free, granted-taken p (omega arith) (omega arith)))
      ]
    ]
  ]

-- A call whose pointer is not null was granted.
pub Granted-of_ne_null :
    (heap : Heap) (m : Memory) (size ptr : ℕ) (m' : Memory)
    → 0 < size
    → size ≤ 2 ^ 31 - 4096
    → 0 < heap.table.entries
    → heap_malloc heap m size ≡ ok (ptr, m')
    → ptr ≢ 0
    → (p : ℕ) × Granted heap m (blocks_for size) p ptr m'
Granted-of_ne_null heap m size ptr m' pos small placed run ne =
    let (ptr', m'', run', out) = malloc_first_fit heap m size pos small placed in
    let same : ok (ptr', m'') ≡ ok (ptr, m') = sym run' ∙ run in
    let same_ptr : ptr' ≡ ptr = cc same in
    let same_mem : m'' ≡ m' = cc same in
    elim out [
      | inl (e, _, _) ↦ absurd (ne (sym same_ptr ∙ e))
      | inr (p, g) ↦ (
        p,
        subst (λ x. Granted heap m (blocks_for size) p x m') same_ptr
            (subst (λ x. Granted heap m (blocks_for size) p ptr' x) same_mem g),
      )
    ]

-- Two consecutive calls of `heap_malloc`, each for a size from 1 to 2 ^ 31 - 4096 and neither giving
-- a null pointer, take runs of entries that do not overlap.
pub malloc-malloc_disjoint :
    (heap : Heap) (m : Memory) (size size' ptr ptr' : ℕ) (m' m'' : Memory)
    → 0 < size
    → 0 < size'
    → size ≤ 2 ^ 31 - 4096
    → size' ≤ 2 ^ 31 - 4096
    → 0 < heap.table.entries
    → heap_malloc heap m size ≡ ok (ptr, m')
    → ptr ≢ 0
    → heap_malloc heap m' size' ≡ ok (ptr', m'')
    → ptr' ≢ 0
    → (p : ℕ) × (q : ℕ) × Granted heap m (blocks_for size) p ptr m'
      × Granted heap m' (blocks_for size') q ptr' m''
      × ((p + blocks_for size ≤ q) ⊎ (q + blocks_for size' ≤ p))
malloc-malloc_disjoint heap m size size' ptr ptr' m' m'' pos pos' small small' placed run ne run'
      ne' =
    let (p, g) = Granted-of_ne_null heap m size ptr m' pos small placed run ne in
    let (q, g') = Granted-of_ne_null heap m' size' ptr' m'' pos' small' placed run' ne' in
    (p, q, g, g', run-disjoint g q (blocks_for size') (omega arith) (omega arith) g'.fit.free)

-- The table and the blocks are placed as in the kernel: every block lies behind every entry, and
-- all of them below 2 GiB.
pub record Placed (heap : Heap) : Type 0 where
  pub apart : heap.table.entries + heap.table.size < heap.start_addr
  pub low : heap.start_addr + heap.table.size * 4096 < 2147483648

-- The pointer of a grant, as the address of its block.
pub pointer_block :
    {heap : Heap} {m m' : Memory} {n p ptr : ℕ}
    → Placed heap
    → Granted heap m n p ptr m'
    → ptr ≡ heap.start_addr + (p - heap.table.entries) * 4096
pointer_block pl g = omega (arith, g.pointer, g.fit.above, g.fit.below, pl.low)

-- A single marked entry that is cleared again holds 0, as before.
single_at :
    {heap : Heap} {m m' : Memory} {p ptr : ℕ}
    → Granted heap m 1 p ptr m'
    → m p ≡ 0
    → (a : ℕ)
    → (if inside a p (0 + 1) || inside a ptr ((0 + 1) * 4096) then 0 else m' a)
      ≡ (if inside a ptr 4096 then 0 else m a)
single_at {p} g was_free a = elim (ℕ_discrete a p) [
  | yes e ↦ rw e (ground (arith, was_free))
  | no ne ↦ ground (arith, g.marked a)
]

module _ {heap : Heap} {m : Memory} {p ptr : ℕ} {m' : Memory} (pl : Placed heap) where
  -- Releasing the pointer of a grant clears as many entries as the flags behind the first one say.
  release-Cleared :
      (n k : ℕ)
      → Granted heap m n p ptr m'
      → p + k < heap.table.entries + heap.table.size
      → Chain m' p k
      → (m'' : Memory) × (heap_free heap m' ptr ≡ ok m'') × Cleared m' p k ptr m''
  release-Cleared n k g inside_table c =
      heap_free-Cleared heap m' (p - heap.table.entries) k p ptr (omega (arith, g.fit.above))
        (pointer_block pl g) (omega (arith, g.fit.above)) (omega (arith, g.fit.above, pl.low))
        (omega (arith, pointer_block pl g, g.fit.above, pl.low))
        (omega (arith, pointer_block pl g, g.fit.above, pl.apart)) c

  -- `heap_free` leaks: of an allocation of two or more blocks that lies in the table it clears the
  -- entry of every block but the last, and the last stays taken.
  pub free_leaks_last :
      (n : ℕ)
      → Granted heap m (suc (suc n)) p ptr m'
      → p + suc (suc n) ≤ heap.table.entries + heap.table.size
      → (m'' : Memory) × (heap_free heap m' ptr ≡ ok m'')
        × FreeRun m'' p (suc n)
        × (is_free_block m'' (p + suc n) ≡ false)
  free_leaks_last n g inside_table =
      let chain : Chain m' p n = record {
        linked = λ i pos le. granted-has_next g (p + i) (omega arith) (omega arith) ∙ ground arith;
        stops = granted-has_next g (p + n + 1) (omega arith) (omega arith) ∙ ground arith;
      } in
      let (m'', run, at) = release-Cleared (suc (suc n)) n g (omega arith) chain in
      let block = pointer_block pl g in
      let last : m'' (p + suc n) ≡ m' (p + suc n) =
        at (p + suc n) ∙ ground (arith, block, g.fit.above, g.fit.below, pl.apart) in
      (
        m'',
        run,
        (λ i lt. ground (arith, is_free_block-even m'' (p + i), at (p + i))),
        ground (
          arith,
          is_free_block-even m'' (p + suc n),
          last,
          granted-odd g (p + suc n) (omega arith) (omega arith),
        ),
      )

  -- `heap_free` undoes `heap_malloc` for one block whose neighbour's entry has no flag: the table
  -- is as before where the block's entry was 0, and the block is filled with zeros.
  pub free_single :
      Granted heap m 1 p ptr m'
      → p + 1 < heap.table.entries + heap.table.size
      → m p ≡ 0
      → heap_table_entry_has_next m (p + 1) ≡ false
      → (m'' : Memory) × (heap_free heap m' ptr ≡ ok m'')
        × ((a : ℕ) → m'' a ≡ (if inside a ptr 4096 then 0 else m a))
  free_single g inside_table was_free next =
      let chain : Chain m' p 0 = record {
        linked = λ i pos le. absurd (omega arith);
        stops =
            let e : p + 0 + 1 ≡ p + 1 = omega arith in
            rw e (has_next-cong m m' (p + 1) (g.marked (p + 1) ∙ ground arith) ∙ next);
      } in
      let (m'', run, at) = release-Cleared 1 0 g (omega arith) chain in
      (m'', run, λ a. at a ∙ single_at g was_free a)
