-- ===== src/Heap/Singles.antt =====
-- A table whose allocations have one block each: which blocks they are decides what the next
-- allocation gives and what a release leaves.
use kernel_play.Prelude.{
  ℕ, ◌+◌, ◌-◌, ◌*◌, ◌≤◌, ◌<◌, ◌≡◌, refl, sym, ap, subst, ◌∙◌, arith, inl, inr, ◌==◌, Bool, true,
  false, not, ◌&&◌, ◌||◌, if◌then◌else◌, dec_lt, ℕ_discrete, ltb,
}
use kernel_play.Prelude.Run.{ok}
use kernel_play.Memory.{Memory, memset}
use kernel_play.Memory.Fill.{inside, memset-at}
use kernel_play.Heap.{
  Heap, kheap_zalloc, heap_free, new_entry, is_free_block, heap_table_entry_has_next,
}
use kernel_play.Heap.Table.{FreeRun, is_free_block-even}
use kernel_play.Heap.Malloc.{Granted, blocks_for, malloc_first_fit}
use kernel_play.Heap.Release.{Chain, heap_free-Cleared}
use kernel_play.Heap.Lifetime.{Placed, pointer_block}

-- The kernel's heap is placed, and a table that stands at 0 would look like no table.
pub record IsUsable (heap : Heap) : Type 0 where
  pub placed : Placed heap
  pub some_table : 0 < heap.table.entries

abbrev pub block : Heap → ℕ → ℕ
block heap i = heap.start_addr + i * 4096

-- The entry of a single block, and of a free one.
abbrev pub mark : Bool → ℕ
mark b = if b then 0x41 else 0

pub record Singles (heap : Heap) (m : Memory) (taken : ℕ → Bool) : Type 0 where
  pub marks : (i : ℕ) → i < heap.table.size → m (heap.table.entries + i) ≡ mark (taken i)

abbrev pub with_block : ℕ → (ℕ → Bool) → ℕ → Bool
with_block i taken j = (j == i) || taken j

abbrev pub without_block : ℕ → (ℕ → Bool) → ℕ → Bool
without_block i taken j = not (j == i) && taken j

-- The blocks below `i` are taken, and the block `i` is free.
pub record IsFirstFree (heap : Heap) (taken : ℕ → Bool) (i : ℕ) : Type 0 where
  pub inside_table : i < heap.table.size
  pub below : (j : ℕ) → j < i → taken j ≡ true
  pub free : taken i ≡ false

pub Singles-ext :
    {heap : Heap} {m : Memory} {f g : ℕ → Bool}
    → ((i : ℕ) → i < heap.table.size → f i ≡ g i)
    → Singles heap m f
    → Singles heap m g
Singles-ext same s = record { marks = λ i lt. s.marks i lt ∙ ap mark (same i lt) }

pub Singles-same :
    {heap : Heap} {m m' : Memory} {taken : ℕ → Bool}
    → ((i : ℕ) → i < heap.table.size → m' (heap.table.entries + i) ≡ m (heap.table.entries + i))
    → Singles heap m taken
    → Singles heap m' taken
Singles-same same s = record { marks = λ i lt. same i lt ∙ s.marks i lt }

single_mark : (e : ℕ) → new_entry e (e + 1) e ≡ 0x41
unfolding new_entry
single_mark e = ground arith

no_flag : (m : Memory) (a : ℕ) (b : Bool) → m a ≡ mark b → heap_table_entry_has_next m a ≡ false
unfolding heap_table_entry_has_next
no_flag m a true h = rw h refl
no_flag m a false h = rw h refl

module _ (heap : Heap) (usable : IsUsable heap) where
  -- What a grant of the block `i` leaves of the table, also behind a `memset` of the block.
  granted_marks :
      (m m1 : Memory) (taken : ℕ → Bool) (i size ptr : ℕ)
      → Singles heap m taken
      → Granted heap m 1 (heap.table.entries + i) ptr m1
      → Singles heap (memset m1 ptr 0 size) (with_block i taken)
  granted_marks m m1 taken i size ptr s g = record { marks = go }
    where
      go :
          (j : ℕ)
          → j < heap.table.size
          → memset m1 ptr 0 size (heap.table.entries + j) ≡ mark (with_block i taken j)
      go j lt =
          let at = heap.table.entries + j in
          let e = heap.table.entries + i in
          let away : inside at ptr size ≡ false =
            ground (arith, pointer_block usable.placed g, usable.placed.apart) in
          let same : memset m1 ptr 0 size at ≡ m1 at = memset-at m1 ptr 0 size at ∙ rw away refl in
          elim (ℕ_discrete j i) [
            | yes e' ↦
                let one = single_mark e in
                let at_e : at ≡ e = omega arith in
                let here : inside e e 1 ≡ true = ground arith in
                let written : m1 e ≡ 0x41 = g.marked e ∙ rw here one in
                let wanted : mark (with_block i taken j) ≡ 0x41 = ground (arith, e') in
                same ∙ ap m1 at_e ∙ written ∙ sym wanted
            | no ne ↦ let old = s.marks j lt in ground (arith, same, g.marked at, old, ne)
          ]

  taken_before :
      (m : Memory) (taken : ℕ → Bool) (p i : ℕ)
      → Singles heap m taken
      → IsFirstFree heap taken i
      → p < heap.table.entries + i
      → heap.table.entries ≤ p
      → ¬ (is_free_block m (p + 0) ≡ true)
  taken_before m taken p i s f before above free =
      let j = p - heap.table.entries in
      let at : heap.table.entries + j ≡ p + 0 = omega arith in
      let odd : m (p + 0) ≡ 0x41 =
        ap m (sym at)
        ∙ s.marks j (omega (arith, f.inside_table))
        ∙ ap mark (f.below j (omega arith)) in
      absurd (ground (arith, free, is_free_block-even m (p + 0), odd))

  -- An allocation of up to a block gives the first free block.
  pub zalloc_single :
      (m : Memory) (taken : ℕ → Bool) (i size : ℕ)
      → 0 < size
      → size ≤ 4096
      → Singles heap m taken
      → IsFirstFree heap taken i
      → (m' : Memory) × (kheap_zalloc heap m size ≡ ok (block heap i, m'))
        × Singles heap m' (with_block i taken)
  unfolding kheap_zalloc
  zalloc_single m taken i size pos small s f =
      let e = heap.table.entries + i in
      let one : blocks_for size ≡ 1 = omega arith in
      let (ptr, m1, run, answer) =
        malloc_first_fit heap m size pos (omega arith) usable.some_table in
      let mine : m e ≡ 0 = s.marks i f.inside_table ∙ rw (f.free) refl in
      let run_at : FreeRun m e (blocks_for size) = λ k lt.
        let at : e + k ≡ e = omega (arith, one) in
        rw at (ground (arith, is_free_block-even m e, mine)) in
      elim answer [
        | inl (_, _, none_fits) ↦
            absurd (none_fits e (omega arith) (omega (arith, f.inside_table)) run_at)
        | inr (p, g') ↦
            let g : Granted heap m 1 p ptr m1 = subst (λ k. Granted heap m k p ptr m1) one g' in
            let at : p ≡ e = elim (dec_lt e p) [
              | yes past ↦ absurd (g'.fit.first e (omega arith) past run_at)
              | no not_past ↦ elim (dec_lt p e) [
                | yes before ↦
                    absurd
                      (taken_before m taken p i s f before g.fit.above (g.fit.free 0 (omega arith)))
                | no not_before ↦ omega arith
              ]
            ] in
            let g_e : Granted heap m 1 e ptr m1 = subst (λ q. Granted heap m 1 q ptr m1) at g in
            let place : ptr ≡ block heap i = omega (arith, pointer_block usable.placed g_e) in
            let some_ptr : (ptr == 0) ≡ false = ground (arith, place, usable.placed.apart) in
            (
              memset m1 ptr 0 size,
              ground (arith, run, some_ptr, place),
              granted_marks m m1 taken i size ptr s g_e,
            )
      ]

  -- A release gives its block back, and no other.
  pub free_one :
      (m : Memory) (taken : ℕ → Bool) (i : ℕ)
      → Singles heap m taken
      → i + 1 < heap.table.size
      → (m' : Memory) × (heap_free heap m (block heap i) ≡ ok m')
        × Singles heap m' (without_block i taken)
  free_one m taken i s lt =
      let e = heap.table.entries + i in
      let chain : Chain m e 0 = record {
        linked = λ k pos le. absurd (omega arith);
        stops =
            let at : e + 0 + 1 ≡ heap.table.entries + (i + 1) = omega arith in
            rw at (no_flag m (heap.table.entries + (i + 1)) (taken (i + 1)) (s.marks (i + 1) lt));
      } in
      let (m', run, at) =
        heap_free-Cleared heap m i 0 e (block heap i) refl refl (omega arith)
          (omega (arith, usable.placed.low)) (omega (arith, usable.placed.low))
          (omega (arith, usable.placed.apart)) chain in
      (
        m',
        run,
        record {
          marks = λ j h.
              let a = heap.table.entries + j in
              let old = s.marks j h in at a ∙ ground (arith, old, usable.placed.apart);
        },
      )

-- The blocks below `k` are taken, and no other.
abbrev pub upto : ℕ → ℕ → Bool
upto k j = ltb j k

pub upto-first : (heap : Heap) (k : ℕ) → k < heap.table.size → IsFirstFree heap (upto k) k
upto-first heap k lt = record {
  inside_table = lt;
  below = λ j h. ground arith;
  free = ground arith;
}

upto-next : (k j : ℕ) → with_block k (upto k) j ≡ upto (k + 1) j
upto-next k j = ground arith

-- In a table that is filled from its start the next block is given.
pub zalloc_next :
    (heap : Heap) (usable : IsUsable heap) (m : Memory) (k size : ℕ)
    → 0 < size
    → size ≤ 4096
    → k < heap.table.size
    → Singles heap m (upto k)
    → (m' : Memory) × (kheap_zalloc heap m size ≡ ok (block heap k, m'))
      × Singles heap m' (upto (k + 1))
zalloc_next heap usable m k size pos small lt s =
    let (m', run, after) =
      zalloc_single heap usable m (upto k) k size pos small s (upto-first heap k lt) in
    (m', run, Singles-ext (λ j h. upto-next k j) after)
