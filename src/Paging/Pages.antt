-- ===== src/Paging/Pages.antt =====
-- Pages of the heap: what an allocation of a page changes, and what it leaves.
use kernel_play.Prelude.{
  ℕ, suc, ◌+◌, ◌-◌, ◌*◌, ◌%◌, ◌≤◌, ◌<◌, ◌≡◌, ◌≢◌, refl, ap, ◌∙◌, arith, ◌⊎◌, inl, inr, ◌==◌, true,
  false, subst, dec_lt,
}
use kernel_play.Prelude.Run.{ok}
use kernel_play.Memory.{Memory, memset}
use kernel_play.Memory.Fill.{inside, memset-at}
use kernel_play.Heap.{Heap, kheap_zalloc, new_entry, is_free_block}
use kernel_play.Heap.Table.{FreeRun, is_free_block-even}
use kernel_play.Heap.Mark.{new_entry-odd}
use kernel_play.Heap.Malloc.{Granted, blocks_for, malloc_first_fit}
use kernel_play.Heap.Lifetime.{Placed, pointer_block}

-- The kernel's heap: placed, with its blocks at the bounds of pages.
pub record IsPaged (heap : Heap) : Type 0 where
  pub placed : Placed heap
  pub some_table : 0 < heap.table.entries
  pub aligned : heap.start_addr % 4096 ≡ 0

-- The page whose entry stands at `e`.
abbrev pub page_of : Heap → ℕ → ℕ
page_of heap e = heap.start_addr + (e - heap.table.entries) * 4096

-- An entry of the table whose block is taken.
pub record IsTaken (heap : Heap) (m : Memory) (e : ℕ) : Type 0 where
  pub above : heap.table.entries ≤ e
  pub below : e < heap.table.entries + heap.table.size
  pub odd : m e % 2 ≡ 1

-- Room for `n` pages: as many free entries in a row.
pub record HasRoom (heap : Heap) (m : Memory) (n : ℕ) : Type 0 where
  pub start : ℕ
  pub above : heap.table.entries ≤ start
  pub below : start + n ≤ heap.table.entries + heap.table.size
  pub free : FreeRun m start n

-- Memory that differs in a page and its entry at most.
abbrev pub OnlyPage : Heap → ℕ → Memory → Memory → Type 0
OnlyPage heap e m m' =
    (a : ℕ) → a ≢ e → (a < page_of heap e) ⊎ (page_of heap e + 4096 ≤ a) → m' a ≡ m a

-- A page that is given: its entry was free, it is taken now, and all else is as before.
pub record Given (heap : Heap) (m : Memory) (ptr e : ℕ) (m' : Memory) : Type 0 where
  pub at : ptr ≡ page_of heap e
  pub was_free : m e % 2 ≡ 0
  pub taken : IsTaken heap m' e
  pub only : OnlyPage heap e m m'

module _ (heap : Heap) (paged : IsPaged heap) where
  outside_page :
      (a e size : ℕ)
      → size ≤ 4096
      → (a < page_of heap e) ⊎ (page_of heap e + 4096 ≤ a)
      → inside a (page_of heap e) size ≡ false
  outside_page a e size small (inl h) = ground arith
  outside_page a e size small (inr h) = ground arith

  entry_outside :
      (e : ℕ)
      → e < heap.table.entries + heap.table.size
      → (size : ℕ) → inside e (page_of heap e) size ≡ false
  entry_outside e below size = ground (arith, paged.placed.apart)

  page-Given :
      (m m1 : Memory) (size ptr e : ℕ)
      → size ≤ 4096
      → Granted heap m 1 e ptr m1
      → Given heap m ptr e (memset m1 ptr 0 size)
  page-Given m m1 size ptr e small g =
      let block = pointer_block paged.placed g in
      let e0 : e + 0 ≡ e = omega arith in
      let free : is_free_block m e ≡ true = rw e0 at (g.fit.free 0 (omega arith)) in
      let here : inside e e 1 ≡ true = ground arith in
      let away : inside e ptr size ≡ false = rw block (entry_outside e g.fit.below size) in
      let entry : memset m1 ptr 0 size e ≡ new_entry e (e + 1) e =
        memset-at m1 ptr 0 size e ∙ rw away (g.marked e ∙ rw here refl) in
      record {
        at = block;
        was_free = ground (arith, free, is_free_block-even m e);
        taken = record {
          above = g.fit.above;
          below = g.fit.below;
          odd = omega (arith, entry, new_entry-odd e (e + 1) e);
        };
        only = λ a ne out.
            let off : inside a ptr size ≡ false = rw block (outside_page a e size small out) in
            let other : inside a e 1 ≡ false = ground (arith, ne) in
            memset-at m1 ptr 0 size a ∙ rw off (g.marked a ∙ rw other refl);
      }

  -- What is taken stays so when a page is given to another entry.
  pub Given-IsTaken :
      {m m' : Memory} {ptr e : ℕ}
      → Given heap m ptr e m'
      → (t : ℕ) → IsTaken heap m t
      → (t ≢ e) × IsTaken heap m' t
  Given-IsTaken {m} {m'} {ptr} {e} g t h =
      let ne : t ≢ e = λ same.
        let even : m t % 2 ≡ 0 = ap (λ x. m x % 2) same ∙ g.was_free in
        absurd (omega (arith, even, h.odd)) in
      let kept : m' t ≡ m t = g.only t ne (inl (omega (arith, paged.placed.apart, h.below))) in
      (ne, record { above = h.above; below = h.below; odd = omega (arith, kept, h.odd) })

  free_kept :
      {m m' : Memory} {ptr e : ℕ}
      → Given heap m ptr e m'
      → (s n : ℕ) → e < s
      → s + n ≤ heap.table.entries + heap.table.size
      → FreeRun m s n
      → FreeRun m' s n
  free_kept {m} {m'} {ptr} {e} g s n before below run = λ i lt.
      let kept : m' (s + i) ≡ m (s + i) =
        g.only (s + i) (omega arith) (inl (omega (arith, paged.placed.apart))) in
      ground (arith, run i lt, is_free_block-even m (s + i), is_free_block-even m' (s + i), kept)

  -- `kheap_zalloc` of up to a page, where there is room, gives a page and leaves room for the others.
  pub zalloc_page :
      (m : Memory) (size n : ℕ)
      → 0 < size
      → size ≤ 4096
      → HasRoom heap m (suc n)
      → (ptr : ℕ) × (e : ℕ) × (m' : Memory) × (kheap_zalloc heap m size ≡ ok (ptr, m'))
        × Given heap m ptr e m'
        × HasRoom heap m' n
  unfolding kheap_zalloc
  zalloc_page m size n pos small room =
      let one : blocks_for size ≡ 1 = omega arith in
      let (ptr, m1, run, answer) =
        malloc_first_fit heap m size pos (omega arith) paged.some_table in
      let free_one : FreeRun m room.start (blocks_for size) = λ i lt. room.free i (omega arith) in
      elim answer [
        | inl (_, _, none_fits) ↦
            absurd (none_fits room.start room.above (omega (arith, room.below)) free_one)
        | inr (e, g') ↦
            let g : Granted heap m 1 e ptr m1 = subst (λ k. Granted heap m k e ptr m1) one g' in
            let given = page-Given m m1 size ptr e small g in
            let some_ptr : (ptr == 0) ≡ false = ground (arith, given.at, paged.placed.apart) in
            (
              ptr,
              e,
              memset m1 ptr 0 size,
              ground (arith, run, some_ptr),
              given,
              elim (dec_lt e room.start) [
                | yes before ↦ record {
                  start = room.start;
                  above = room.above;
                  below = omega (arith, room.below);
                  free = λ i lt.
                      free_kept given room.start (suc n) before room.below room.free i
                        (omega arith);
                }
                | no not_before ↦ elim (dec_lt room.start e) [
                  | yes past ↦ absurd (g'.fit.first room.start room.above past free_one)
                  | no not_past ↦ record {
                    start = room.start + 1;
                    above = omega (arith, room.above);
                    below = omega (arith, room.below);
                    free =
                        free_kept given (room.start + 1) n (omega arith) (omega (arith, room.below))
                          (λ i lt.
                            let next : room.start + suc i ≡ room.start + 1 + i = omega arith in
                            rw next at (room.free (suc i) (omega arith)));
                  }
                ]
              ],
            )
      ]
