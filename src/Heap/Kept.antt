-- ===== src/Heap/Kept.antt =====
-- The invariant of the sessions of Session: live allocations keep their marks and stay disjoint.
use kernel_play.Prelude.{
  ℕ, ◌+◌, ◌-◌, ◌≤◌, ◌<◌, ◌≡◌, ◌∙◌, sym, subst, refl, ap₂, ◌⊎◌, inl, inr, false, arith, List, [],
  ◌∷◌, ◌++◌, ltb, dec_lt,
}
use kernel_play.Prelude.Run.{ok}
use kernel_play.Memory.{Memory, write}
use kernel_play.Heap.{Heap, heap_table_entry_has_next, heap_free, new_entry}
use kernel_play.Heap.Mark.{new_entry-has_next}
use kernel_play.Heap.Malloc.{Granted, blocks_for}
use kernel_play.Heap.Release.{Chain, heap_free-Cleared}
use kernel_play.Heap.Lifetime.{Placed, Granted-of_ne_null, pointer_block}
use kernel_play.Heap.Session.{
  Live, State, pointer_of, Step, allocate, store, release, Reach, start, next, All, Apart, Disjoint,
  IsHeld, IsKept,
}
use kernel_play.Heap.Held.{All-middle, Disjoint-middle, IsHeld-same, All-map, All-both, held_apart}

module _ {heap : Heap} (pl : Placed heap) where
  allocate-IsKept :
      (s : State) (n ptr p : ℕ) (m : Memory) (r : Live)
      → 0 < n
      → Granted heap s.memory n p ptr m
      → r.count ≡ n
      → ptr ≡ pointer_of heap r
      → heap.table.entries ≤ r.entry
      → r.entry + r.count ≤ heap.table.entries + heap.table.size
      → IsKept heap s
      → IsKept heap (record { memory = m; live = r ∷ s.live })
  allocate-IsKept s n ptr p m r pos g size pointer above below kept =
      let same : r.entry ≡ p = omega (arith, pointer, pointer_block pl g, g.fit.above) in
      let own : IsHeld heap m r = record {
        some_blocks = omega (arith, size);
        above = above;
        below = below;
        marks = λ a le lt.
            let ends : p + n ≡ r.entry + r.count = omega arith in
            let at = ap₂ (λ x y. new_entry x y a) (sym same) ends in
            g.marked a ∙ ground (arith, at, same, size);
      } in
      (
        (own, All-map (IsHeld heap s.memory) (IsHeld heap m) s.live other kept.0),
        (All-map (IsHeld heap s.memory) (Apart r) s.live apart kept.0, kept.1),
      )
    where
      misses : (q : Live) → IsHeld heap s.memory q → (p + n ≤ q.entry) ⊎ (q.entry + q.count ≤ p)
      misses q h = held_apart p n h pos g.fit.free

      other : (q : Live) → IsHeld heap s.memory q → IsHeld heap m q
      other q h = IsHeld-same h (λ a le lt. g.marked a ∙ ground (arith, misses q h))

      apart : (q : Live) → IsHeld heap s.memory q → Apart r q
      apart q h = omega (arith, misses q h, pointer, pointer_block pl g, g.fit.above)

  store-IsKept :
      (s : State) (a v : ℕ)
      → heap.start_addr ≤ a
      → IsKept heap s
      → IsKept heap (record { memory = write s.memory a v; live = s.live })
  store-IsKept s a v behind kept = (
    All-map (IsHeld heap s.memory) (IsHeld heap (write s.memory a v)) s.live keeps kept.0,
    kept.1,
  )
    where
      keeps : (q : Live) → IsHeld heap s.memory q → IsHeld heap (write s.memory a v) q
      keeps q h = IsHeld-same h (λ b le lt. unfold write in ground (arith, h.below, pl.apart))

  held-has_next :
      {m : Memory} {r : Live}
      → IsHeld heap m r
      → (a : ℕ) → r.entry ≤ a
      → a < r.entry + r.count
      → heap_table_entry_has_next m a ≡ ltb a (r.entry + r.count - 1)
  unfolding heap_table_entry_has_next
  held-has_next {r = r} h a le lt =
      ground (arith, h.marks a le lt, new_entry-has_next r.entry (r.entry + r.count) a)

  -- The flags behind the first entry of an allocation that is released.
  release-Chain :
      (m : Memory) (r : Live)
      → IsHeld heap m r
      → (1 < r.count) ⊎ (heap_table_entry_has_next m (r.entry + 1) ≡ false)
      → (k : ℕ) × (k < r.count) × Chain m r.entry k
  release-Chain m r h why = elim (dec_lt 1 r.count) [
    | yes many ↦ (
      r.count - 2,
      omega arith,
      record {
        linked =
            λ i pos le. held-has_next h (r.entry + i) (omega arith) (omega arith) ∙ ground arith;
        stops =
            held-has_next h (r.entry + (r.count - 2) + 1) (omega arith) (omega arith)
            ∙ ground arith;
      },
    )
    | no single ↦ (
      0,
      omega (arith, h.some_blocks),
      record {
        linked = λ i pos le. absurd (omega arith);
        stops =
            let e : r.entry + 0 + 1 ≡ r.entry + 1 = omega arith in
            elim why [ inl more ↦ absurd (single more) | inr flag ↦ rw e flag ];
      },
    )
  ]

  release-IsKept :
      (s : State) (front back : List Live) (r : Live) (m : Memory)
      → s.live ≡ front ++ r ∷ back
      → (1 < r.count) ⊎ (heap_table_entry_has_next s.memory (r.entry + 1) ≡ false)
      → heap_free heap s.memory (pointer_of heap r) ≡ ok m
      → IsKept heap s
      → IsKept heap (record { memory = m; live = front ++ back })
  release-IsKept s front back r m live why run kept =
      let (own, others) =
        All-middle (IsHeld heap s.memory) front back r
          (subst (All (IsHeld heap s.memory)) live kept.0) in
      let (apart, rest) = Disjoint-middle front back r (subst Disjoint live kept.1) in
      let (k, short, chain) = release-Chain s.memory r own why in
      let (m', run', at) =
        heap_free-Cleared heap s.memory (r.entry - heap.table.entries) k r.entry (pointer_of heap r)
          (omega (arith, own.above)) refl (omega (arith, own.above, own.below))
          (omega (arith, own.below, own.some_blocks, pl.low))
          (omega (arith, own.below, own.some_blocks, pl.low)) (omega (arith, own.below, pl.apart))
          chain in
      let results : ok m' ≡ ok m = sym run' ∙ run in
      let same : m' ≡ m = cc results in
      (
        subst (λ x. All (IsHeld heap x) (front ++ back)) same
            (All-both (IsHeld heap s.memory) (Apart r) (IsHeld heap m') (front ++ back)
              (λ q h away.
                IsHeld-same h (λ a le lt. at a ∙ ground (arith, away, h.below, pl.apart)))
              others apart),
        rest,
      )

  Step-IsKept :
      (s t : State) → 0 < heap.table.entries → Step heap s t → IsKept heap s → IsKept heap t
  Step-IsKept s t placed (allocate size ptr r m pos small run some_ptr count pointer above below is)
        kept =
      let (p, g) = Granted-of_ne_null heap s.memory size ptr m pos small placed run some_ptr in
      subst (IsKept heap) (sym is) (
        allocate-IsKept s (blocks_for size) ptr p m r (omega arith) g count pointer above below
          kept)
  Step-IsKept s t placed (store a v behind is) kept =
      subst (IsKept heap) (sym is) (store-IsKept s a v behind kept)
  Step-IsKept s t placed (release front back r m live why run is) kept =
      subst (IsKept heap) (sym is) (release-IsKept s front back r m live why run kept)

  -- On a heap whose table is not at 0, from any memory and no live allocation, take any sequence of
  -- these steps: an allocation of 1 to 2 ^ 31 - 4096 bytes whose run lies inside the table; a store
  -- behind the table; a release of a live allocation of several blocks, or of one block where the
  -- next entry has no flag. Then the live allocations lie in the table, hold their marks, and no two
  -- of them share a block.
  pub Reach-IsKept :
      (m : Memory) (t : State)
      → 0 < heap.table.entries
      → Reach heap (record { memory = m; live = [] }) t
      → IsKept heap t
  Reach-IsKept m t placed start = (tt, tt)
  Reach-IsKept m t placed (next {t = u} r step) =
      Step-IsKept u t placed step (Reach-IsKept m u placed r)
