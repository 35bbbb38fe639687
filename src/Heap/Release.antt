-- ===== src/Heap/Release.antt =====
-- `heap_free`: which entries and blocks it clears. The loop tests the entry behind the one that it
-- has cleared, so it goes on while the next entry has the flag, and it stops before the last entry
-- of a run, which has none.
use kernel_play.Prelude.{
  ℕ, zero, suc, ◌+◌, ◌*◌, ◌≤◌, ◌<◌, ◌≡◌, ◌∙◌, ap, sym, true, false, arith, if◌then◌else◌, ◌==◌,
  ◌||◌, ◌+w◌, ◌-w◌, int_div,
}
use kernel_play.Prelude.Run.{ok}
use kernel_play.Memory.{Memory, write, memset}
use kernel_play.Memory.Fill.{inside, memset-at}
use kernel_play.Heap.{Heap, heap_table_entry_has_next, free_from, heap_free}

-- The `k` entries behind `e` say that a block follows, and the one behind them does not.
pub record Chain (m : Memory) (e k : ℕ) : Type 0 where
  pub linked : (i : ℕ) → 0 < i → i ≤ k → heap_table_entry_has_next m (e + i) ≡ true
  pub stops : heap_table_entry_has_next m (e + k + 1) ≡ false

pub has_next-cong :
    (m m' : Memory) (a : ℕ)
    → m' a ≡ m a
    → heap_table_entry_has_next m' a ≡ heap_table_entry_has_next m a
unfolding heap_table_entry_has_next
has_next-cong m m' a h = rw h

-- The memory after one round.
abbrev cleared : Memory → ℕ → ℕ → Memory
cleared m e d = write (memset m d 0 4096) e 0

cleared-at :
    (m : Memory) (e d a : ℕ) → cleared m e d a ≡ (if (a == e) || inside a d 4096 then 0 else m a)
unfolding write
cleared-at m e d a = ground (arith, memset-at m d 0 4096 a)

cleared-below : (m : Memory) (e d a : ℕ) → e < a → a < d → cleared m e d a ≡ m a
cleared-below m e d a h k = cleared-at m e d a ∙ ground arith

-- The rounds clear the `k + 1` entries from `e` on and as many blocks from `d` on.
abbrev pub Cleared : Memory → ℕ → ℕ → ℕ → Memory → Type 0
Cleared m e k d m' =
    (a : ℕ) → m' a ≡ (if inside a e (k + 1) || inside a d ((k + 1) * 4096) then 0 else m a)

free_from-stops :
    (fuel : ℕ) (m : Memory) (e d : ℕ)
    → heap_table_entry_has_next (cleared m e d) (e + 1) ≡ false
    → free_from (suc fuel) m e d ≡ ok (cleared m e d)
unfolding free_from
free_from-stops fuel m e d h = ground (arith, h)

free_from-goes_on :
    (fuel : ℕ) (m : Memory) (e d : ℕ)
    → heap_table_entry_has_next (cleared m e d) (e + 1) ≡ true
    → free_from (suc fuel) m e d ≡ free_from fuel (cleared m e d) (e + 1) (d + 4096)
unfolding free_from
free_from-goes_on fuel m e d h = ground (arith, h)

Chain-next :
    (m : Memory) (e k d : ℕ)
    → e + suc k + 1 < d
    → Chain m e (suc k)
    → Chain (cleared m e d) (e + 1) k
Chain-next m e k d below c = record {
  linked = λ i pos le.
      let shift : e + 1 + i ≡ e + suc i = omega arith in
      has_next-cong m (cleared m e d) (e + 1 + i)
        (cleared-below m e d _ (omega arith) (omega arith))
      ∙ ap (heap_table_entry_has_next m) shift
      ∙ c.linked (suc i) (omega arith) (omega arith);
  stops =
      let shift : e + 1 + k + 1 ≡ e + suc k + 1 = omega arith in
      has_next-cong m (cleared m e d) (e + 1 + k + 1)
        (cleared-below m e d _ (omega arith) (omega arith))
      ∙ ap (heap_table_entry_has_next m) shift
      ∙ c.stops;
}

free_from-Cleared :
    (fuel k : ℕ) (m : Memory) (e d : ℕ)
    → k < fuel
    → e + k + 1 < d
    → Chain m e k
    → (m' : Memory) × (free_from fuel m e d ≡ ok m') × Cleared m e k d m'
free_from-Cleared zero k m e d h below c = absurd (omega arith)
free_from-Cleared (suc fuel) zero m e d h below c =
    let shift : e + 0 + 1 ≡ e + 1 = omega arith in
    let stop : heap_table_entry_has_next (cleared m e d) (e + 1) ≡ false =
      has_next-cong m (cleared m e d) (e + 1) (cleared-below m e d _ (omega arith) (omega arith))
      ∙ ap (heap_table_entry_has_next m) (sym shift)
      ∙ c.stops in
    (cleared m e d, free_from-stops fuel m e d stop, λ a. cleared-at m e d a ∙ ground arith)
free_from-Cleared (suc fuel) (suc k) m e d h below c =
    let on : heap_table_entry_has_next (cleared m e d) (e + 1) ≡ true =
      has_next-cong m (cleared m e d) (e + 1) (cleared-below m e d _ (omega arith) (omega arith))
      ∙ c.linked 1 (omega arith) (omega arith) in
    let (m', run, at) =
      free_from-Cleared fuel k (cleared m e d) (e + 1) (d + 4096) (omega arith) (omega arith)
        (Chain-next m e k d below c) in
    (m', free_from-goes_on fuel m e d on ∙ run, λ a. at a ∙ ground (arith, cleared-at m e d a))

-- `heap_free` of the pointer to block `b`, whose entry stands at `e`, returns with the entries and
-- blocks `b` to `b + k` cleared and the rest of memory unchanged, where `k` is the number of
-- entries behind `e` that have the flag, in a row.
pub heap_free-Cleared :
    (heap : Heap) (m : Memory) (b k e ptr : ℕ)
    → e ≡ heap.table.entries + b
    → ptr ≡ heap.start_addr + b * 4096
    → k ≤ heap.table.size
    → b * 4096 < 2147483648
    → ptr < 4294967296
    → e + k + 1 < ptr
    → Chain m e k
    → (m' : Memory) × (heap_free heap m ptr ≡ ok m') × Cleared m e k ptr m'
unfolding heap_free
heap_free-Cleared heap m b k e ptr at_entry at_block len small fits below c =
    let block : int_div (ptr -w heap.start_addr) 4096 ≡ b = ground arith in
    let entry : heap.table.entries +w b ≡ e = omega arith in
    rw (block, entry) (free_from-Cleared (heap.table.size + 1) k m e ptr (omega arith) below c)
