-- ===== src/Heap/Session.antt =====
-- Sessions of a program on the heap: sequences of the calls and stores that `Step` describes, under
-- the conditions on which the heap keeps its promises.
use kernel_play.Prelude.{ℕ, ◌+◌, ◌-◌, ◌*◌, ◌≤◌, ◌<◌, ◌^◌, ◌≡◌, ◌≢◌, ◌⊎◌, false, List, [], ◌∷◌, ◌++◌}
use kernel_play.Prelude.Run.{ok}
use kernel_play.Memory.{Memory, write}
use kernel_play.Heap.{Heap, heap_table_entry_has_next, heap_malloc, heap_free, new_entry}
use kernel_play.Heap.Malloc.{blocks_for}

-- A live allocation: its first entry and how many blocks it takes.
pub record Live : Type 0 where
  pub entry : ℕ
  pub count : ℕ

pub record State : Type 0 where
  pub memory : Memory
  pub live : List Live

abbrev pub pointer_of : Heap → Live → ℕ
pointer_of heap r = heap.start_addr + (r.entry - heap.table.entries) * 4096

-- A step of the program: an allocation of 1 to 2 ^ 31 - 4096 bytes that is granted, in a run that lies
-- inside the table; a store behind the table; and the release of a live allocation. A run that passes
-- the end of the table is no step, though `heap_malloc` may grant it, nor is the release of one block
-- before an entry with the flag, where `heap_free` goes on into the neighbour.
pub data Step (heap : Heap) (s t : State) : Type 0 where
  allocate :
      (size ptr : ℕ) (r : Live) (m : Memory)
      → 0 < size
      → size ≤ 2 ^ 31 - 4096
      → heap_malloc heap s.memory size ≡ ok (ptr, m)
      → ptr ≢ 0
      → r.count ≡ blocks_for size
      → ptr ≡ pointer_of heap r
      → heap.table.entries ≤ r.entry
      → r.entry + r.count ≤ heap.table.entries + heap.table.size
      → t ≡ record { memory = m; live = r ∷ s.live }
      → Step heap s t
  store :
      (a v : ℕ)
      → heap.start_addr ≤ a
      → t ≡ record { memory = write s.memory a v; live = s.live }
      → Step heap s t
  release :
      (front back : List Live) (r : Live) (m : Memory)
      → s.live ≡ front ++ r ∷ back
      → (1 < r.count) ⊎ (heap_table_entry_has_next s.memory (r.entry + 1) ≡ false)
      → heap_free heap s.memory (pointer_of heap r) ≡ ok m
      → t ≡ record { memory = m; live = front ++ back }
      → Step heap s t

pub data Reach (heap : Heap) (s : State) : State → Type 0 where
  start : Reach heap s s
  next : {t u : State} → Reach heap s t → Step heap t u → Reach heap s u

abbrev pub All : (Live → Type 0) → List Live → Type 0
All P [] = Unit
All P (r ∷ rs) = P r × All P rs

abbrev pub Apart : Live → Live → Type 0
Apart r q = (r.entry + r.count ≤ q.entry) ⊎ (q.entry + q.count ≤ r.entry)

abbrev pub Disjoint : List Live → Type 0
Disjoint [] = Unit
Disjoint (r ∷ rs) = All (Apart r) rs × Disjoint rs

-- The entries of the allocation lie in the table and hold the marks that `heap_malloc` wrote.
pub record IsHeld (heap : Heap) (m : Memory) (r : Live) : Type 0 where
  pub some_blocks : 0 < r.count
  pub above : heap.table.entries ≤ r.entry
  pub below : r.entry + r.count ≤ heap.table.entries + heap.table.size
  pub marks :
      (a : ℕ) → r.entry ≤ a → a < r.entry + r.count → m a ≡ new_entry r.entry (r.entry + r.count) a

abbrev pub IsKept : Heap → State → Type 0
IsKept heap s = All (IsHeld heap s.memory) s.live × Disjoint s.live
