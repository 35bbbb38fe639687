-- ===== src/Heap/Held.antt =====
-- Lists of live allocations, and what each of them holds.
use kernel_play.Prelude.{
  ℕ, ◌+◌, ◌-◌, ◌≤◌, ◌<◌, ◌≡◌, ◌∙◌, ◌⊎◌, true, false, arith, List, [], ◌∷◌, ◌++◌, dec_lt,
}
use kernel_play.Memory.{Memory}
use kernel_play.Heap.{Heap, is_free_block}
use kernel_play.Heap.Table.{FreeRun, is_free_block-even}
use kernel_play.Heap.Mark.{new_entry-odd}
use kernel_play.Heap.Session.{Live, All, Apart, Disjoint, IsHeld}

-- Lists that lose an element.
pub All-middle :
    (P : Live → Type 0) (front back : List Live) (r : Live)
    → All P (front ++ r ∷ back)
    → P r × All P (front ++ back)
All-middle P [] back r h = h
All-middle P (x ∷ front) back r h =
    let (here, rest) = All-middle P front back r h.1 in (here, (h.0, rest))

pub Disjoint-middle :
    (front back : List Live) (r : Live)
    → Disjoint (front ++ r ∷ back)
    → All (Apart r) (front ++ back) × Disjoint (front ++ back)
Disjoint-middle [] back r h = h
Disjoint-middle (x ∷ front) back r h =
    let (here, rest) = Disjoint-middle front back r h.1 in
    let (apart, others) = All-middle (Apart x) front back r h.0 in
    ((omega (arith, apart), here), (others, rest))

-- What holds of an allocation holds after a change that leaves its entries.
pub IsHeld-same :
    {heap : Heap} {m m' : Memory} {r : Live}
    → IsHeld heap m r
    → ((a : ℕ) → r.entry ≤ a → a < r.entry + r.count → m' a ≡ m a)
    → IsHeld heap m' r
IsHeld-same h same = record {
  some_blocks = h.some_blocks;
  above = h.above;
  below = h.below;
  marks = λ a le lt. same a le lt ∙ h.marks a le lt;
}

pub All-map :
    (P Q : Live → Type 0) (rs : List Live) → ((r : Live) → P r → Q r) → All P rs → All Q rs
All-map P Q [] f h = tt
All-map P Q (r ∷ rs) f h = (f r h.0, All-map P Q rs f h.1)

pub All-both :
    (P Q R : Live → Type 0) (rs : List Live)
    → ((r : Live) → P r → Q r → R r)
    → All P rs
    → All Q rs
    → All R rs
All-both P Q R [] f h k = tt
All-both P Q R (r ∷ rs) f h k = (f r h.0 k.0, All-both P Q R rs f h.1 k.1)

pub held-taken :
    {heap : Heap} {m : Memory} {r : Live}
    → IsHeld heap m r
    → (a : ℕ) → r.entry ≤ a
    → a < r.entry + r.count
    → is_free_block m a ≡ false
held-taken {m} {r} h a le lt =
    ground
      (arith, is_free_block-even m a, h.marks a le lt, new_entry-odd r.entry (r.entry + r.count) a)

-- A run of free entries misses every allocation that is held.
pub held_apart :
    {heap : Heap} {m : Memory} {r : Live} (q k : ℕ)
    → IsHeld heap m r
    → 0 < k
    → FreeRun m q k
    → (q + k ≤ r.entry) ⊎ (r.entry + r.count ≤ q)
held_apart {m} {r} q k h pos run = elim (dec_lt q (r.entry + r.count)) [
  | no past ↦ omega arith
  | yes lt ↦ elim (dec_lt r.entry (q + k)) [
    | no past ↦ omega arith
    | yes lt' ↦ elim (dec_lt r.entry q) [
      | yes behind ↦
          let e : q + 0 ≡ q = omega arith in
          let free : is_free_block m q ≡ true = rw e at (run 0 pos) in
          absurd (ground (arith, free, held-taken h q (omega arith) lt))
      | no before ↦
          let e : q + (r.entry - q) ≡ r.entry = omega arith in
          let free : is_free_block m r.entry ≡ true = rw e at (run (r.entry - q) (omega arith)) in
          absurd (
            ground (arith, free, held-taken h r.entry (omega arith) (omega (arith, h.some_blocks))))
    ]
  ]
]
