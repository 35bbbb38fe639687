-- ===== src/Heap/Search.antt =====
-- `find_free_block_start` is first fit over the entries of the table.
use kernel_play.Prelude.{
  ℕ, zero, suc, ◌+◌, ◌-◌, ◌≤◌, ◌<◌, ◌≡◌, refl, ◌⊎◌, inl, inr, true, false, arith, ltb, Bool-cases,
  rounds, ℕ_discrete, dec_lt, ◌∙◌,
}
use kernel_play.Prelude.Run.{ok}
use kernel_play.Memory.{Memory}
use kernel_play.Heap.{
  Heap, is_free_block, is_free_blocks, is_free_run, find_next_free_block, find_from,
  find_free_block_start,
}
use kernel_play.Heap.Table.{FreeRun, is_free_run_sound, is_free_run_complete}

-- No entry from `lo` to `hi` starts `n` free ones.
abbrev pub NoFit : Memory → ℕ → ℕ → ℕ → Type 0
NoFit m n lo hi = (q : ℕ) → lo ≤ q → q < hi → ¬ FreeRun m q n

-- `p` is the first entry from `lo` to `hi` that starts `n` free ones.
pub record Fit (m : Memory) (n lo hi p : ℕ) : Type 0 where
  pub above : lo ≤ p
  pub below : p < hi
  pub free : FreeRun m p n
  pub first : NoFit m n lo p

abbrev pub Outcome : Memory → ℕ → ℕ → ℕ → ℕ → Type 0
Outcome m n lo hi p = ((p ≡ 0) × NoFit m n lo hi) ⊎ Fit m n lo hi p

pub taken-no_fit : (m : Memory) (q n : ℕ) → 0 < n → is_free_block m q ≡ false → ¬ FreeRun m q n
taken-no_fit m q n pos taken run =
    let e : q + 0 ≡ q = omega arith in
    let free : is_free_block m q ≡ true = rw e at (run 0 pos) in ground (arith, free, taken)

NoFit-join : (m : Memory) (n lo mid hi : ℕ) → NoFit m n lo mid → NoFit m n mid hi → NoFit m n lo hi
NoFit-join m n lo mid hi f g q h k = elim (Bool-cases (ltb q mid)) [
  | inl e ↦ f q h (ground arith)
  | inr e ↦ g q (ground arith) k
]

-- Where the scan for a free block stops.
record Stops (m : Memory) (p n r : ℕ) : Type 0 where
  above : p ≤ r
  below : r ≤ p + n
  skipped : (q : ℕ) → p ≤ q → q < r → is_free_block m q ≡ false

find_next-Stops : (m : Memory) (p n : ℕ) → Stops m p n (find_next_free_block m p n)
unfolding find_next_free_block
find_next-Stops m p zero = record {
  above = omega arith;
  below = omega arith;
  skipped = λ q h k. absurd (omega arith);
}
find_next-Stops m p (suc n) = elim (Bool-cases (is_free_block m p)) [
  | inl e ↦
      rw (e, find_next_free_block)
        (record {
          above = omega arith;
          below = omega arith;
          skipped = λ q h k. absurd (omega arith);
        })
  | inr e ↦
      let rest = find_next-Stops m (p + 1) n in
      rw (e, find_next_free_block)
        (record {
          above = omega (arith, rest.above);
          below = omega (arith, rest.below);
          skipped = λ q h k. elim (ℕ_discrete q p) [
            | yes same ↦ rw same e
            | no ne ↦ rest.skipped q (omega arith) k
          ];
        })
]

Stops-NoFit : {m : Memory} {p n r : ℕ} (k : ℕ) → 0 < k → Stops m p n r → NoFit m k p r
Stops-NoFit {m} k pos s q h lt = taken-no_fit m q k pos (s.skipped q h lt)

Outcome-extend :
    {m : Memory} {n lo mid hi p : ℕ}
    → lo ≤ mid
    → NoFit m n lo mid
    → Outcome m n mid hi p
    → Outcome m n lo hi p
Outcome-extend {m} {n} {lo} {mid} {hi} {p} le before (inl (e, none_left)) =
    inl (e, NoFit-join m n lo mid hi before none_left)
Outcome-extend {m} {n} {lo} {mid} {hi} {p} le before (inr fit) = inr (record {
  above = omega (arith, fit.above);
  below = fit.below;
  free = fit.free;
  first = NoFit-join m n lo mid p before fit.first;
})

module _ (m : Memory) (blocks end : ℕ) (pos : 0 < rounds blocks) where
  -- One round that finds no run goes on behind `cur`, past entries that start none either.
  NoFit-past :
      (cur : ℕ)
      → cur < end
      → is_free_run m cur (rounds blocks) ≡ false
      → NoFit m (rounds blocks) cur (find_next_free_block m (cur + 1) (end - (cur + 1)))
  NoFit-past cur lt e q h k = elim (ℕ_discrete q cur) [
    | yes same ↦ λ run.
        let found = is_free_run_complete m q (rounds blocks) run in
        let e' : is_free_run m q (rounds blocks) ≡ false = rw same e in ground (arith, found, e')
    | no ne ↦
        Stops-NoFit (rounds blocks) pos (find_next-Stops m (cur + 1) (end - (cur + 1))) q
          (omega arith) k
  ]

  -- The three ways that a round of the search goes.
  find_from-past : (fuel cur : ℕ) → end ≤ cur → find_from m blocks end (suc fuel) cur ≡ ok 0
  unfolding find_from
  find_from-past fuel cur h = ground arith

  find_from-hit :
      (fuel cur : ℕ)
      → cur < end
      → is_free_run m cur (rounds blocks) ≡ true
      → find_from m blocks end (suc fuel) cur ≡ ok cur
  unfolding find_from is_free_blocks
  find_from-hit fuel cur h e = ground arith

  find_from-miss :
      (fuel cur : ℕ)
      → cur < end
      → is_free_run m cur (rounds blocks) ≡ false
      → find_from m blocks end (suc fuel) cur
        ≡ find_from m blocks end fuel (find_next_free_block m (cur + 1) (end - (cur + 1)))
  unfolding find_from is_free_blocks
  find_from-miss fuel cur h e = ground arith

  find_from-Outcome :
      (fuel cur : ℕ)
      → cur ≤ end
      → end < cur + fuel
      → (p : ℕ) × (find_from m blocks end fuel cur ≡ ok p) × Outcome m (rounds blocks) cur end p
  find_from-Outcome zero cur le fuel_left = absurd (omega arith)
  find_from-Outcome (suc fuel) cur le fuel_left = elim (dec_lt cur end) [
    | no past ↦
        (0, find_from-past fuel cur (omega arith), inl (refl, λ q h k. absurd (omega arith)))
    | yes lt ↦ elim (Bool-cases (is_free_run m cur (rounds blocks))) [
      | inl e ↦ (
        cur,
        find_from-hit fuel cur lt e,
        inr (record {
          above = omega arith;
          below = lt;
          free = is_free_run_sound m cur (rounds blocks) e;
          first = λ q h k. absurd (omega arith);
        }),
      )
      | inr e ↦
          let stops = find_next-Stops m (cur + 1) (end - (cur + 1)) in
          let next = find_next_free_block m (cur + 1) (end - (cur + 1)) in
          let (p, run, out) =
            find_from-Outcome fuel next (omega (arith, stops.below)) (omega (arith, stops.above)) in
          (
            p,
            find_from-miss fuel cur lt e ∙ run,
            Outcome-extend (omega (arith, stops.above)) (NoFit-past cur lt e) out,
          )
    ]
  ]

-- The search ends, and what it returns is the first entry of the table that starts `blocks` free
-- ones, or a null pointer where none does.
pub find_free_block_start-Outcome :
    (heap : Heap) (m : Memory) (blocks : ℕ)
    → 0 < rounds blocks
    → let start = heap.table.entries in
      (p : ℕ) × (find_free_block_start heap m blocks ≡ ok p)
      × Outcome m (rounds blocks) start (start + heap.table.size) p
unfolding find_free_block_start
find_free_block_start-Outcome heap m blocks pos =
    let start = heap.table.entries in
    let size = heap.table.size in
    let stops = find_next-Stops m start size in
    let (p, run, out) =
      find_from-Outcome m blocks (start + size) pos (size + 1) (find_next_free_block m start size)
        stops.below (omega (arith, stops.above)) in
    (p, run, Outcome-extend stops.above (Stops-NoFit (rounds blocks) pos stops) out)
