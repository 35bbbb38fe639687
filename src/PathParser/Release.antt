-- ===== src/PathParser/Release.antt =====
-- Parsing a path and releasing it: which blocks the parts get, and that all of them come back.
use kernel_play.Prelude.{
  ℕ, zero, suc, ◌+◌, ◌*◌, ◌≡◌, ◌≤◌, ◌<◌, refl, ap, ◌∙◌, List, [], ◌∷◌, ◌++◌, arith, length, Bool,
  false, not, ◌&&◌, ◌==◌, leb, ltb, word, int_lt,
}
use kernel_play.Prelude.Run.{ok}
use kernel_play.Memory.{Memory}
use kernel_play.Heap.{Heap, kheap_zalloc}
use kernel_play.Heap.Singles.{
  IsUsable, Singles, Singles-ext, block, upto, without_block, zalloc_next, free_one,
}
use kernel_play.Text.{load}
use kernel_play.PathParser.{
  PathPart, PathRoot, parse_path_parts, parse_path_root, validate_start_of_path, free_path_part,
  free_path_root,
}
use kernel_play.PathParser.Parts.{IsName, AllNames, AllShort, joined, split_name_lem}
use kernel_play.PathParser.Roots.{
  path_of, parts_text, strlen-path, parse_drive_no_lem, validate_start_lem, AllShort-parts,
  enough_fuel,
}

-- The parts with these names, in the blocks from `k` on: each part before its name.
abbrev pub parts_at : Heap → ℕ → List (List ℕ) → List PathPart
parts_at heap k [] = []
parts_at heap k (name ∷ names) =
    record { addr = block heap k; name_addr = block heap (k + 1); name = name }
    ∷ parts_at heap (k + 2) names

-- The `n` blocks from `k` on are given back.
abbrev pub released : ℕ → ℕ → (ℕ → Bool) → ℕ → Bool
released k n taken j = taken j && not (leb k j && ltb j (k + n))

module _ (heap : Heap) (usable : IsUsable heap) where
  some_block : (k : ℕ) → (block heap k == 0) ≡ false
  some_block k = ground (arith, usable.placed.apart)

  last_placed :
      (fuel : ℕ) (m : Memory) (k : ℕ) (name rest : List ℕ)
      → IsName name
      → length name < 257
      → k + 1 < heap.table.size
      → Singles heap m (upto (k + 1))
      → (m' : Memory) × (parse_path_parts heap (suc fuel) m (name ++ 0 ∷ rest) (block heap k)
          ≡ ok (0, parts_at heap k (name ∷ []), m'))
        × Singles heap m' (upto (k + 2))
  unfolding parse_path_parts load
  last_placed fuel m k name rest h short room s =
      let (m', run, after) =
        zalloc_next heap usable m (k + 1) (length name + 1) (omega arith) (omega arith) room s in
      let split = split_name_lem name 0 rest h refl in
      (m', ground (arith, run, split, some_block (k + 1)), Singles-ext (λ j lt. ground arith) after)

  more_placed :
      (fuel : ℕ) (m m2 m3 : Memory) (k : ℕ) (name path : List ℕ) (names : List (List ℕ))
      (m1 : Memory)
      → IsName name
      → kheap_zalloc heap m (length name + 1) ≡ ok (block heap (k + 1), m1)
      → kheap_zalloc heap m1 8 ≡ ok (block heap (k + 2), m2)
      → parse_path_parts heap fuel m2 path (block heap (k + 2))
        ≡ ok (0, parts_at heap (k + 2) names, m3)
      → parse_path_parts heap (suc fuel) m (name ++ b'/' ∷ path) (block heap k)
        ≡ ok (0, parts_at heap k (name ∷ names), m3)
  unfolding parse_path_parts load
  more_placed fuel m m2 m3 k name path names m1 h run run' later =
      let split = split_name_lem name b'/' path h refl in
      ground (arith, run, run', split, some_block (k + 1), some_block (k + 2), later)

  parts_placed :
      (fuel : ℕ) (m : Memory) (k : ℕ) (name : List ℕ) (names : List (List ℕ)) (rest : List ℕ)
      → AllNames (name ∷ names)
      → AllShort (name ∷ names)
      → length names < fuel
      → k + 2 * length names + 1 < heap.table.size
      → Singles heap m (upto (k + 1))
      → (m' : Memory) × (parse_path_parts heap fuel m (joined name names rest) (block heap k)
          ≡ ok (0, parts_at heap k (name ∷ names), m'))
        × Singles heap m' (upto (k + 2 * length names + 2))
  parts_placed zero m k name names rest h short enough room s = absurd (omega arith)
  parts_placed (suc fuel) m k name [] rest h short enough room s =
      let (m', run, after) = last_placed fuel m k name rest h.0 short.0 (omega arith) s in
      (m', run, Singles-ext (λ j lt. ground arith) after)
  parts_placed (suc fuel) m k name (next ∷ names) rest h short enough room s =
      let (m1, run, s1) =
        zalloc_next heap usable m (k + 1) (length name + 1) (omega arith) (omega arith)
          (omega arith) s in
      let (m2, run', s2) =
        zalloc_next heap usable m1 (k + 1 + 1) 8 (omega arith) (omega arith) (omega arith) s1 in
      let at : k + 1 + 1 ≡ k + 2 = omega arith in
      let run2 = run' ∙ ap (λ j. ok (block heap j, m2)) at in
      let (m3, later, s3) =
        parts_placed fuel m2 (k + 2) next names rest h.1 short.1 (omega arith) (omega arith)
          (Singles-ext (λ j lt. ground arith) s2) in
      (
        m3,
        more_placed fuel m m2 m3 k name (joined next names rest) (next ∷ names) m1 h.0 run run2
            later,
        Singles-ext (λ j lt. ground arith) s3,
      )

  -- The parts are released with their names, and no other block is.
  parts_released :
      (m : Memory) (taken : ℕ → Bool) (k : ℕ) (name : List ℕ) (names : List (List ℕ))
      → k + 2 * length names + 2 < heap.table.size
      → Singles heap m taken
      → (m' : Memory) × (free_path_part heap m (parts_at heap k (name ∷ names)) ≡ ok m')
        × Singles heap m' (released k (2 * length names + 2) taken)
  unfolding free_path_part
  parts_released m taken k name [] room s =
      let (m1, run1, s1) = free_one heap usable m taken (k + 1) s (omega arith) in
      let (m2, run2, s2) =
        free_one heap usable m1 (without_block (k + 1) taken) k s1 (omega arith) in
      (m2, ground (arith, run1, run2), Singles-ext (λ j lt. ground arith) s2)
  parts_released m taken k name (next ∷ names) room s =
      let (m1, run1, s1) = free_one heap usable m taken (k + 1) s (omega arith) in
      let (m2, run2, s2) =
        parts_released m1 (without_block (k + 1) taken) (k + 2) next names (omega arith) s1 in
      let (m3, run3, s3) =
        free_one heap usable m2
          (released (k + 2) (2 * length names + 2) (without_block (k + 1) taken)) k s2
          (omega arith) in
      (m3, ground (arith, run1, run2, run3), Singles-ext (λ j lt. ground arith) s3)

  pub root_placed :
      (m : Memory) (root : PathRoot) (k d : ℕ) (name : List ℕ) (names : List (List ℕ))
      (rest : List ℕ)
      → d < 10
      → AllNames (name ∷ names)
      → length (parts_text name names) ≤ 253
      → k + 2 * length names + 1 < heap.table.size
      → Singles heap m (upto k)
      → (m' : Memory) × (parse_path_root heap m (path_of d name names rest) root
          ≡ ok (0, record { drive_no = d; parts = parts_at heap k (name ∷ names) }, m'))
        × Singles heap m' (upto (k + 2 * length names + 2))
  unfolding parse_path_root
  root_placed m root k d name names rest digit h short room s =
      let path = joined name names rest in
      let len = strlen-path d name names rest h in
      let fits : int_lt 256 (word (length (parts_text name names) + 3)) ≡ false = ground arith in
      let drive = parse_drive_no_lem d (b':' ∷ b'/' ∷ path) digit in
      let start : validate_start_of_path (b':' ∷ b'/' ∷ path) ≡ ok (0, path) =
        validate_start_lem b':' b'/' path (omega arith) (omega arith) in
      let (m1, run, s1) =
        zalloc_next heap usable m k 8 (omega arith) (omega arith) (omega arith) s in
      let (m2, parsed, s2) =
        parts_placed (length path + 1) m1 k name names rest h
          (AllShort-parts name names (omega arith)) (omega (arith, enough_fuel name names rest))
          room s1 in
      (m2, ground (arith, len, fits, drive, start, run, some_block k, parsed), s2)

  -- In a table whose first `k` blocks are taken, with room behind them, a path of `n` names gets
  -- the `2 * n` blocks that follow its root's, and releasing the root takes the table back to its
  -- first `k` blocks: nothing leaks, and nothing else is released.
  pub parse-free_path_root :
      (m : Memory) (k d : ℕ) (name : List ℕ) (names : List (List ℕ)) (rest : List ℕ)
      → d < 10
      → AllNames (name ∷ names)
      → length (parts_text name names) ≤ 253
      → k + 2 * length names + 3 < heap.table.size
      → Singles heap m (upto k)
      → let root : PathRoot = record {
        drive_no = d;
        parts = parts_at heap (k + 1) (name ∷ names);
      } in
        (m1 : Memory) × (m2 : Memory) × (m3 : Memory) × (kheap_zalloc heap m 8
          ≡ ok (block heap k, m1))
        × (parse_path_root heap m1 (path_of d name names rest) (record { drive_no = 0; parts = [] })
            ≡ ok (0, root, m2))
        × Singles heap m2 (upto (k + 2 * length names + 3))
        × (free_path_root heap m2 (block heap k) root ≡ ok m3)
        × Singles heap m3 (upto k)
  unfolding free_path_root
  parse-free_path_root m k d name names rest digit h short room s =
      let root : PathRoot = record { drive_no = d; parts = parts_at heap (k + 1) (name ∷ names) } in
      let (m1, run, s1) =
        zalloc_next heap usable m k 8 (omega arith) (omega arith) (omega arith) s in
      let (m2, parsed, s2) =
        root_placed m1 (record { drive_no = 0; parts = [] }) (k + 1) d name names rest digit h short
          (omega arith) s1 in
      let full : Singles heap m2 (upto (k + 2 * length names + 3)) =
        Singles-ext (λ j lt. ground arith) s2 in
      let (m3, freed, s3) =
        parts_released m2 (upto (k + 2 * length names + 3)) (k + 1) name names (omega arith) full in
      let (m4, ended, s4) =
        free_one heap usable m3
          (released (k + 1) (2 * length names + 2) (upto (k + 2 * length names + 3))) k s3
          (omega arith) in
      (
        m1,
        m2,
        m4,
        run,
        parsed,
        full,
        ground (arith, freed, ended),
        Singles-ext (λ j lt. ground arith) s4,
      )
