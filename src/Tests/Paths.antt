-- ===== src/Tests/Paths.antt =====
-- Paths at concrete inputs.
use kernel_play.Prelude.{ℕ, ◌≡◌, List, [], ◌∷◌, arith, ◌+◌, ◌*◌, length}
use kernel_play.Prelude.Run.{ok}
use kernel_play.Memory.{Memory}
use kernel_play.Heap.{Heap, kheap_zalloc}
use kernel_play.Heap.Singles.{Singles, IsUsable, block, upto}
use kernel_play.PathParser.Release.{parts_at, parse-free_path_root}
use kernel_play.PathParser.{free_path_root, PathRoot, parse_path_root}
use kernel_play.PathParser.Roots.{path_of}
use kernel_play.Tests.Heaps.{zeros}
use kernel_play.Prelude.Codes.{codes}

abbrev empty_root : PathRoot
empty_root = record { drive_no = 0; parts = [] }

-- A heap of twelve blocks, all free.
abbrev twelve : Heap
twelve = record { table = record { entries = 100; size = 12 }; start_addr = 4096 }

twelve-IsUsable : IsUsable twelve
twelve-IsUsable = record {
  placed = record { apart = omega arith; low = omega arith };
  some_table = omega arith;
}

none_taken : Singles twelve zeros (upto 0)
none_taken = record { marks = λ i lt. ground arith }

parse-free_path_root_example :
    let names : List (List ℕ) = codes "b" ∷ [] in
    let root : PathRoot = record {
      drive_no = 0;
      parts = parts_at twelve (0 + 1) (codes "aaa" ∷ names);
    } in
    (m1 : Memory) × (m2 : Memory) × (m3 : Memory) × (kheap_zalloc twelve zeros 8
      ≡ ok (block twelve 0, m1))
    × (parse_path_root twelve m1 (path_of 0 (codes "aaa") names []) empty_root ≡ ok (0, root, m2))
    × Singles twelve m2 (upto (0 + 2 * length names + 3))
    × (free_path_root twelve m2 (block twelve 0) root ≡ ok m3)
    × Singles twelve m3 (upto 0)
parse-free_path_root_example =
    parse-free_path_root twelve twelve-IsUsable zeros 0 0 (codes "aaa") (codes "b" ∷ []) []
      (omega arith) (omega arith) (omega arith) (omega arith) none_taken
