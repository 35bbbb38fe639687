-- ===== src/Tests/Mounts.antt =====
-- Two file systems, each a number that is the type of the disk that it accepts.
use kernel_play.Prelude.{
  ℕ, ◌≡◌, refl, [], ◌∷◌, ◌++◌, map, some, none, replicate, arith, if◌then◌else◌, ◌==◌,
}
use kernel_play.Prelude.Run.{Run, ok}
use kernel_play.Registry.{fs_resolve, fs_insert_filesystem}
use kernel_play.Registry.Resolve.{Refused, untried, refused, insert-resolve}

abbrev accepts : ℕ → ℕ → Run (ℕ × ℕ)
accepts fs disk = ok (if fs == disk then 0 else 5, disk)

tried : Refused accepts (7 ∷ []) 8 8
tried = refused 7 [] 5 refl (omega arith) untried

insert-resolve_example :
    (fs_resolve accepts (map some (7 ∷ []) ++ replicate 11 none) 8 ≡ ok (none, 8))
    × (fs_resolve accepts (fs_insert_filesystem (map some (7 ∷ []) ++ replicate 11 none) 8) 8
        ≡ ok (some 8, 8))
insert-resolve_example = insert-resolve accepts (7 ∷ []) 10 8 8 8 8 tried refl
