-- ===== src/Registry/Resolve.antt =====
-- Which file system a disk gets.
use kernel_play.Prelude.{
  ℕ, zero, suc, ◌+◌, ◌≡◌, ◌≢◌, refl, ap, ◌∙◌, Option, none, some, List, [], ◌∷◌, ◌++◌, map, arith,
  ◌==◌, false, set, replicate, length,
}
use kernel_play.Prelude.Run.{Run, ok}
use kernel_play.Registry.{get_free_filesystem, fs_insert_filesystem, fs_resolve}

-- The file systems that are tried one after the other and all refuse the disk.
pub data Refused {F S : Type 0} (resolve : F → S → Run (ℕ × S)) : List F → S → S → Type 0 where
  untried : {disk : S} → Refused resolve [] disk disk
  refused :
      {disk next last : S} (fs : F) (fss : List F) (res : ℕ)
      → resolve fs disk ≡ ok (res, next)
      → res ≢ 0
      → Refused resolve fss next last
      → Refused resolve (fs ∷ fss) disk last

module _ {F : Type 0} where
  free-registered :
      (fss : List F) (rest : List (Option F))
      → get_free_filesystem (map some fss ++ none ∷ rest) ≡ some (length fss)
  unfolding get_free_filesystem
  free-registered [] rest = refl
  free-registered (fs ∷ fss) rest =
      let later = free-registered fss rest in
      let next : length fss + 1 ≡ length (fs ∷ fss) = omega arith in rw (later, next) refl

  set-registered :
      (fss : List F) (rest : List (Option F)) (slot : Option F)
      → set (map some fss ++ none ∷ rest) (length fss) slot ≡ map some fss ++ slot ∷ rest
  set-registered [] rest slot = refl
  set-registered (fs ∷ fss) rest slot = ap (λ slots. some fs ∷ slots) (set-registered fss rest slot)

  -- The table with one more file system behind those that are registered.
  insert-registered :
      (fss : List F) (rest : List (Option F)) (fs : F)
      → fs_insert_filesystem (map some fss ++ none ∷ rest) fs ≡ map some fss ++ some fs ∷ rest
  unfolding fs_insert_filesystem
  insert-registered fss rest fs =
      ground (arith, free-registered fss rest, set-registered fss rest (some fs))

module _ {F S : Type 0} (resolve : F → S → Run (ℕ × S)) where
  resolve-registered :
      (fss : List F) (rest : List (Option F)) (disk last : S)
      → Refused resolve fss disk last
      → fs_resolve resolve (map some fss ++ rest) disk ≡ fs_resolve resolve rest last
  unfolding fs_resolve
  resolve-registered [] rest disk last untried = refl
  resolve-registered (fs ∷ fss) rest disk last (refused {next = next} _ _ res run ne later) =
      let test : (res == 0) ≡ false = ground (arith, ne) in
      ground (arith, run, test, resolve-registered fss rest next last later)

  resolve-accepted :
      (rest : List (Option F)) (fs : F) (disk after : S)
      → resolve fs disk ≡ ok (0, after)
      → fs_resolve resolve (some fs ∷ rest) disk ≡ ok (some fs, after)
  unfolding fs_resolve
  resolve-accepted rest fs disk after run = rw run refl

  resolve-empty : (n : ℕ) (disk : S) → fs_resolve resolve (replicate n none) disk ≡ ok (none, disk)
  unfolding fs_resolve
  resolve-empty zero disk = refl
  resolve-empty (suc n) disk = resolve-empty n disk

  -- Where all registered file systems refuse the disk: before a further one is inserted, resolving
  -- tries each and gives none; after the insertion of one that accepts the disk, resolving gives it.
  pub insert-resolve :
      (fss : List F) (free : ℕ) (fs : F) (disk last after : S)
      → Refused resolve fss disk last
      → resolve fs last ≡ ok (0, after)
      → let slots = map some fss ++ replicate (suc free) none in
        (fs_resolve resolve slots disk ≡ ok (none, last))
        × (fs_resolve resolve (fs_insert_filesystem slots fs) disk ≡ ok (some fs, after))
  insert-resolve fss free fs disk last after tried run = (
    resolve-registered fss (replicate (suc free) none) disk last tried
        ∙ resolve-empty (suc free) last,
    ap (λ slots. fs_resolve resolve slots disk) (insert-registered fss (replicate free none) fs)
        ∙ resolve-registered fss (some fs ∷ replicate free none) disk last tried
        ∙ resolve-accepted (replicate free none) fs last after run,
  )
