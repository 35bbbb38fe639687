-- ===== src/Text/Stores.antt =====
-- Loads and stores of an object behind a stretch of it.
use kernel_play.Prelude.{
  ℕ, ◌+◌, ◌≡◌, refl, ap, List, [], ◌∷◌, ◌++◌, arith, true, some, length, set, get_elem?,
  length-append, ltb,
}
use kernel_play.Prelude.Run.{ok}
use kernel_play.Text.{store, load}

-- A store behind a prefix.
pub set_behind :
    (pre : List ℕ) (d c : ℕ) (rest : List ℕ)
    → set (pre ++ d ∷ rest) (length pre) c ≡ pre ++ c ∷ rest
set_behind [] d c rest = refl
set_behind (p ∷ pre) d c rest = ap (λ l. p ∷ l) (set_behind pre d c rest)

pub store_behind :
    (pre : List ℕ) (d c : ℕ) (rest : List ℕ)
    → store (pre ++ d ∷ rest) (length pre) c ≡ ok (pre ++ c ∷ rest)
unfolding store
store_behind pre d c rest =
    let size = length-append pre (d ∷ rest) in
    let inside : ltb (length pre) (length (pre ++ d ∷ rest)) ≡ true = ground (arith, size) in
    rw (inside, set_behind pre d c rest) refl

pub snoc : (pre : List ℕ) (d : ℕ) (xs : List ℕ) → (pre ++ d ∷ []) ++ xs ≡ pre ++ d ∷ xs
snoc [] d xs = refl
snoc (p ∷ pre) d xs = ap (λ l. p ∷ l) (snoc pre d xs)

pub length-snoc : (pre : List ℕ) (d : ℕ) → length (pre ++ d ∷ []) ≡ length pre + 1
length-snoc pre d = omega (arith, length-append pre (d ∷ []))

get_behind :
    (pre : List ℕ) (d : ℕ) (rest : List ℕ) → get_elem? (pre ++ d ∷ rest) (length pre) ≡ some d
get_behind [] d rest = refl
get_behind (p ∷ pre) d rest = get_behind pre d rest

pub load_behind :
    (pre : List ℕ) (d : ℕ) (rest : List ℕ) → load (pre ++ d ∷ rest) (length pre) ≡ ok d
unfolding load
load_behind pre d rest = ground (arith, get_behind pre d rest)
