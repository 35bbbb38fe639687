-- ===== src/Prelude/Codes.antt =====
-- The bytes of the texts that the code writes as string literals.
use Prim.Native.Nat.{ℕ}
use Prim.Native.Char.{code}
use Prim.Native.String.{String}
use mathlib.Core.List.{List, [], ◌∷◌, ◌++◌}

abbrev pub codes : String → List ℕ
codes String.[] = []
codes (String.◌∷◌ c s) = code c ∷ codes s

-- With the terminator.
abbrev pub literal : String → List ℕ
literal s = codes s ++ 0 ∷ []
