-- ===== src/PathParser/Parts.antt =====
-- The parts of a path: the names between its separators, where `pparser_parse_path_parts` splits it.
use kernel_play.Prelude.{ℕ, ◌≡◌, ◌≢◌, ◌<◌, List, [], ◌∷◌, ◌++◌, arith, length, true, ◌==◌, ◌||◌}
use kernel_play.Prelude.Run.{ok}
use kernel_play.PathParser.{split_name}

-- A name that can stand between separators.
abbrev pub IsName : List ℕ → Type 0
IsName [] = Unit
IsName (c ∷ s) = (c ≢ 0) × (c ≢ b'/') × IsName s

-- Names joined by separators, with the terminator and what stands behind it.
abbrev pub joined : List ℕ → List (List ℕ) → List ℕ → List ℕ
joined name [] rest = name ++ 0 ∷ rest
joined name (next ∷ names) rest = name ++ b'/' ∷ joined next names rest

abbrev pub AllNames : List (List ℕ) → Type 0
AllNames [] = Unit
AllNames (n ∷ ns) = IsName n × AllNames ns

-- The walk stops at the first separator or terminator.
pub split_name_lem :
    (name : List ℕ) (c : ℕ) (p : List ℕ)
    → IsName name
    → ((c == b'/') || (c == 0)) ≡ true
    → split_name (name ++ c ∷ p) ≡ ok (name, c ∷ p)
unfolding split_name
split_name_lem [] c p h stop = rw stop
split_name_lem (x ∷ name) c p h stop = ground (arith, split_name_lem name c p h.2 stop)

abbrev pub AllShort : List (List ℕ) → Type 0
AllShort [] = Unit
AllShort (n ∷ ns) = (length n < 257) × AllShort ns
