-- ===== src/PathParser/Roots.antt =====
-- Whole paths: the drive number, the start ":/" and the parts.
use kernel_play.Prelude.{
  ℕ, ◌+◌, ◌≡◌, ◌<◌, refl, ap, ◌∙◌, sym, List, [], ◌∷◌, ◌++◌, arith, length, true, ◌==◌, ◌||◌, ◌&&◌,
  if◌then◌else◌, ltb, int_lt, word, length-append,
}
use mathlib.Core.List.{append_assoc}
use kernel_play.Prelude.Run.{ok}
use kernel_play.Config.{einvarg}
use kernel_play.Memory.{Memory, memcmp}
use kernel_play.Heap.{Heap}
use kernel_play.Text.{strlen, is_digit, char_to_numeric, load}
use kernel_play.Text.Length.{NoNul, c_string, strlen_lem}
use kernel_play.PathParser.{PathRoot, parse_drive_no, validate_start_of_path, parse_path_root}
use kernel_play.PathParser.Parts.{IsName, AllNames, AllShort, joined}

-- What `validate_start_of_path` accepts of ASCII characters: it refuses a start that is greater
-- than ":/", and accepts one that is smaller as well as ":/" itself.
pub validate_start_lem :
    (a b : ℕ) (p : List ℕ)
    → a < 128
    → b < 128
    → validate_start_of_path (a ∷ b ∷ p)
      ≡ (if ltb b':' a || (a == b':') && ltb b'/' b then ok (einvarg, a ∷ b ∷ p) else ok (0, p))
unfolding validate_start_of_path memcmp
validate_start_lem a b p ha hb = ground arith

-- A drive number other than a digit is refused, and a digit stands for itself.
pub parse_drive_no_lem :
    (d : ℕ) (p : List ℕ) → d < 10 → parse_drive_no ((d + 48) ∷ p) ≡ ok (0, d, p)
unfolding parse_drive_no load is_digit char_to_numeric
parse_drive_no_lem d p h = ground arith

-- The text of the parts, without a terminator.
abbrev pub parts_text : List ℕ → List (List ℕ) → List ℕ
parts_text name [] = name
parts_text name (next ∷ names) = name ++ b'/' ∷ parts_text next names

joined-text :
    (name : List ℕ) (names : List (List ℕ)) (rest : List ℕ)
    → joined name names rest ≡ c_string (parts_text name names) rest
joined-text name [] rest = refl
joined-text name (next ∷ names) rest =
    ap (λ l. name ++ b'/' ∷ l) (joined-text next names rest)
    ∙ sym (append_assoc name (b'/' ∷ parts_text next names) (0 ∷ rest))

NoNul-name : (name t : List ℕ) → IsName name → NoNul t → NoNul (name ++ t)
NoNul-name [] t h k = k
NoNul-name (c ∷ name) t h k = (h.0, NoNul-name name t h.2 k)

pub NoNul-parts :
    (name : List ℕ) (names : List (List ℕ))
    → AllNames (name ∷ names)
    → NoNul (parts_text name names)
NoNul-parts [] [] h = tt
NoNul-parts (c ∷ name) [] h = (h.0.0, NoNul-parts name [] (h.0.2, tt))
NoNul-parts name (next ∷ names) h =
    NoNul-name name (b'/' ∷ parts_text next names) h.0 (omega arith, NoNul-parts next names h.1)

pub AllShort-parts :
    (name : List ℕ) (names : List (List ℕ))
    → length (parts_text name names) < 257
    → AllShort (name ∷ names)
AllShort-parts name [] h = (h, tt)
AllShort-parts name (next ∷ names) h =
    let split = length-append name (b'/' ∷ parts_text next names) in
    (omega (arith, split), AllShort-parts next names (omega (arith, split)))

pub enough_fuel :
    (name : List ℕ) (names : List (List ℕ)) (rest : List ℕ)
    → length names < length (joined name names rest)
enough_fuel name [] rest = omega (arith, length-append name (0 ∷ rest))
enough_fuel name (next ∷ names) rest =
    omega (arith, length-append name (b'/' ∷ joined next names rest), enough_fuel next names rest)

-- The whole path for a drive and names, with its terminator and what stands behind it.
abbrev pub path_of : ℕ → List ℕ → List (List ℕ) → List ℕ → List ℕ
path_of d name names rest = (d + 48) ∷ b':' ∷ b'/' ∷ joined name names rest

pub strlen-path :
    (d : ℕ) (name : List ℕ) (names : List (List ℕ)) (rest : List ℕ)
    → AllNames (name ∷ names)
    → strlen (path_of d name names rest) ≡ ok (length (parts_text name names) + 3)
strlen-path d name names rest h =
    let text = parts_text name names in
    let whole = (d + 48) ∷ b':' ∷ b'/' ∷ text in
    let clean : NoNul whole =
      (omega arith, (omega arith, (omega arith, NoNul-parts name names h))) in
    let size : length whole ≡ length text + 3 = omega arith in
    ap (λ l. strlen ((d + 48) ∷ b':' ∷ b'/' ∷ l)) (joined-text name names rest)
    ∙ strlen_lem whole rest clean
    ∙ ap ok size

-- A path of more than 256 characters is refused, and nothing is allocated.
pub parse_path_root-too_long :
    (heap : Heap) (m : Memory) (root : PathRoot) (s rest : List ℕ)
    → NoNul s
    → 256 < length s
    → length s < 2147483648
    → parse_path_root heap m (c_string s rest) root ≡ ok (einvarg, root, m)
unfolding parse_path_root
parse_path_root-too_long heap m root s rest clean long small =
    let len = strlen_lem s rest clean in
    let over : int_lt 256 (word (length s)) ≡ true = ground arith in ground (arith, len, over)
