-- ===== src/Text.antt =====
-- string/string.c. A `const char*` is the list of the bytes from the pointer to the end of its
-- object, and a read or write past that end is a fault. `char` is signed.
pub mod Length
pub mod Compare
pub mod Stores
pub mod Reverse
pub mod Decimal
use kernel_play.Prelude.{
  ℕ, zero, suc, ◌+◌, ◌-◌, ◌*◌, ◌/◌, ◌%◌, ◌<◌, Bool, true, false, ◌&&◌, ◌||◌, not, List, [], ◌∷◌,
  Option, none, some, if◌then◌else◌, ◌==◌, ltb, int_le, int_lt, char_int, to_char, ◌+w◌, ◌-w◌,
  int_div, int_mod, neg, rounds, get_elem?, set, length,
}
use kernel_play.Prelude.Run.{Run, ok, fault, out_of_fuel, ◌>>=◌}

-- `while (s[i] != '\0') i++`.
unfoldable pub strlen : List ℕ → Run ℕ
strlen [] = fault
strlen (c ∷ s) = if c == 0 then ok 0 else do n ← strlen s; ok (n + 1)

unfoldable pub strlen_terminator : List ℕ → ℕ → Run ℕ
strlen_terminator [] terminator = fault
strlen_terminator (c ∷ s) terminator =
    if (c == 0) || (c == terminator)
    then ok 0
    else do n ← strlen_terminator s terminator; ok (n + 1)

-- The offset in `dst` that the returned pointer has, and the bytes of `dst` afterwards. The two
-- objects do not overlap.
unfoldable pub strcpy : List ℕ → List ℕ → Run (ℕ × List ℕ)
strcpy dst [] = fault
strcpy [] (c ∷ src) = fault
strcpy (d ∷ dst) (c ∷ src) =
    if c == 0 then ok (0, 0 ∷ dst) else do (end, copied) ← strcpy dst src; ok (end + 1, c ∷ copied)

-- The sign that the comparisons return for two different characters.
unfoldable pub order_of : ℕ → ℕ → ℕ
order_of a b = if int_lt 0 (char_int a -w char_int b) then 1 else neg 1

-- The rounds of the loop in `strncmp`.
unfoldable pub strncmp_from : List ℕ → List ℕ → ℕ → Run ℕ
strncmp_from lhs rhs zero = ok 0
strncmp_from [] rhs (suc n) = fault
strncmp_from (a ∷ lhs) [] (suc n) = fault
strncmp_from (a ∷ lhs) (b ∷ rhs) (suc n) =
    if not (a == b) then ok (order_of a b) else if a == 0 then ok 0 else strncmp_from lhs rhs n

unfoldable pub strncmp : List ℕ → List ℕ → ℕ → Run ℕ
strncmp lhs rhs len = strncmp_from lhs rhs (rounds len)

unfoldable pub tolower : ℕ → ℕ
tolower c =
    if int_le b'A' (char_int c) && int_le (char_int c) b'Z' then to_char (char_int c +w 32) else c

unfoldable pub toupper : ℕ → ℕ
toupper c =
    if int_le b'a' (char_int c) && int_le (char_int c) b'c' then to_char (char_int c -w 32) else c

unfoldable pub istrncmp_from : List ℕ → List ℕ → ℕ → Run ℕ
istrncmp_from lhs rhs zero = ok 0
istrncmp_from [] rhs (suc n) = fault
istrncmp_from (a ∷ lhs) [] (suc n) = fault
istrncmp_from (a ∷ lhs) (b ∷ rhs) (suc n) =
    if not (a == b) && not (tolower a == tolower b)
    then ok (order_of a b)
    else if a == 0
    then ok 0
    else istrncmp_from lhs rhs n

unfoldable pub istrncmp : List ℕ → List ℕ → ℕ → Run ℕ
istrncmp lhs rhs len = istrncmp_from lhs rhs (rounds len)

unfoldable pub char_to_numeric : ℕ → ℕ
char_to_numeric c = char_int c -w 48

unfoldable pub is_digit : ℕ → Bool
is_digit c = int_le b'0' (char_int c) && int_le (char_int c) b'9'

-- A store into an object.
unfoldable pub store : List ℕ → ℕ → ℕ → Run (List ℕ)
store s i v = if ltb i (length s) then ok (set s i v) else fault

unfoldable pub load : List ℕ → ℕ → Run ℕ
load s i = elim (get_elem? s i) [ none ↦ fault | some c ↦ ok c ]

-- The loop of `reverse` on fuel. The end pointer is given by the offset one past it, since it
-- stands before the object when there is nothing to reverse.
unfoldable pub reverse_from : ℕ → List ℕ → ℕ → ℕ → Run (List ℕ)
reverse_from zero s b e = out_of_fuel
reverse_from (suc fuel) s b e = elim (ltb (b + 1) e) [
  | false ↦ ok s
  | true ↦ do
    tmp ← load s b
    last ← load s (e - 1)
    s' ← store s b last
    s'' ← store s' (e - 1) tmp
    reverse_from fuel s'' (b + 1) (e - 1)
]

-- The first loop of `itoa` on fuel: the digits from `at` on, the last one first. It gives the
-- offset behind them.
unfoldable pub itoa_digits : ℕ → ℕ → List ℕ → ℕ → Run (ℕ × List ℕ)
itoa_digits zero i s at = out_of_fuel
itoa_digits (suc fuel) i s at = elim (int_lt 0 i) [
  | false ↦ ok (at, s)
  | true ↦ do
    s' ← store s at (to_char (int_mod i 10 +w 48))
    itoa_digits fuel (int_div i 10) s' (at + 1)
]

-- An `int` has ten digits at most.
unfoldable pub itoa : ℕ → List ℕ → Run (List ℕ)
itoa i s = do
  (end, digits) ← itoa_digits 11 i s 0
  reversed ← reverse_from (end + 1) digits 0 end
  store reversed end 0
