-- ===== src/Prelude/Ints.antt =====
-- The C `int` and `uint32_t` of the i386 target. A value is its 32-bit pattern, a number below
-- 2 ^ 32; sums and products are taken modulo 2 ^ 32, and signed tests read the pattern in two's
-- complement. `char` is signed: a byte is widened with its sign.
use Prim.Native.Nat.{ℕ, ◌+◌, ◌-◌, ◌*◌, ◌/◌, ◌%◌, ◌^◌, ◌≤◌, ◌<◌}
use mathlib.Core.Path.{◌≡◌}
use mathlib.Core.Bool.{Bool, true, false}
use native.Mathlib.Omega.{arith}
use kernel_play.Prelude.Tests.{ltb, leb, if◌then◌else◌}

abbrev pub word : ℕ → ℕ
word n = n % 2 ^ 32

infixl 65 ◌+w◌ ◌-w◌
infixl 70 ◌*w◌
abbrev pub ◌+w◌ : ℕ → ℕ → ℕ
a +w b = word (a + b)

abbrev pub ◌-w◌ : ℕ → ℕ → ℕ
a -w b = word (a + 2 ^ 32 - b)

abbrev pub ◌*w◌ : ℕ → ℕ → ℕ
a *w b = word (a * b)

-- The pattern of `-n`.
abbrev pub neg : ℕ → ℕ
neg n = word (2 ^ 32 - n)

abbrev pub is_negative : ℕ → Bool
is_negative a = leb (2 ^ 31) a

-- Signed order: the patterns with the sign bit turned round compare as the integers do.
abbrev pub int_lt : ℕ → ℕ → Bool
int_lt a b = ltb (a +w 2 ^ 31) (b +w 2 ^ 31)

abbrev pub int_le : ℕ → ℕ → Bool
int_le a b = leb (a +w 2 ^ 31) (b +w 2 ^ 31)

-- Division by a positive `int` rounds towards zero, and the remainder has the dividend's sign.
abbrev pub int_div : ℕ → ℕ → ℕ
int_div a d = if is_negative a then neg ((2 ^ 32 - a) / d) else a / d

abbrev pub int_mod : ℕ → ℕ → ℕ
int_mod a d = if is_negative a then neg ((2 ^ 32 - a) % d) else a % d

-- How often `for (int i = 0; i < n; i++)` runs.
abbrev pub rounds : ℕ → ℕ
rounds n = if is_negative n then 0 else n

-- A byte, as a signed `char` promoted to `int`.
abbrev pub char_int : ℕ → ℕ
char_int c = if leb 128 c then c + (2 ^ 32 - 256) else c

-- The low byte of an `int`, as stored in a `char`.
abbrev pub to_char : ℕ → ℕ
to_char n = n % 256

pub not_negative : (a : ℕ) → a < 2 ^ 31 → is_negative a ≡ false
not_negative a h = ground arith

pub negative : (a : ℕ) → 2 ^ 31 ≤ a → is_negative a ≡ true
negative a h = ground arith

pub word_small : (a : ℕ) → a < 2 ^ 32 → word a ≡ a
word_small a h = omega arith
