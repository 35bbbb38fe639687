-- ===== src/Prelude/Bits.antt =====
-- Laws of `bit_and` and `bit_or` at variables: masks of low ones, and tables over a byte.
use Prim.Native.Nat.{
  ℕ, zero, suc, ◌+◌, ◌*◌, ◌/◌, ◌%◌, ◌≤◌, ◌<◌, min, max, bit_and, bit_or, digits, bit_and-bitwise,
  bit_or-bitwise, ◌^◌,
}
use mathlib.Core.Path.{◌≡◌, refl, sym, ap, ap₂, ◌∙◌}
use mathlib.Core.Bool.{Bool, true, ◌&&◌}
use native.Mathlib.Nat.{pow-suc}
use native.Mathlib.Omega.{arith}

-- A test that every number below a bound passes.
abbrev pub every : (ℕ → Bool) → ℕ → Bool
every test zero = true
every test (suc bound) = every test bound && test bound

pub every-at : (test : ℕ → Bool) (bound i : ℕ) → every test bound ≡ true → i < bound → test i ≡ true
every-at test zero i all inside = absurd (omega arith)
every-at test (suc bound) i all inside = ground (arith, every-at test bound i)

-- The digits do not depend on the fuel where it reaches the first number.
module _ (empty : ℕ → ℕ) (digit : ℕ → ℕ → ℕ) where
  digits_zero : (fuel y : ℕ) → digits empty digit fuel 0 y ≡ empty y
  digits_zero zero y = refl
  digits_zero (suc fuel) y = refl

  digits_steady :
      (more less x y : ℕ)
      → x ≤ more
      → x ≤ less
      → digits empty digit more x y ≡ digits empty digit less x y
  digits_steady more less zero y _ _ = digits_zero more y ∙ sym (digits_zero less y)
  digits_steady zero less (suc x) y le le' = absurd (omega arith)
  digits_steady (suc more) zero (suc x) y le le' = absurd (omega arith)
  digits_steady (suc more) (suc less) (suc x) y le le' =
      let inner = digits_steady more less (suc x / 2) (y / 2) (omega arith) (omega arith) in
      omega (arith, inner)

zero-bit_and : (y : ℕ) → bit_and 0 y ≡ 0
zero-bit_and = bit_and-bitwise 0

-- The lowest digit of a conjunction.
pub bit_and_step : (x y : ℕ) → bit_and x y ≡ bit_and (x / 2) (y / 2) * 2 + min (x % 2) (y % 2)
bit_and_step zero y = omega (arith, zero-bit_and y, zero-bit_and (y / 2))
bit_and_step (suc x) y =
    let whole = bit_and-bitwise (suc x) y in
    let half = bit_and-bitwise (suc x / 2) (y / 2) in
    let enough =
      digits_steady (λ _. zero) min x (suc x / 2) (suc x / 2) (y / 2) (omega arith) (omega arith) in
    omega (arith, whole, half, enough)

-- A law of all numbers follows from its step from half a number.
from_half :
    (P : ℕ → Type 0) → P 0 → ((x : ℕ) → P (suc x / 2) → P (suc x)) → (fuel x : ℕ) → x ≤ fuel → P x
from_half P base step fuel zero le = base
from_half P base step zero (suc x) le = absurd (omega arith)
from_half P base step (suc fuel) (suc x) le =
    step x (from_half P base step fuel (suc x / 2) (omega arith))

pub bit_and-zero : (a : ℕ) → bit_and a 0 ≡ 0
bit_and-zero a =
    from_half (λ x. bit_and x 0 ≡ 0) refl (λ x half. omega (arith, bit_and_step (suc x) 0, half)) a
      a (omega arith)

pub bit_and-one : (word : ℕ) → bit_and word 1 ≡ word % 2
bit_and-one word = let upper = bit_and-zero (word / 2) in omega (arith, bit_and_step word 1, upper)

-- `1 & x`, the test of the lowest bit as heap.c writes it.
pub one-bit_and : (a : ℕ) → bit_and 1 a ≡ a % 2
one-bit_and a = omega (arith, bit_and_step 1 a, zero-bit_and (a / 2))

bit_and_odd : (a m : ℕ) → bit_and a (m * 2 + 1) ≡ bit_and (a / 2) m * 2 + a % 2
bit_and_odd a m =
    let half : (m * 2 + 1) / 2 ≡ m = omega arith in
    let low : min (a % 2) ((m * 2 + 1) % 2) ≡ a % 2 = omega arith in
    bit_and_step a (m * 2 + 1) ∙ ap₂ (λ x y. bit_and (a / 2) x * 2 + y) half low

abbrev four_ones : ℕ → ℕ
four_ones m = (((m * 2 + 1) * 2 + 1) * 2 + 1) * 2 + 1

-- A mask of four more ones.
mask_step : (a m : ℕ) → bit_and a (four_ones m) ≡ bit_and (a / 2 / 2 / 2 / 2) m * 16 + a % 16
mask_step a m = omega (
  arith,
  bit_and_odd a (((m * 2 + 1) * 2 + 1) * 2 + 1),
  bit_and_odd (a / 2) ((m * 2 + 1) * 2 + 1),
  bit_and_odd (a / 2 / 2) (m * 2 + 1),
  bit_and_odd (a / 2 / 2 / 2) m,
)

pub bit_and_nibble : (a : ℕ) → bit_and a 0xF ≡ a % 16
bit_and_nibble a = omega (arith, mask_step a 0, bit_and-zero (a / 2 / 2 / 2 / 2))

pub bit_and_byte : (a : ℕ) → bit_and a 0xFF ≡ a % 256
bit_and_byte a = omega (arith, mask_step a 0xF, bit_and_nibble (a / 2 / 2 / 2 / 2))

pub bit_and_page : (a : ℕ) → bit_and a 0xFFF ≡ a % 4096
bit_and_page a = omega (arith, mask_step a 0xFF, bit_and_byte (a / 2 / 2 / 2 / 2))

pub bit_and_half : (a : ℕ) → bit_and a 0xFFFF ≡ a % 65536
bit_and_half a = omega (arith, mask_step a 0xFFF, bit_and_page (a / 2 / 2 / 2 / 2))

pub zero-bit_or : (y : ℕ) → bit_or 0 y ≡ y
zero-bit_or = bit_or-bitwise 0

-- The lowest digit of a disjunction.
pub bit_or_step : (x y : ℕ) → bit_or x y ≡ bit_or (x / 2) (y / 2) * 2 + max (x % 2) (y % 2)
bit_or_step zero y = omega (arith, zero-bit_or y, zero-bit_or (y / 2))
bit_or_step (suc x) y =
    let whole = bit_or-bitwise (suc x) y in
    let half = bit_or-bitwise (suc x / 2) (y / 2) in
    let enough =
      digits_steady (λ z. z) max x (suc x / 2) (suc x / 2) (y / 2) (omega arith) (omega arith) in
    omega (arith, whole, half, enough)

pub bit_or-zero : (a : ℕ) → bit_or a 0 ≡ a
bit_or-zero a =
    from_half (λ x. bit_or x 0 ≡ x) refl (λ x half. omega (arith, bit_or_step (suc x) 0, half)) a a
      (omega arith)

-- Two numbers with no digit in common: the first is a multiple of `2 ^ k`, the second is smaller.
pub bit_or-disjoint : (k a b : ℕ) → b < 2 ^ k → bit_or (a * 2 ^ k) b ≡ a * 2 ^ k + b
bit_or-disjoint zero a b h =
    let e : b ≡ 0 = omega arith in rw e (omega (arith, bit_or-zero (a * 2 ^ 0)))
bit_or-disjoint (suc k) a b h =
    let p : 2 ^ suc k ≡ 2 ^ k * 2 = omega (arith, pow-suc 2 k) in
    let half : a * 2 ^ suc k / 2 ≡ a * 2 ^ k = rw p (omega arith) in
    let even : a * 2 ^ suc k % 2 ≡ 0 = rw p (omega arith) in
    let small : b / 2 < 2 ^ k = omega (arith, p) in
    let inner : bit_or (a * 2 ^ suc k / 2) (b / 2) ≡ a * 2 ^ k + b / 2 =
      ap (λ x. bit_or x (b / 2)) half ∙ bit_or-disjoint k a (b / 2) small in
    omega (arith, bit_or_step (a * 2 ^ suc k) b, inner, half, even)

bit_and_even : (a m : ℕ) → bit_and a (m * 2) ≡ bit_and (a / 2) m * 2
bit_and_even a m =
    let half : m * 2 / 2 ≡ m = omega arith in
    let low : min (a % 2) (m * 2 % 2) ≡ 0 = omega arith in
    bit_and_step a (m * 2) ∙ ap₂ (λ x y. bit_and (a / 2) x * 2 + y) half low ∙ omega arith

four_zeros : (a m : ℕ) → bit_and a (m * 2 * 2 * 2 * 2) ≡ bit_and (a / 2 / 2 / 2 / 2) m * 16
four_zeros a m = omega (
  arith,
  bit_and_even a (m * 2 * 2 * 2),
  bit_and_even (a / 2) (m * 2 * 2),
  bit_and_even (a / 2 / 2) (m * 2),
  bit_and_even (a / 2 / 2 / 2) m,
)

-- The mask of the upper 20 bits of a word rounds down to a page.
pub bit_and-upper : (a : ℕ) → a < 2 ^ 32 → bit_and a 0xFFFFF000 ≡ a / 4096 * 4096
bit_and-upper a h =
    let b = a / 2 / 2 / 2 / 2 in
    let c = b / 2 / 2 / 2 / 2 in
    let d = c / 2 / 2 / 2 / 2 in
    omega (
      arith,
      four_zeros a 0xFFFFF00,
      four_zeros b 0xFFFFF0,
      four_zeros c 0xFFFFF,
      mask_step d 0xFFFF,
      bit_and_half (d / 2 / 2 / 2 / 2),
    )
