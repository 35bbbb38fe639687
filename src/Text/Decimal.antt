-- ===== src/Text/Decimal.antt =====
-- itoa: the loop that takes the digits apart, and the number that is read back from the text.
use kernel_play.Prelude.{
  ℕ, zero, suc, ◌+◌, ◌-◌, ◌*◌, ◌/◌, ◌%◌, ◌^◌, ◌≤◌, ◌<◌, ◌≡◌, refl, sym, ap, ap₂, subst, ◌∙◌, List,
  [], ◌∷◌, ◌++◌, arith, true, length, drop, reverse, length-append, int_lt, int_div, int_mod,
  to_char, ◌+w◌,
}
use mathlib.Core.List.{reverse-cons}
use kernel_play.Prelude.Run.{ok}
use kernel_play.Text.{itoa, itoa_digits, reverse_from, store}
use kernel_play.Text.Reverse.{ends_of, reverse_ends}
use kernel_play.Text.Stores.{store_behind, snoc, length-snoc}

-- The number that a text of digits stands for, behind the digits that were read before.
abbrev pub read_from : ℕ → List ℕ → ℕ
read_from acc [] = acc
read_from acc (c ∷ s) = read_from (acc * 10 + (c - 48)) s

abbrev pub AllDigits : List ℕ → Type 0
AllDigits [] = Unit
AllDigits (c ∷ s) = (48 ≤ c) × (c ≤ 57) × AllDigits s

-- The digits from the last one on.
abbrev little : ℕ → ℕ → List ℕ
little zero i = []
little (suc n) zero = []
little (suc n) (suc i) = (suc i % 10 + 48) ∷ little n (suc i / 10)

-- A number of at most `n` digits.
abbrev HasDigits : ℕ → ℕ → Type 0
HasDigits zero i = i ≡ 0
HasDigits (suc n) i = HasDigits n (i / 10)

digits_zero : (n at : ℕ) (s : List ℕ) → itoa_digits (suc n) 0 s at ≡ ok (at, s)
unfolding itoa_digits
digits_zero n at s = refl

digits_step :
    (n i d : ℕ) (pre tail out : List ℕ) (end : ℕ)
    → 0 < i
    → i < 2 ^ 31
    → itoa_digits n
        (i / 10)
        ((pre ++ (i % 10 + 48) ∷ []) ++ tail)
        (length (pre ++ (i % 10 + 48) ∷ []))
      ≡ ok (end, out)
    → itoa_digits (suc n) i (pre ++ d ∷ tail) (length pre) ≡ ok (end, out)
unfolding itoa_digits
digits_step n i d pre tail out end some small rest =
    let c = i % 10 + 48 in
    let more : int_lt 0 i ≡ true = ground arith in
    let digit : to_char (int_mod i 10 +w 48) ≡ c = ground arith in
    let next : int_div i 10 ≡ i / 10 = ground arith in
    let stored = store_behind pre d c tail in
    let rest' : itoa_digits n (i / 10) (pre ++ c ∷ tail) (length pre + 1) ≡ ok (end, out) =
      rw (← snoc pre c tail) (rw (← length-snoc pre c) rest) in
    ground (arith, more, digit, next, stored, rest')

-- The loop stores the digits behind `pre`.
digits_lem :
    (n i : ℕ) (pre tail : List ℕ)
    → i < 2 ^ 31
    → HasDigits n i
    → length (little n i) ≤ length tail
    → itoa_digits (suc n) i (pre ++ tail) (length pre)
      ≡ ok
          (length pre + length (little n i), pre ++ (little n i ++ drop (length (little n i)) tail))
digits_lem zero i pre tail small few room =
    let at : length pre + 0 ≡ length pre = omega arith in
    rw (few, at) (digits_zero 0 (length pre) (pre ++ tail))
digits_lem (suc n) zero pre tail small few room =
    let at : length pre + 0 ≡ length pre = omega arith in
    rw at (digits_zero (suc n) (length pre) (pre ++ tail))
digits_lem (suc n) (suc i) pre [] small few room = absurd (omega arith)
digits_lem (suc n) (suc i) pre (d ∷ tail) small few room =
    let c = suc i % 10 + 48 in
    let later = digits_lem n (suc i / 10) (pre ++ c ∷ []) tail (omega arith) few (omega arith) in
    let k = length (little n (suc i / 10)) in
    digits_step (suc n) (suc i) d pre tail _ _ (omega arith) small later
    ∙ ap₂ (λ a b. ok (a, b)) (omega (arith, length-snoc pre c)) (snoc pre c _)

-- What the text of the digits reads back as.
read_from-append :
    (acc : ℕ) (xs ys : List ℕ) → read_from acc (xs ++ ys) ≡ read_from (read_from acc xs) ys
read_from-append acc [] ys = refl
read_from-append acc (c ∷ xs) ys = read_from-append (acc * 10 + (c - 48)) xs ys

read_from-little : (n i : ℕ) → HasDigits n i → read_from 0 (reverse (little n i)) ≡ i
read_from-little zero i few = sym few
read_from-little (suc n) zero few = refl
read_from-little (suc n) (suc i) few =
    let c = suc i % 10 + 48 in
    let front = reverse (little n (suc i / 10)) in
    let before = read_from-little n (suc i / 10) few in
    ap (read_from 0) (reverse-cons c (little n (suc i / 10)))
    ∙ read_from-append 0 front (c ∷ [])
    ∙ omega (arith, before)

AllDigits-append : (xs ys : List ℕ) → AllDigits xs → AllDigits ys → AllDigits (xs ++ ys)
AllDigits-append [] ys h k = k
AllDigits-append (c ∷ xs) ys h k = (h.0, h.1, AllDigits-append xs ys h.2 k)

little-AllDigits : (n i : ℕ) → AllDigits (reverse (little n i))
little-AllDigits zero i = tt
little-AllDigits (suc n) zero = tt
little-AllDigits (suc n) (suc i) =
    let c = suc i % 10 + 48 in
    subst AllDigits (sym (reverse-cons c (little n (suc i / 10)))) (
      AllDigits-append (reverse (little n (suc i / 10))) (c ∷ []) (little-AllDigits n (suc i / 10))
        (omega arith, omega arith, tt))

length-little : (n i : ℕ) → length (little n i) ≤ n
length-little zero i = omega arith
length-little (suc n) zero = omega arith
length-little (suc n) (suc i) = omega (arith, length-little n (suc i / 10))

length-reverse_native : (xs : List ℕ) → length (reverse xs) ≡ length xs
length-reverse_native [] = refl
length-reverse_native (x ∷ xs) =
    ap length (reverse-cons x xs)
    ∙ omega (arith, length-append (reverse xs) (x ∷ []), length-reverse_native xs)

drop_inside : (k : ℕ) (s : List ℕ) → k < length s → (d : ℕ) × (drop k s ≡ d ∷ drop (suc k) s)
drop_inside k [] h = absurd (omega arith)
drop_inside zero (c ∷ s) h = (c, refl)
drop_inside (suc k) (c ∷ s) h = drop_inside k s (omega arith)

little_some : (n i : ℕ) → 0 < i → 0 < length (little (suc n) i)
little_some n zero h = absurd (omega arith)
little_some n (suc i) h = omega arith

-- `itoa` of a positive `int` ends for a buffer of eleven bytes or more: it leaves one to ten digits
-- and the terminator at the start of the buffer, with the rest as it was, and the digits read back
-- as the number.
pub itoa-read_from :
    (i : ℕ) (s : List ℕ)
    → 0 < i
    → i < 2 ^ 31
    → 11 ≤ length s
    → (digits : List ℕ) × (itoa i s ≡ ok (digits ++ 0 ∷ drop (suc (length digits)) s))
      × AllDigits digits
      × (0 < length digits)
      × (length digits ≤ 10)
      × (read_from 0 digits ≡ i)
unfolding itoa
itoa-read_from i s some small room =
    let ds = little 10 i in
    let few : HasDigits 10 i = omega arith in
    let short = length-little 10 i in
    let size = length-reverse_native ds in
    let stored = digits_lem 10 i [] s small few (omega (arith, short)) in
    let k : 0 + length ds ≡ length (reverse ds) = omega (arith, size) in
    let (d, behind) = drop_inside (length ds) s (omega (arith, short)) in
    let turned = reverse_ends (length ds) [] ds (drop (length ds) s) (omega arith) (ends_of ds) in
    let fuel : suc (length ds) ≡ length (reverse ds) + 1 = omega (arith, size) in
    let stored' : itoa_digits 11 i s 0 ≡ ok (length (reverse ds), ds ++ drop (length ds) s) =
      rw (← k) stored in
    let turned' : reverse_from (length (reverse ds) + 1) (ds ++ drop (length ds) s) 0
          (length (reverse ds))
        ≡ ok (reverse ds ++ d ∷ drop (suc (length ds)) s) =
      (rw (← fuel, ← k) turned) ∙ ap (λ l. ok (reverse ds ++ l)) behind in
    let ended = store_behind (reverse ds) d 0 (drop (suc (length ds)) s) in
    (
      reverse ds,
      ground (arith, stored', turned', ended, size),
      little-AllDigits 10 i,
      omega (arith, size, little_some 9 i some),
      omega (arith, size, short),
      read_from-little 10 i few,
    )

-- `itoa` of 0 leaves the empty text.
pub itoa-zero : (c : ℕ) (s : List ℕ) → itoa 0 (c ∷ s) ≡ ok (0 ∷ s)
unfolding itoa itoa_digits reverse_from store
itoa-zero c s = ground arith
