-- ===== src/Text/Reverse.antt =====
-- reverse of string.c: the loop swaps the ends of a stretch until they meet.
use kernel_play.Prelude.{
  ℕ, zero, suc, ◌+◌, ◌-◌, ◌≤◌, ◌<◌, ◌≡◌, sym, ap, ◌∙◌, List, [], ◌∷◌, ◌++◌, arith, true, false,
  length, reverse, length-append, ltb,
}
use mathlib.Core.List.{append_assoc, reverse-cons, reverse-append}
use kernel_play.Prelude.Run.{ok}
use kernel_play.Text.{reverse_from, store, load}
use kernel_play.Text.Stores.{store_behind, load_behind, snoc, length-snoc}

-- A stretch of two or more characters has a first one and a last one.
pub data EndsOf : List ℕ → Type 0 where
  empty : EndsOf []
  single : (c : ℕ) → EndsOf (c ∷ [])
  both : (c d : ℕ) (inner : List ℕ) → EndsOf (c ∷ (inner ++ d ∷ []))

pub ends_of : (xs : List ℕ) → EndsOf xs
ends_of [] = empty
ends_of (c ∷ []) = single c
ends_of (c ∷ d ∷ xs) = add c (d ∷ xs) (omega arith) (ends_of (d ∷ xs))
  where
    add : (c : ℕ) (ys : List ℕ) → 0 < length ys → EndsOf ys → EndsOf (c ∷ ys)
    add c _ some empty = absurd (omega arith)
    add c _ some (single e) = both c e []
    add c _ some (both e f inner) = both c f (e ∷ inner)

-- A round of the reversal swaps the two ends of a stretch.
swap_ends :
    (fuel c d : ℕ) (pre inner post out : List ℕ)
    → reverse_from fuel
        (pre ++ d ∷ (inner ++ c ∷ post))
        (length pre + 1)
        (length pre + 1 + length inner)
      ≡ ok out
    → reverse_from
        (suc fuel)
        (pre ++ c ∷ (inner ++ d ∷ post))
        (length pre)
        (length pre + length inner + 2)
      ≡ ok out
unfolding reverse_from
swap_ends fuel c d pre inner post out rest =
    let more : ltb (length pre + 1) (length pre + length inner + 2) ≡ true = ground arith in
    let at : length pre + length inner + 2 - 1 ≡ length (pre ++ c ∷ inner) =
      omega (arith, length-append pre (c ∷ inner)) in
    let same : length (pre ++ d ∷ inner) ≡ length (pre ++ c ∷ inner) =
      omega (arith, length-append pre (c ∷ inner), length-append pre (d ∷ inner)) in
    let split : (e f : ℕ) → pre ++ e ∷ (inner ++ f ∷ post) ≡ (pre ++ e ∷ inner) ++ f ∷ post =
      λ e f. sym (append_assoc pre (e ∷ inner) (f ∷ post)) in
    let first = load_behind pre c (inner ++ d ∷ post) in
    let last : load (pre ++ c ∷ (inner ++ d ∷ post)) (length pre + length inner + 2 - 1) ≡ ok d =
      rw (at, split c d) (load_behind (pre ++ c ∷ inner) d post) in
    let low = store_behind pre c d (inner ++ d ∷ post) in
    let high : store (pre ++ d ∷ (inner ++ d ∷ post)) (length pre + length inner + 2 - 1) c
        ≡ ok (pre ++ d ∷ (inner ++ c ∷ post)) =
      rw (at, split d d, split d c, ← same) (store_behind (pre ++ d ∷ inner) d c post) in
    let end : length pre + length inner + 2 - 1 ≡ length pre + 1 + length inner = omega arith in
    let rest' : reverse_from fuel (pre ++ d ∷ (inner ++ c ∷ post)) (length pre + 1)
          (length pre + length inner + 2 - 1)
        ≡ ok out =
      rw end rest in
    ground (arith, more, first, last, low, high, rest')

reversed_both :
    (c d : ℕ) (pre inner post : List ℕ)
    → (pre ++ d ∷ []) ++ (reverse inner ++ c ∷ post)
      ≡ pre ++ (reverse (c ∷ (inner ++ d ∷ [])) ++ post)
reversed_both c d pre inner post =
    let turned : reverse (c ∷ (inner ++ d ∷ [])) ≡ d ∷ (reverse inner ++ c ∷ []) =
      reverse-cons c (inner ++ d ∷ []) ∙ ap (λ l. l ++ c ∷ []) (reverse-append inner (d ∷ [])) in
    snoc pre d (reverse inner ++ c ∷ post)
    ∙ ap (λ l. pre ++ d ∷ l) (sym (append_assoc (reverse inner) (c ∷ []) post))
    ∙ ap (λ l. pre ++ (l ++ post)) (sym turned)

-- The loop reverses the stretch between its two offsets, and ends.
pub reverse_ends :
    (fuel : ℕ) (pre mid post : List ℕ)
    → length mid ≤ fuel
    → EndsOf mid
    → reverse_from (suc fuel) (pre ++ (mid ++ post)) (length pre) (length pre + length mid)
      ≡ ok (pre ++ (reverse mid ++ post))
unfolding reverse_from
reverse_ends fuel pre _ post fits empty =
    let done : ltb (length pre + 1) (length pre + 0) ≡ false = ground arith in ground (arith, done)
reverse_ends fuel pre _ post fits (single c) =
    let done : ltb (length pre + 1) (length pre + 1) ≡ false = ground arith in ground (arith, done)
reverse_ends zero pre _ post fits (both c d inner) = absurd (omega arith)
reverse_ends (suc fuel) pre _ post fits (both c d inner) =
    let size = length-append inner (d ∷ []) in
    let later =
      reverse_ends fuel (pre ++ d ∷ []) inner (c ∷ post) (omega (arith, size)) (ends_of inner) in
    let at : length (pre ++ d ∷ []) ≡ length pre + 1 = length-snoc pre d in
    let end : length pre + suc (length (inner ++ d ∷ [])) ≡ length pre + length inner + 2 =
      omega (arith, size) in
    let inside : (inner ++ d ∷ []) ++ post ≡ inner ++ d ∷ post = append_assoc inner (d ∷ []) post in
    let later' : reverse_from (suc fuel) (pre ++ d ∷ (inner ++ c ∷ post)) (length pre + 1)
          (length pre + 1 + length inner)
        ≡ ok ((pre ++ d ∷ []) ++ (reverse inner ++ c ∷ post)) =
      rw (← snoc pre d (inner ++ c ∷ post), ← at) later in
    rw (end, inside, swap_ends (suc fuel) c d pre inner post _ later')
      (ap ok (reversed_both c d pre inner post))
