-- ===== src/Kernel/Count.antt =====
-- What count_and_print puts on the screen.
use kernel_play.Prelude.{
  ℕ, ◌+◌, ◌≡◌, subst, ◌≤◌, ◌<◌, ◌^◌, refl, sym, ap, ◌∙◌, suc, List, [], ◌∷◌, ◌++◌, arith, length,
  drop,
}
use mathlib.Core.List.{append_assoc}
use kernel_play.Prelude.Run.{Run, ok}
use kernel_play.Prelude.Codes.{codes, literal}
use kernel_play.Text.Length.{NoNul, c_string, strlen_lem}
use kernel_play.Text.Decimal.{AllDigits, read_from, itoa-read_from}
use kernel_play.Terminal.{Terminal, print_char, print_string}
use kernel_play.Terminal.Print.{IsOnLine, IsPlain, printed, print_string_lem}
use kernel_play.Kernel.Demos.{count_and_print}

abbrev pub announcement : List ℕ
announcement = codes "Total bytes read from file: "

ok_injective {ℓ} : {A : Type ℓ} (a b : A) → ok a ≡ ok b → a ≡ b
ok_injective a b e = cc e

-- Two texts one after the other print as one.
print_string-append :
    (a b : List ℕ) (t u : Terminal) (run : Run Terminal)
    → IsPlain a
    → print_string t (a ++ 0 ∷ []) ≡ ok u
    → print_string u b ≡ run
    → print_string t (a ++ b) ≡ run
unfolding print_string
print_string-append [] b t u run plain first second = let same : t ≡ u = cc first in rw same second
print_string-append (c ∷ a) b t u run plain first second =
    let rest : print_string (print_char t c) (a ++ 0 ∷ []) ≡ ok u =
      ground (arith, plain.0, first) in
    let later = print_string-append a b (print_char t c) u run plain.3 rest second in
    ground (arith, plain.0, later)

IsPlain-append : (a b : List ℕ) → IsPlain a → IsPlain b → IsPlain (a ++ b)
IsPlain-append [] b h k = k
IsPlain-append (c ∷ a) b h k = (h.0, h.1, h.2, IsPlain-append a b h.3 k)

IsPlain-digits : (s : List ℕ) → AllDigits s → IsPlain s
IsPlain-digits [] h = tt
IsPlain-digits (c ∷ s) h =
    (omega (arith, h.0), omega (arith, h.0), omega (arith, h.0), IsPlain-digits s h.2)

same_end :
    (t t1 t2 : Terminal) (a b c : List ℕ)
    → IsPlain a
    → a ++ b ≡ c
    → print_string t (a ++ 0 ∷ []) ≡ ok t1
    → print_string t1 b ≡ ok t2
    → (u : Terminal) → print_string t c ≡ ok u
    → u ≡ t2
same_end t t1 t2 a b c plain joined first second u whole = ok_injective u t2 (
    sym whole
    ∙ ap (print_string t) (sym joined)
    ∙ print_string-append a b t t1 (ok t2) plain first second)

-- The cells behind two prints are those of the texts one after the other.
print_two :
    (a b behind : List ℕ) (t : Terminal)
    → IsOnLine t
    → IsPlain a
    → IsPlain b
    → (t1 : Terminal) × (t2 : Terminal) × (print_string t (a ++ 0 ∷ []) ≡ ok t1)
      × (print_string t1 (b ++ 0 ∷ behind) ≡ ok t2)
      × ((j : ℕ) → t2.video_mem j ≡ printed t (a ++ b) j)
print_two a b behind t on pa pb =
    let (t1, first, _, on1, _) = print_string_lem a [] t on pa in
    let (t2, second, _, _, _) = print_string_lem b behind t1 on1 pb in
    let (t3, third, _, _, cells) =
      print_string_lem (a ++ b) behind t on (IsPlain-append a b pa pb) in
    let same =
      same_end t t1 t2 a (b ++ 0 ∷ behind) ((a ++ b) ++ 0 ∷ behind) pa
        (sym (append_assoc a b (0 ∷ behind))) first second t3 third in
    (
      t1,
      t2,
      first,
      second,
      subst (λ (x : Terminal). (j : ℕ) → x.video_mem j ≡ printed t (a ++ b) j) same cells,
    )

-- A line feed only moves the cursor.
new_line :
    (t : Terminal) → print_string t (literal "\n") ≡ ok (record t { row = t.row + 1; col = 0 })
unfolding print_string print_char
new_line t = refl

-- For a text that is not empty, `count_and_print` ends: it puts the announcement and then the
-- digits of the text's length into consecutive cells from the cursor on, changes no other cell, and
-- leaves the cursor at the start of a line.
pub count_and_print_lem :
    (stack text rest : List ℕ) (t : Terminal)
    → IsOnLine t
    → NoNul text
    → 0 < length text
    → length text < 2 ^ 31
    → 11 ≤ length stack
    → (digits : List ℕ) × (t' : Terminal) × (count_and_print stack t (c_string text rest) ≡ ok t')
      × AllDigits digits
      × (read_from 0 digits ≡ length text)
      × (t'.col ≡ 0)
      × ((j : ℕ) → t'.video_mem j ≡ printed t (announcement ++ digits) j)
unfolding count_and_print
count_and_print_lem stack text rest t on clean some small room =
    let counted = strlen_lem text rest clean in
    let (digits, ran, all, _, _, back) = itoa-read_from (length text) stack some small room in
    let behind = drop (suc (length digits)) stack in
    let (t1, t2, first, second, cells) =
      print_two announcement digits behind t on (omega arith) (IsPlain-digits digits all) in
    (
      digits,
      record t2 { row = t2.row + 1; col = 0 },
      ground (arith, counted, ran, first, second, new_line t2),
      all,
      back,
      refl,
      cells,
    )
