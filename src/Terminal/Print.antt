-- ===== src/Terminal/Print.antt =====
-- Where a printed text goes.
use kernel_play.Prelude.{
  ℕ, suc, ◌+◌, ◌-◌, ◌*◌, ◌<◌, ◌≡◌, ◌≢◌, refl, ◌∙◌, List, [], ◌∷◌, ◌++◌, ◌&&◌, arith, if◌then◌else◌,
  ◌==◌, leb, ltb, length, get_or, ==_iff, true, dec_lt, ℕ_discrete,
}
use kernel_play.Prelude.Run.{ok}
use kernel_play.Prelude.Bits.{every, every-at}
use kernel_play.Terminal.{Terminal, make_char, put, print_char, print_string}

-- The index in video memory that the cursor stands for.
abbrev pub cursor : Terminal → ℕ
cursor t = t.row * 80 + t.col

-- The cursor is on a line.
abbrev pub IsOnLine : Terminal → Type 0
IsOnLine t = t.col < 80

-- Bytes that are neither a line feed nor the terminator.
abbrev pub IsPlain : List ℕ → Type 0
IsPlain [] = Unit
IsPlain (c ∷ s) = (c ≢ 0) × (c ≢ 10) × (c < 256) × IsPlain s

-- What the screen shows for a cell: the low byte is the character, the high byte its colours. White
-- on black is 0x0F. The bytes from 128 on are negative as `char`, and their sign covers the colours.
abbrev pub cell_of : ℕ → ℕ
cell_of c = if ltb c 128 then 0x0F * 256 + c else 0xFF * 256 + c

make_char_table : every (λ c. make_char c 0xF == cell_of c) 256 ≡ true
unfolding make_char
make_char_table = refl

make_char_lem : (c : ℕ) → c < 256 → make_char c 0xF ≡ cell_of c
make_char_lem c byte =
    (==_iff _ _).0 (every-at (λ d. make_char d 0xF == cell_of d) 256 c make_char_table byte)

-- Every character keeps the cursor on a line.
pub print_char-IsOnLine : (t : Terminal) (c : ℕ) → IsOnLine t → IsOnLine (print_char t c)
unfolding print_char
print_char-IsOnLine t c h = ground arith

print_char-plain :
    (t : Terminal) (c : ℕ)
    → IsOnLine t
    → c ≢ 10
    → c < 256
    → (cursor (print_char t c) ≡ cursor t + 1)
      × ((j : ℕ)
          → (print_char t c).video_mem j ≡ (if j == cursor t then cell_of c else t.video_mem j))
unfolding print_char put
print_char-plain t c h ne byte =
    let shown = make_char_lem c byte in (ground arith, λ j. ground (arith, shown))

-- A cell of the text's stretch, and any other.
abbrev pub printed : Terminal → List ℕ → ℕ → ℕ
printed t s j =
    if leb (cursor t) j && ltb j (cursor t + length s)
    then cell_of (get_or s (j - cursor t) 0)
    else t.video_mem j

printed-cons :
    (t : Terminal) (c : ℕ) (s : List ℕ) (t' : Terminal) (j : ℕ)
    → cursor t' ≡ cursor t + 1
    → t'.video_mem j ≡ (if j == cursor t then cell_of c else t.video_mem j)
    → printed t' s j ≡ printed t (c ∷ s) j
printed-cons t c s t' j at cell = elim (ℕ_discrete j (cursor t)) [
  | yes e ↦ let start : j - cursor t ≡ 0 = omega arith in rw start (ground (arith, at, cell))
  | no ne ↦ elim (dec_lt j (cursor t)) [
    | yes before ↦ ground (arith, at, cell)
    | no past ↦
        let step : j - cursor t ≡ suc (j - cursor t') = omega arith in
        rw step (ground (arith, at, cell))
  ]
]

-- With the cursor on a line, a text of bytes that are neither a line feed nor the terminator is put
-- into consecutive cells from the cursor on, across line ends: each cell gets the character in its
-- low byte, and in its high byte white on black for the bytes below 128 and 0xFF for the others. No
-- other cell changes, and the cursor ends behind the text, on a line.
pub print_string_lem :
    (s rest : List ℕ) (t : Terminal)
    → IsOnLine t
    → IsPlain s
    → (t' : Terminal) × (print_string t (s ++ 0 ∷ rest) ≡ ok t')
      × (cursor t' ≡ cursor t + length s)
      × IsOnLine t'
      × ((j : ℕ) → t'.video_mem j ≡ printed t s j)
unfolding print_string
print_string_lem [] rest t h plain = (t, refl, omega arith, h, λ j. ground arith)
print_string_lem (c ∷ s) rest t h plain =
    let next = print_char t c in
    let (moved, cells) = print_char-plain t c h plain.1 plain.2 in
    let (t', run, at, on, video) =
      print_string_lem s rest next (print_char-IsOnLine t c h) plain.3 in
    (
      t',
      ground (arith, plain.0, run),
      omega (arith, at, moved),
      on,
      λ j. video j ∙ printed-cons t c s next j moved (cells j),
    )
