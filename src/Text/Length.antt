-- ===== src/Text/Length.antt =====
-- Strings in memory, and the functions that look for their end.
use kernel_play.Prelude.{ℕ, suc, ◌≡◌, ◌≢◌, ◌<◌, refl, List, [], ◌∷◌, ◌++◌, arith, length, drop}
use kernel_play.Prelude.Run.{ok, fault}
use kernel_play.Text.{strlen, strcpy}

-- No byte of the text is 0.
abbrev pub NoNul : List ℕ → Type 0
NoNul [] = Unit
NoNul (c ∷ s) = (c ≢ 0) × NoNul s

-- A text with its terminator, and what stands behind it in the object.
abbrev pub c_string : List ℕ → List ℕ → List ℕ
c_string s rest = s ++ 0 ∷ rest

-- `strlen` counts the bytes before the terminator, whatever stands behind it.
pub strlen_lem : (s rest : List ℕ) → NoNul s → strlen (c_string s rest) ≡ ok (length s)
unfolding strlen
strlen_lem [] rest h = refl
strlen_lem (c ∷ s) rest h = ground (arith, strlen_lem s rest h.1)

-- Without a terminator it runs past the end of the object.
pub strlen-fault : (s : List ℕ) → NoNul s → strlen s ≡ fault
unfolding strlen
strlen-fault [] h = refl
strlen-fault (c ∷ s) h = ground (arith, strlen-fault s h.1)

-- `strcpy` into a long enough object writes the text and its terminator, leaves the bytes behind
-- them, and returns the pointer to the terminator.
pub strcpy_lem :
    (s rest dst : List ℕ)
    → NoNul s
    → length s < length dst
    → strcpy dst (c_string s rest) ≡ ok (length s, c_string s (drop (suc (length s)) dst))
unfolding strcpy
strcpy_lem s rest [] h fits = absurd (omega arith)
strcpy_lem [] rest (d ∷ dst) h fits = refl
strcpy_lem (c ∷ s) rest (d ∷ dst) h fits = ground (arith, strcpy_lem s rest dst h.1)
