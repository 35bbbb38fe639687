-- ===== src/Fat/Names/Copy.antt =====
-- fat16_to_proper_string: the text of a padded field in front of zeros.
use kernel_play.Prelude.{
  ℕ, zero, suc, ◌+◌, ◌-◌, ◌<◌, ◌≡◌, ◌≢◌, ◌⊎◌, refl, ap, ◌∙◌, List, [], ◌∷◌, ◌++◌, arith, false,
  length, replicate, ◌-w◌, ◌==◌, dec_lt,
}
use kernel_play.Prelude.Run.{Run, ok}
use kernel_play.Text.{store, load}
use kernel_play.Text.Stores.{store_behind, snoc, length-snoc}
use kernel_play.Fat.Names.{to_proper_string}

-- A text of characters that are neither 0 nor a space.
abbrev pub Plain : List ℕ → Type 0
Plain [] = Unit
Plain (c ∷ s) = (c ≢ 0) × (c ≢ 0x20) × Plain s

-- A character that is not the last that fits.
proper_more :
    (d : ℕ) (pre text out : List ℕ) (k size at : ℕ)
    → d ≢ 0
    → d ≢ 0x20
    → 1 < size
    → size < 100
    → to_proper_string ((pre ++ d ∷ []) ++ replicate k 0) (length (pre ++ d ∷ [])) text (size - 1)
      ≡ ok (at, out)
    → to_proper_string (pre ++ replicate (suc k) 0) (length pre) (d ∷ text) size ≡ ok (at, out)
unfolding to_proper_string
proper_more d pre text out k size at some plain more small rest =
    let stored = store_behind pre 0 d (replicate k 0) in
    let less : size -w 1 ≡ size - 1 = omega arith in
    let left : (size - 1 == 0) ≡ false = ground arith in
    let here = snoc pre d (replicate k 0) in
    let rest' : to_proper_string (pre ++ d ∷ replicate k 0) (length pre + 1) text (size - 1)
        ≡ ok (at, out) =
      rw (← here) (rw (← length-snoc pre d) rest) in
    ground (arith, stored, less, left, rest')

-- The last character that fits: a space behind it ends the text once more.
proper_last :
    (d : ℕ) (pre : List ℕ) (k c : ℕ) (rest : List ℕ)
    → d ≢ 0
    → d ≢ 0x20
    → to_proper_string (pre ++ replicate (suc (suc k)) 0) (length pre) (d ∷ c ∷ rest) 1
      ≡ ok (length pre + 1, pre ++ d ∷ 0 ∷ replicate k 0)
unfolding to_proper_string load
proper_last d pre k c rest some plain =
    let stored = store_behind pre 0 d (0 ∷ replicate k 0) in
    let again : store (pre ++ d ∷ 0 ∷ replicate k 0) (length pre + 1) 0
        ≡ ok (pre ++ d ∷ 0 ∷ replicate k 0) =
      rw (← snoc pre d (0 ∷ replicate k 0))
        (rw (← length-snoc pre d) (store_behind (pre ++ d ∷ []) 0 0 (replicate k 0))) in
    ground (arith, stored, again)

behind :
    (d : ℕ) (pre text : List ℕ) (k : ℕ)
    → ◌≡◌ {A = Run (ℕ × List ℕ)}
        (ok (
          length (pre ++ d ∷ []) + length text,
          (pre ++ d ∷ []) ++ (text ++ replicate (k - length text) 0),
        ))
        (ok (
          length pre + length (d ∷ text),
          pre ++ (d ∷ (text ++ replicate (suc k - length (d ∷ text)) 0)),
        ))
behind d pre text k =
    let at : length (pre ++ d ∷ []) + length text ≡ length pre + suc (length text) =
      omega (arith, length-snoc pre d) in
    let left : suc k - suc (length text) ≡ k - length text = omega arith in
    rw (at, left) (ap (λ l. ok (length pre + suc (length text), l)) (snoc pre d _))

-- The text is copied behind what `out` holds, in front of its zeros.
pub proper_lem :
    (text pre : List ℕ) (k size c : ℕ) (rest : List ℕ)
    → Plain text
    → ((length text < size) × (c ≡ 0x20)) ⊎ ((length text ≡ size) × (0 < size))
    → length text < k
    → size < 100
    → to_proper_string (pre ++ replicate k 0) (length pre) (text ++ c ∷ rest) size
      ≡ ok (length pre + length text, pre ++ (text ++ replicate (k - length text) 0))
unfolding to_proper_string
proper_lem [] pre zero size c rest plain ends room small = absurd (omega arith)
proper_lem [] pre (suc k) size c rest plain ends room small =
    let space : c ≡ 0x20 = ground (arith, ends) in
    let stored = store_behind pre 0 0 (replicate k 0) in
    let at : length pre + 0 ≡ length pre = omega arith in
    let left : suc k - 0 ≡ suc k = omega arith in rw (space, stored, at, left) refl
proper_lem (d ∷ text) pre zero size c rest plain ends room small = absurd (omega arith)
proper_lem (d ∷ []) pre (suc zero) size c rest plain ends room small = absurd (omega arith)
proper_lem (d ∷ []) pre (suc (suc k)) size c rest plain ends room small = elim (dec_lt 1 size) [
  | no one ↦
      let last : size ≡ 1 = omega arith in
      let left : suc (suc k) - 1 ≡ suc k = omega arith in
      rw (last, left) (proper_last d pre k c rest plain.0 plain.1)
  | yes more ↦
      proper_more d pre (c ∷ rest) _ (suc k) size _ plain.0 plain.1 more small (
        proper_lem [] (pre ++ d ∷ []) (suc k) (size - 1) c rest tt (omega arith) (omega arith)
          (omega arith))
      ∙ behind d pre [] (suc k)
]
proper_lem (d ∷ e ∷ text) pre (suc k) size c rest plain ends room small =
    proper_more d pre (e ∷ text ++ c ∷ rest) _ k size _ plain.0 plain.1 (omega arith) small (
      proper_lem (e ∷ text) (pre ++ d ∷ []) k (size - 1) c rest plain.2 (omega arith) (omega arith)
        (omega arith))
    ∙ behind d pre (e ∷ text) k
