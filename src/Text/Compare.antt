-- ===== src/Text/Compare.antt =====
-- `istrncmp` decides whether two texts are equal but for the case of their letters.
use kernel_play.Prelude.{
  ℕ, zero, suc, ◌+◌, ◌≡◌, ◌≢◌, ◌≤◌, ◌<◌, ◌↔◌, refl, ap₂, ==_iff, List, [], ◌∷◌, arith, length, map,
  true, false, ltb, if◌then◌else◌, ◌||◌, ◌-◌, sym, ◌∙◌, ◌==◌, Bool-cases, inl, inr, rounds,
}
use kernel_play.Prelude.Run.{ok, Run}
use kernel_play.Text.{tolower, istrncmp_from, istrncmp, order_of}
use kernel_play.Text.Length.{NoNul, c_string}

-- A comparison of two different characters is not 0.
pub order_of-ne_zero : (a b : ℕ) → order_of a b ≢ 0
unfolding order_of
order_of-ne_zero a b = ground arith

-- `tolower` maps the letters A to Z to a to z and leaves every other character.
pub tolower-lower : (c : ℕ) → b'A' ≤ c → c ≤ b'Z' → tolower c ≡ c + 32
unfolding tolower
tolower-lower c h k = ground arith

pub tolower-zero : (c : ℕ) → c < 256 → tolower c ≡ 0 → c ≡ 0
unfolding tolower
tolower-zero c h e = ground arith

tolower-ne_zero : (c : ℕ) → c ≢ 0 → c < 256 → tolower c ≢ 0
tolower-ne_zero c ne h e = ne (tolower-zero c h e)

tolower_nul : tolower 0 ≡ 0
unfolding tolower
tolower_nul = refl

-- Every element is a byte.
abbrev pub Bytes : List ℕ → Type 0
Bytes [] = Unit
Bytes (c ∷ s) = (c < 256) × Bytes s

-- A letter of the alphabet A to Z stands for the small one, which comes 32 places later.
abbrev fold_case : ℕ → ℕ
fold_case c = if ltb c b'A' || ltb b'Z' c then c else c + (b'a' - b'A')

-- The texts are equal but for the case of their letters.
abbrev pub SameText : List ℕ → List ℕ → Type 0
SameText s t = map fold_case s ≡ map fold_case t

tolower-fold_case : (c : ℕ) → c < 256 → tolower c ≡ fold_case c
unfolding tolower
tolower-fold_case c byte = ground arith

map-tolower-fold_case : (s : List ℕ) → Bytes s → map tolower s ≡ map fold_case s
map-tolower-fold_case [] bs = refl
map-tolower-fold_case (c ∷ s) bs = ap₂ ◌∷◌ (tolower-fold_case c bs.0) (map-tolower-fold_case s bs.1)

-- The texts are the same to the code.
abbrev SameLower : List ℕ → List ℕ → Type 0
SameLower s t = map tolower s ≡ map tolower t

SameLower-SameText : (s t : List ℕ) → Bytes s → Bytes t → SameLower s t ↔ SameText s t
SameLower-SameText s t bs bt =
    let left = map-tolower-fold_case s bs in
    let right = map-tolower-fold_case t bt in
    ((λ e. sym left ∙ e ∙ right), (λ e. left ∙ e ∙ sym right))

-- The result of a comparison that ends, and what it says.
abbrev pub Decides : Type 0 → Run ℕ → Type 0
Decides P run = (res : ℕ) × (run ≡ ok res) × ((res ≡ 0) ↔ P)

istrncmp-Decides :
    (s t r r' : List ℕ) (n : ℕ)
    → NoNul s
    → NoNul t
    → Bytes s
    → Bytes t
    → length s < n
    → Decides (SameLower s t) (istrncmp_from (c_string s r) (c_string t r') n)
unfolding istrncmp_from
istrncmp-Decides s t r r' zero hs ht bs bt h = absurd (omega arith)
istrncmp-Decides [] [] r r' (suc n) hs ht bs bt h = (0, refl, ((λ _. refl), (λ _. refl)))
istrncmp-Decides [] (b ∷ t) r r' (suc n) hs ht bs bt h = (
  order_of 0 b,
  ground (arith, tolower_nul, tolower-ne_zero b ht.0 bt.0),
  ((λ e. absurd (order_of-ne_zero 0 b e)), (λ e. cc)),
)
istrncmp-Decides (a ∷ s) [] r r' (suc n) hs ht bs bt h = (
  order_of a 0,
  ground (arith, tolower_nul, tolower-ne_zero a hs.0 bs.0),
  ((λ e. absurd (order_of-ne_zero a 0 e)), (λ e. cc)),
)
istrncmp-Decides (a ∷ s) (b ∷ t) r r' (suc n) hs ht bs bt h =
    let (res, run, iff) = istrncmp-Decides s t r r' n hs.1 ht.1 bs.1 bt.1 (omega arith) in
    elim (Bool-cases (tolower a == tolower b)) [
      | inl same ↦
          (res, ground (arith, run), ((λ e. cons_same (iff.0 e) same), (λ e. iff.1 (tail_same e))))
      | inr differ ↦ (
        order_of a b,
        ground arith,
        ((λ e. absurd (order_of-ne_zero a b e)), (λ e. absurd (head_differs e differ))),
      )
    ]
  where
    cons_same : SameLower s t → (tolower a == tolower b) ≡ true → SameLower (a ∷ s) (b ∷ t)
    cons_same e same = let h' : tolower a ≡ tolower b = (==_iff _ _).0 same in ap₂ ◌∷◌ h' e

    tail_same : SameLower (a ∷ s) (b ∷ t) → SameLower s t
    tail_same e = cc

    head_differs : SameLower (a ∷ s) (b ∷ t) → (tolower a == tolower b) ≡ false → ⊥
    head_differs e differ = let h' : tolower a ≡ tolower b = cc in ground arith

-- `istrncmp` of two texts of bytes without the terminator inside, the first shorter than the bound,
-- returns, and returns 0 exactly when they are the same up to the case of the letters A to Z.
pub istrncmp_lem :
    (s t r r' : List ℕ) (len : ℕ)
    → NoNul s
    → NoNul t
    → Bytes s
    → Bytes t
    → length s < rounds len
    → Decides (SameText s t) (istrncmp (c_string s r) (c_string t r') len)
unfolding istrncmp
istrncmp_lem s t r r' len hs ht bs bt h =
    let (res, run, iff) = istrncmp-Decides s t r r' (rounds len) hs ht bs bt h in
    let same = SameLower-SameText s t bs bt in
    (res, run, ((λ e. same.0 (iff.0 e)), (λ e. iff.1 (same.1 e))))
