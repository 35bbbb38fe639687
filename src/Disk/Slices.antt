-- ===== src/Disk/Slices.antt =====
-- Slices of a stretch of the image that something follows.
use kernel_play.Prelude.{
  ℕ, zero, suc, ◌+◌, ◌-◌, ◌≤◌, ◌≡◌, refl, ap, ap₂, ◌∙◌, List, ◌∷◌, ◌++◌, arith, take, drop,
}
use kernel_play.Disk.Image.{bytes}

module _ (image : ℕ → ℕ) (r : List ℕ) where
  -- A slice inside the stretch.
  pub slice_inside :
      (p n off k : ℕ)
      → off + k ≤ n
      → take k (drop off (bytes image p n ++ r)) ≡ bytes image (p + off) k
  unfolding bytes
  slice_inside p zero zero zero h = refl
  slice_inside p zero zero (suc k) h = absurd (omega arith)
  slice_inside p zero (suc off) k h = absurd (omega arith)
  slice_inside p (suc n) zero zero h = refl
  slice_inside p (suc n) zero (suc k) h =
      let e : p ≡ p + 0 = omega arith in
      let f : p + 1 + 0 ≡ p + 0 + 1 = omega arith in
      ap₂ (λ x l. image x ∷ l) e
        (slice_inside (p + 1) n 0 k (omega arith) ∙ ap (λ x. bytes image x k) f)
  slice_inside p (suc n) (suc off) k h =
      slice_inside (p + 1) n off k (omega arith) ∙ ap (λ x. bytes image x k) (omega arith)

  -- A slice that goes on behind the stretch.
  pub slice_across :
      (p n off k : ℕ)
      → off ≤ n
      → n - off ≤ k
      → take k (drop off (bytes image p n ++ r))
        ≡ bytes image (p + off) (n - off) ++ take (k - (n - off)) r
  unfolding bytes
  slice_across p zero zero k h le = ap (λ x. take x r) (omega arith)
  slice_across p zero (suc off) k h le = absurd (omega arith)
  slice_across p (suc n) zero zero h le = absurd (omega arith)
  slice_across p (suc n) zero (suc k) h le =
      let e : p + 1 + 0 ≡ p + 1 = omega arith in
      let f : p ≡ p + 0 = omega arith in
      let g : n - 0 ≡ n = omega arith in
      let h' : suc n ≡ suc n - 0 = omega arith in
      let i : k - n ≡ suc k - (suc n - 0) = omega arith in
      let tail =
        slice_across (p + 1) n 0 k (omega arith) (omega arith)
        ∙ ap₂ (λ x m. bytes image x m ++ take (k - m) r) e g in
      ap (λ l. image p ∷ l) tail
      ∙ ap₂ (λ x m. bytes image x m ++ take (k - n) r) f h'
      ∙ ap (λ t. bytes image (p + 0) (suc n - 0) ++ take t r) i
  slice_across p (suc n) (suc off) k h le =
      let e : p + 1 + off ≡ p + suc off = omega arith in
      let g : n - off ≡ suc n - suc off = omega arith in
      slice_across (p + 1) n off k (omega arith) (omega arith)
      ∙ ap₂ (λ x m. bytes image x m ++ take (k - m) r) e g

  -- Dropping more than the stretch drops it whole.
  pub drop_past : (p n k : ℕ) → drop (n + k) (bytes image p n ++ r) ≡ drop k r
  unfolding bytes
  drop_past p zero k = ap (λ x. drop x r) (omega arith)
  drop_past p (suc n) k =
      let e : suc n + k ≡ suc (n + k) = omega arith in
      ap (λ x. drop x (bytes image p (suc n) ++ r)) e ∙ drop_past (p + 1) n k
