-- ===== src/Fat/Names/Full.antt =====
-- The 8.3 name of a directory item whose fields are padded with spaces.
use kernel_play.Prelude.{
  ℕ, suc, ◌+◌, ◌-◌, ◌≤◌, ◌<◌, ◌≡◌, ◌⊎◌, inl, inr, refl, sym, ap, subst, ◌∙◌, List, [], ◌∷◌, ◌++◌,
  arith, length, replicate, length-append, dec_lt,
}
use mathlib.Core.List.{append_assoc}
use kernel_play.Prelude.Run.{ok}
use kernel_play.Text.{store, load}
use kernel_play.Text.Stores.{store_behind, snoc, length-snoc}
use kernel_play.Fat.Layout.{DirectoryItem}
use kernel_play.Fat.Names.{to_proper_string, get_full_relative_filename}
use kernel_play.Fat.Names.Copy.{Plain, proper_lem}

abbrev pub padded : ℕ → List ℕ → List ℕ
padded n s = s ++ replicate (n - length s) 0x20

-- What stands behind a padded field goes on from the text with a space, or with the next field.
abbrev Ended : (n : ℕ) (s tail : List ℕ) → Type 0
Ended n s tail =
    (c : ℕ) × (rest : List ℕ) × (padded n s ++ tail ≡ s ++ c ∷ rest)
    × (((length s < n) × (c ≡ 0x20)) ⊎ ((length s ≡ n) × (0 < n)))

field-Ended :
    (n : ℕ) (s : List ℕ) (c : ℕ) (rest : List ℕ) → length s ≤ n → 0 < n → Ended n s (c ∷ rest)
field-Ended n s c rest le pos = elim (dec_lt (length s) n) [
  | yes lt ↦
      let e : n - length s ≡ suc (n - length s - 1) = omega arith in
      (
        0x20,
        replicate (n - length s - 1) 0x20 ++ c ∷ rest,
        ap (λ j. (s ++ replicate j 0x20) ++ c ∷ rest) e
            ∙ append_assoc s (0x20 ∷ replicate (n - length s - 1) 0x20) (c ∷ rest),
        inl (lt, refl),
      )
  | no ge ↦
      let e : n - length s ≡ 0 = omega arith in
      (
        c,
        rest,
        ap (λ j. (s ++ replicate j 0x20) ++ c ∷ rest) e ∙ append_assoc s [] (c ∷ rest),
        inr (omega arith, pos),
      )
]

-- The name as one text: the part after the point is left out with the point where it is empty.
abbrev pub full_name : List ℕ → List ℕ → List ℕ
full_name base [] = base
full_name base (x ∷ ext) = base ++ b'.' ∷ x ∷ ext

-- The fields of an item hold the two parts of its name, padded.
pub record IsNamed (item : DirectoryItem) (base ext : List ℕ) : Type 0 where
  pub base_plain : Plain base
  pub ext_plain : Plain ext
  pub base_short : length base ≤ 8
  pub ext_short : length ext ≤ 3
  pub base_field : item.filename ≡ padded 8 base
  pub ext_field : item.ext ≡ padded 3 ext

field_run :
    (n : ℕ) (s pre : List ℕ) (k c : ℕ) (rest : List ℕ)
    → Plain s
    → length s ≤ n
    → 0 < n
    → n < 100
    → length s < k
    → to_proper_string (pre ++ replicate k 0) (length pre) (padded n s ++ c ∷ rest) n
      ≡ ok (length pre + length s, pre ++ (s ++ replicate (k - length s) 0))
field_run n s pre k c rest plain le pos small room =
    let (c', rest', e, ends) = field-Ended n s c rest le pos in
    rw e (proper_lem s pre k n c' rest' plain ends room small)

nonempty : (s : List ℕ) (a : ℕ) → (c : ℕ) × (rest : List ℕ) × (s ++ a ∷ [] ≡ c ∷ rest)
nonempty [] a = (a, [], refl)
nonempty (x ∷ s) a = (x, s ++ a ∷ [], refl)

module _ {item : DirectoryItem} {base ext : List ℕ} (named : IsNamed item base ext) (len : ℕ)
    (room : 12 < len) where
  base_run :
      to_proper_string (replicate len 0) 0 (item.filename ++ (item.ext ++ item.attribute ∷ [])) 8
      ≡ ok (length base, base ++ replicate (len - length base) 0)
  base_run =
      let (c, rest, e) = nonempty item.ext item.attribute in
      let at : 0 + length base ≡ length base = omega arith in
      ap (λ s. to_proper_string (replicate len 0) 0 s 8)
        (ap (λ s. s ++ (item.ext ++ item.attribute ∷ [])) named.base_field
          ∙ ap (λ s. padded 8 base ++ s) e)
      ∙ field_run 8 base [] len c rest named.base_plain named.base_short (omega arith) (omega arith)
          (omega (arith, named.base_short))
      ∙ ap (λ n. ok (n, base ++ replicate (len - length base) 0)) at

  -- What the point and the second field add to the first.
  ext_run :
      (pre : List ℕ)
      → length pre ≤ 9
      → to_proper_string
          (pre ++ replicate (len - length pre) 0)
          (length pre)
          (item.ext ++ item.attribute ∷ [])
          3
        ≡ ok (length pre + length ext, pre ++ (ext ++ replicate (len - length pre - length ext) 0))
  ext_run pre short =
      ap
        (λ s.
          to_proper_string (pre ++ replicate (len - length pre) 0) (length pre)
            (s ++ item.attribute ∷ []) 3)
        named.ext_field
      ∙ field_run 3 ext pre (len - length pre) item.attribute [] named.ext_plain named.ext_short
          (omega arith) (omega arith) (omega (arith, named.ext_short))

  name_no_ext :
      ext ≡ [] → get_full_relative_filename item len ≡ ok (base ++ replicate (len - length base) 0)
  unfolding get_full_relative_filename load
  name_no_ext none_left =
      let field : item.ext ≡ 0x20 ∷ 0x20 ∷ 0x20 ∷ [] = named.ext_field ∙ ap (padded 3) none_left in
      ground (arith, base_run, field)

  name_ext :
      (x : ℕ) (e : List ℕ)
      → ext ≡ x ∷ e
      → get_full_relative_filename item len
        ≡ ok ((base ++ b'.' ∷ []) ++ (ext ++ replicate (len - (length base + 1) - length ext) 0))
  unfolding get_full_relative_filename load
  name_ext x e is =
      let field : item.ext ≡ x ∷ (e ++ replicate (3 - suc (length e)) 0x20) =
        named.ext_field ∙ ap (padded 3) is in
      let plain : Plain (x ∷ e) = subst Plain is named.ext_plain in
      let room' : len - length base ≡ suc (len - (length base + 1)) =
        omega (arith, named.base_short) in
      let out = base ++ replicate (len - length base) 0 in
      let point : store out (length base) b'.'
          ≡ ok ((base ++ b'.' ∷ []) ++ replicate (len - (length base + 1)) 0) =
        ap (λ k. store (base ++ replicate k 0) (length base) b'.') room'
        ∙ store_behind base 0 b'.' (replicate (len - (length base + 1)) 0)
        ∙ ap ok (sym (snoc base b'.' (replicate (len - (length base + 1)) 0))) in
      let size = length-snoc base b'.' in
      let rest = ext_run (base ++ b'.' ∷ []) (omega (arith, size, named.base_short)) in
      let rest' : to_proper_string ((base ++ b'.' ∷ []) ++ replicate (len - (length base + 1)) 0)
            (length base + 1) (item.ext ++ item.attribute ∷ []) 3
          ≡ ok (
            length base + 1 + length ext,
            (base ++ b'.' ∷ []) ++ (ext ++ replicate (len - (length base + 1) - length ext) 0),
          ) =
        rw size at rest in
      ground (arith, base_run, field, point, rest', plain)

-- The name that the code builds in a buffer of `len` bytes is the full name, and the rest of the
-- buffer is 0.
pub full_filename_lem :
    (item : DirectoryItem) (base ext : List ℕ) (len : ℕ)
    → IsNamed item base ext
    → 12 < len
    → get_full_relative_filename item len
      ≡ ok (full_name base ext ++ replicate (len - length (full_name base ext)) 0)
full_filename_lem item base [] len named room = name_no_ext named len room refl
full_filename_lem item base (x ∷ ext) len named room =
    let left : len - (length base + 1) - length (x ∷ ext) ≡ len - length (base ++ b'.' ∷ x ∷ ext) =
      omega (arith, length-append base (b'.' ∷ x ∷ ext)) in
    name_ext named len room x ext refl
    ∙ ap (λ l. ok l) (snoc base b'.' _ ∙ sym (append_assoc base (b'.' ∷ x ∷ ext) _))
    ∙ ap (λ k. ok ((base ++ b'.' ∷ x ∷ ext) ++ replicate k 0)) left
