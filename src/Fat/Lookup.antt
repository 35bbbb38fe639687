-- ===== src/Fat/Lookup.antt =====
-- The search of a directory for a name: the first item whose name is the same up to case.
use kernel_play.Prelude.{
  ℕ, zero, suc, ◌+◌, ◌-◌, ◌≤◌, ◌<◌, ◌≡◌, ◌↔◌, inl, inr, refl, sym, ap, subst, ◌∙◌, List, [], ◌∷◌,
  ◌++◌, arith, false, Option, none, some, length, get_elem?, replicate, take, drop, length-append,
  ◌==◌, Bool-cases, ==_iff,
}
use kernel_play.Prelude.Run.{ok}
use kernel_play.Text.{istrncmp}
use kernel_play.Text.Length.{NoNul, c_string}
use kernel_play.Text.Compare.{Bytes, SameText, Decides, istrncmp_lem}
use kernel_play.Fat.Layout.{DirectoryItem}
use kernel_play.Fat.Names.{get_full_relative_filename}
use kernel_play.Fat.Names.Copy.{Plain}
use kernel_play.Fat.Names.Full.{full_name, IsNamed, full_filename_lem}
use kernel_play.Fat.Directory.{find_item}

-- An item with a name of bytes.
pub record HasName (item : DirectoryItem) (name : List ℕ) : Type 0 where
  pub base : List ℕ
  pub ext : List ℕ
  pub named : IsNamed item base ext
  pub base_bytes : Bytes base
  pub ext_bytes : Bytes ext
  pub whole : name ≡ full_name base ext

abbrev pub AllNamed : List DirectoryItem → Type 0
AllNamed [] = Unit
AllNamed (item ∷ items) = ((name : List ℕ) × HasName item name) × AllNamed items

-- The first of the items whose name is the text up to case, or none.
pub data FirstMatch (path : List ℕ) : List DirectoryItem → Option DirectoryItem → Type 0 where
  nothing : FirstMatch path [] none
  here :
      {item : DirectoryItem} {items : List DirectoryItem} (name : List ℕ)
      → HasName item name
      → SameText name path
      → FirstMatch path (item ∷ items) (some item)
  later :
      {item : DirectoryItem} {items : List DirectoryItem} {result : Option DirectoryItem}
      → ((name : List ℕ) → HasName item name → ¬ SameText name path)
      → FirstMatch path items result
      → FirstMatch path (item ∷ items) result

NoNul-append : (s t : List ℕ) → NoNul s → NoNul t → NoNul (s ++ t)
NoNul-append [] t hs ht = ht
NoNul-append (c ∷ s) t hs ht = (hs.0, NoNul-append s t hs.1 ht)

Bytes-append : (s t : List ℕ) → Bytes s → Bytes t → Bytes (s ++ t)
Bytes-append [] t hs ht = ht
Bytes-append (c ∷ s) t hs ht = (hs.0, Bytes-append s t hs.1 ht)

Plain-NoNul : (s : List ℕ) → Plain s → NoNul s
Plain-NoNul [] h = tt
Plain-NoNul (c ∷ s) h = (h.0, Plain-NoNul s h.2)

-- A full name is a text of at most twelve bytes.
full_name-text :
    (base ext : List ℕ)
    → Plain base
    → Plain ext
    → Bytes base
    → Bytes ext
    → NoNul (full_name base ext)
      × Bytes (full_name base ext)
      × (length (full_name base ext) ≤ length base + length ext + 1)
full_name-text base [] pb pe bb be = (Plain-NoNul base pb, bb, omega arith)
full_name-text base (x ∷ ext) pb pe bb be = (
  NoNul-append base (b'.' ∷ x ∷ ext) (Plain-NoNul base pb) (omega arith, Plain-NoNul (x ∷ ext) pe),
  Bytes-append base (b'.' ∷ x ∷ ext) bb (omega arith, be),
  omega (arith, length-append base (b'.' ∷ x ∷ ext)),
)

-- Comparing an item with a name decides whether it is the item's name up to case.
compare_item :
    (item : DirectoryItem) (name path rest : List ℕ)
    → HasName item name
    → NoNul path
    → Bytes path
    → (tmp : List ℕ) × (get_full_relative_filename item 100 ≡ ok tmp)
      × Decides (SameText name path) (istrncmp tmp (c_string path rest) 100)
compare_item item name path rest has hp bp =
    let (nul, bytes, short) =
      full_name-text has.base has.ext has.named.base_plain has.named.ext_plain has.base_bytes
        has.ext_bytes in
    let few : length (full_name has.base has.ext) ≤ 12 =
      omega (arith, short, has.named.base_short, has.named.ext_short) in
    let left : 100 - length (full_name has.base has.ext)
        ≡ suc (99 - length (full_name has.base has.ext)) =
      omega (arith, few) in
    let run = full_filename_lem item has.base has.ext 100 has.named (omega arith) in
    let (res, compared, iff) =
      istrncmp_lem (full_name has.base has.ext) path
        (replicate (99 - length (full_name has.base has.ext)) 0) rest 100 nul hp bytes bp
        (omega (arith, few)) in
    let run' : get_full_relative_filename item 100
        ≡ ok (
            c_string (full_name has.base has.ext)
              (replicate (99 - length (full_name has.base has.ext)) 0)) =
      run ∙ ap (λ k. ok (full_name has.base has.ext ++ replicate k 0)) left in
    (_, run', (res, compared, subst (λ s. (res ≡ 0) ↔ SameText s path) (sym has.whole) iff))

differs_all :
    (item : DirectoryItem) (path rest tmp : List ℕ) (res : ℕ)
    → NoNul path
    → Bytes path
    → get_full_relative_filename item 100 ≡ ok tmp
    → istrncmp tmp (c_string path rest) 100 ≡ ok res
    → (res == 0) ≡ false
    → (name : List ℕ) → HasName item name
    → ¬ SameText name path
differs_all item path rest tmp res hp bp filled run differs name has same =
    let (tmp', filled', (res', run', iff)) = compare_item item name path rest has hp bp in
    let texts : ok tmp' ≡ ok tmp = sym filled' ∙ filled in
    let same_tmp : tmp' ≡ tmp = cc texts in
    let results : ok res' ≡ ok res =
      sym run' ∙ ap (λ t. istrncmp t (c_string path rest) 100) same_tmp ∙ run in
    let same_res : res' ≡ res = cc results in ground (arith, iff.1 same, same_res, differs)

drop_get :
    (items : List DirectoryItem) (i : ℕ)
    → i < length items
    → (item : DirectoryItem) × (get_elem? items i ≡ some item)
      × (drop i items ≡ item ∷ drop (i + 1) items)
drop_get [] i h = absurd (omega arith)
drop_get (item ∷ items) zero h = (item, refl, refl)
drop_get (item ∷ items) (suc i) h =
    let (x, e, f) = drop_get items i (omega arith) in
    let next : suc i + 1 ≡ suc (i + 1) = omega arith in (x, e, rw next f)

-- The search returns, with the first match among the items that it goes through.
find-FirstMatch :
    (items : List DirectoryItem) (i n : ℕ) (path rest : List ℕ)
    → AllNamed (take n (drop i items))
    → NoNul path
    → Bytes path
    → i + n ≤ length items
    → (result : Option DirectoryItem) × (find_item items i n (c_string path rest) ≡ ok result)
      × FirstMatch path (take n (drop i items)) result
unfolding find_item
find-FirstMatch items i zero path rest named hp bp fits = (none, refl, nothing)
find-FirstMatch items i (suc n) path rest named hp bp fits =
    let (item, found, split) = drop_get items i (omega arith) in
    let first : take (suc n) (drop i items) ≡ item ∷ take n (drop (i + 1) items) =
      ap (take (suc n)) split in
    let all = subst AllNamed first named in
    let (name, has) = all.0 in
    let (tmp, filled, (res, run, iff)) = compare_item item name path rest has hp bp in
    let (result, later_run, match) =
      find-FirstMatch items (i + 1) n path rest all.1 hp bp (omega arith) in
    elim (Bool-cases (res == 0)) [
      | inl same ↦ (
        some item,
        ground (arith, found, filled, run, same),
        subst (λ l. FirstMatch path l (some item)) (sym first)
            (here name has (iff.0 ((==_iff res 0).0 same))),
      )
      | inr differs ↦ (
        result,
        ground (arith, found, filled, run, differs, later_run),
        subst (λ l. FirstMatch path l result) (sym first)
            (later (differs_all item path rest tmp res hp bp filled run differs) match),
      )
    ]

-- Where the first `n` items are named, their search returns, with the first of them whose name is
-- the text up to case, or with none where there is no such item.
pub find_item-FirstMatch :
    (items : List DirectoryItem) (n : ℕ) (path rest : List ℕ)
    → AllNamed (take n items)
    → NoNul path
    → Bytes path
    → n ≤ length items
    → (result : Option DirectoryItem) × (find_item items 0 n (c_string path rest) ≡ ok result)
      × FirstMatch path (take n items) result
find_item-FirstMatch items n path rest named hp bp fits =
    find-FirstMatch items 0 n path rest named hp bp (omega arith)

-- There is one first match.
pub FirstMatch-unique :
    (path : List ℕ) (items : List DirectoryItem) (r r' : Option DirectoryItem)
    → FirstMatch path items r
    → FirstMatch path items r'
    → r ≡ r'
FirstMatch-unique path [] r r' nothing nothing = refl
FirstMatch-unique path (item ∷ items) r r' (here name has same) (here _ _ _) = refl
FirstMatch-unique path (item ∷ items) r r' (here name has same) (later none_fits _) =
    absurd (none_fits name has same)
FirstMatch-unique path (item ∷ items) r r' (later none_fits _) (here name has same) =
    absurd (none_fits name has same)
FirstMatch-unique path (item ∷ items) r r' (later _ m) (later _ m') =
    FirstMatch-unique path items r r' m m'
