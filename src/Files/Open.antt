-- ===== src/Files/Open.antt =====
-- What opening a file does to the table of descriptors.
use kernel_play.Prelude.{
  ℕ, ◌+◌, ◌≡◌, refl, ◌∙◌, List, arith, none, some, Option, set, is_negative, Bool, not, true, false,
  ◌==◌, subst, sym, if◌then◌else◌,
}
use kernel_play.Prelude.Run.{Run, ok, fault, out_of_fuel, ◌>>=◌, Ends, Ends-bind, Ends-if}
use kernel_play.Heap.{Heap, kheap_zalloc}
use kernel_play.Disk.{DiskRef, null, disk_get}
use kernel_play.PathParser.{parse_path_root}
use kernel_play.Files.{
  FileDescriptor, Files, Filesystem, OpenedFile, no_file, failed, opened, first_free, fopen,
  is_empty, mode_invalid, open_path, new_descriptor, get_file_mode,
}
use kernel_play.Files.Table.{IsTable, IsFirstFree, first_free-some, set-IsTable}

-- `Ends` at the branches of `fopen`.
Ends-test {ℓ κ} :
    {A : Type ℓ} (P : A → Type κ) (b : Bool) (x y : Run A)
    → (b ≡ true → Ends P x)
    → Ends P y
    → Ends P (if b then x else y)
Ends-test P true x y h k = h refl
Ends-test P false x y h k = k

Ends-option {ℓ κ μ} :
    {A : Type ℓ} {B : Type κ} (P : B → Type μ) (o : Option A) (x : Run B) (f : A → Run B)
    → (o ≡ none → Ends P x)
    → ((a : A) → o ≡ some a → Ends P (f a))
    → Ends P (elim o [ none ↦ x | some a ↦ f a ])
Ends-option P none x f h k = h refl
Ends-option P (some a) x f h k = k a refl

Ends-disk {ℓ κ} :
    {A : Type ℓ} (P : A → Type κ) (r : DiskRef) (x y : Run A)
    → Ends P x
    → Ends P y
    → Ends P (elim r [ null ↦ x | _ ↦ y ])
Ends-disk P null x y h k = h
Ends-disk P _ x y h k = k

Ends-opened {ℓ κ} :
    {D : Type 0} {A : Type ℓ} (P : A → Type κ) (o : OpenedFile D) (x : Run A) (f : ℕ → Run A)
    (g : D → Run A)
    → Ends P x
    → ((code : ℕ) → Ends P (f code))
    → ((d : D) → Ends P (g d))
    → Ends P (elim o [ no_file ↦ x | failed code ↦ f code | opened d ↦ g d ])
Ends-opened P no_file x f g h k l = h
Ends-opened P (failed code) x f g h k l = k code
Ends-opened P (opened d) x f g h k l = l d

Ends-then {ℓ κ μ ν} :
    {A : Type ℓ} {B : Type κ} (Q : A → Type μ) (P : B → Type ν) (m : Run A) (f : A → Run B)
    → Ends Q m
    → ((a : A) → Q a → Ends P (f a))
    → Ends P (m >>= f)
Ends-then Q P (ok a) f h k = k a h
Ends-then Q P fault f h k = tt
Ends-then Q P out_of_fuel f h k = tt

module _ {S D : Type 0} (fs : Filesystem S D) (heap : Heap) where
  -- The result of opening: a failure that leaves the table, or the number of the first empty slot,
  -- which then holds a descriptor with that number.
  pub data Answer (slots : List (Option (FileDescriptor D))) (res : ℕ) (after : Files S D)
      : Type 0 where
    refused : is_negative res ≡ true → after.slots ≡ slots → Answer slots res after
    granted :
        (i : ℕ) (desc : FileDescriptor D)
        → IsFirstFree slots i
        → res ≡ i + 1
        → desc.index ≡ res
        → after.slots ≡ set slots i (some desc)
        → Answer slots res after

  abbrev Opens : Files S D → ℕ × Files S D → Type 0
  Opens files out = Answer files.slots out.0 out.1

  new_descriptor_lem :
      (files : Files S D) (private : D) → Ends (Opens files) (new_descriptor fs heap files private)
  unfolding new_descriptor
  new_descriptor_lem files private =
      Ends-option (Opens files) (first_free files.slots) _ _ (λ e. refused refl refl)
        (λ i e. Ends-bind (Opens files) (kheap_zalloc heap files.memory 16) _ (λ out.
          Ends-if (Opens files) (out.0 == 0) fault _ tt
            (granted i _ (first_free-some files.slots i e) refl refl refl)))

  open_path_lem :
      (files : Files S D) (filename mode_str : List ℕ)
      → Ends (Opens files) (open_path fs heap files filename mode_str)
  unfolding open_path
  open_path_lem files filename mode_str =
      let P = Opens files in
      Ends-bind P (kheap_zalloc heap files.memory 8) _ (λ root.
        Ends-bind P (parse_path_root heap root.1 filename _) _ (λ parsed.
          Ends-test P (is_negative parsed.0) _ _ (λ e. refused e refl)
            (Ends-if P (root.0 == 0) fault _ tt (
              Ends-if P (is_empty parsed.1.parts) _ _ (refused refl refl) (
                Ends-disk P (disk_get parsed.1.drive_no) _ _ (refused refl refl) (
                  Ends-if P (not files.mounted) _ _ (refused refl refl) (
                    Ends-bind P (get_file_mode mode_str) _ (λ mode.
                      Ends-if P (mode == mode_invalid) _ _ (refused refl refl) (
                        Ends-bind P (fs.open_file files.state parsed.2 parsed.1.parts mode) _
                          (λ out.
                            Ends-opened P out.0 _ _ _ (refused refl refl)
                              (λ code. Ends-test P (is_negative code) _ _ (λ e. refused e refl) tt)
                              (λ d. new_descriptor_lem _ d)))))))))))

  -- What `fopen` returns: 0 with the table as it was, or the number of the first empty slot, which
  -- then holds a descriptor that carries this number.
  pub data Outcome (slots : List (Option (FileDescriptor D))) (fd : ℕ) (after : Files S D)
      : Type 0 where
    unopened : fd ≡ 0 → after.slots ≡ slots → Outcome slots fd after
    took :
        (i : ℕ) (desc : FileDescriptor D)
        → IsFirstFree slots i
        → fd ≡ i + 1
        → desc.index ≡ fd
        → after.slots ≡ set slots i (some desc)
        → Outcome slots fd after

  -- The result of `fopen`, with the files behind it.
  abbrev pub Outcomes : Files S D → ℕ × Files S D → Type 0
  Outcomes files out = IsTable out.1.slots × Outcome files.slots out.0 out.1

  outcome :
      (files : Files S D) (out : ℕ × Files S D)
      → IsTable files.slots
      → Opens files out
      → Ends (Outcomes files) (if is_negative out.0 then ok (0, out.1) else ok out)
  outcome files (res, after) t (refused neg same) =
      rw neg (subst IsTable (sym same) t, unopened refl same)
  outcome files (res, after) t (granted i desc free is own same) =
      let small : is_negative res ≡ false = ground (arith, is, free.inside, t.size) in
      let kept : IsTable (set files.slots i (some desc)) =
        set-IsTable files.slots i (some desc) t (omega (arith, free.inside, t.size)) (λ d e.
          let same_desc : desc ≡ d = cc in subst (λ x. x.index ≡ i + 1) same_desc (own ∙ is)) in
      rw small (subst IsTable (sym same) kept, took i desc free is own same)

  -- Whenever `fopen` returns, the table keeps its invariant, and either the result is 0 and the
  -- table is as it was, or the result is the number of the first empty slot, which now holds a
  -- descriptor of that number.
  pub fopen-Outcomes :
      (files : Files S D) (filename mode_str : List ℕ)
      → IsTable files.slots
      → Ends (Outcomes files) (fopen fs heap files filename mode_str)
  unfolding fopen
  fopen-Outcomes files filename mode_str t =
      Ends-then (Opens files) (Outcomes files) (open_path fs heap files filename mode_str) _
        (open_path_lem files filename mode_str) (λ out h. outcome files out t h)
