-- ===== src/Files/Table.antt =====
-- The table of descriptors: the search for an empty slot, and the numbers that it gives.
use kernel_play.Prelude.{
  length-replicate, ℕ, zero, suc, ◌+◌, ◌-◌, ◌≡◌, ◌≢◌, ◌<◌, refl, ◌∙◌, List, [], ◌∷◌, arith, length,
  none, some, Option, get_elem?, set, length-set, get_elem?-set_self, get_elem?-set_ne, ℕ_discrete,
  inl, inr, Option-cases, subst, sym, replicate,
}
use kernel_play.Prelude.Run.{ok, fault}
use kernel_play.Heap.{Heap}
use kernel_play.Files.{FileDescriptor, Files, Filesystem, fs_init, first_free, file_get_descriptor}

pub get_elem?-inside {ℓ} :
    {A : Type ℓ} (xs : List A) (i : ℕ) → i < length xs → get_elem? xs i ≢ none
get_elem?-inside [] i h e = omega arith
get_elem?-inside (x ∷ xs) zero h e = cc
get_elem?-inside (x ∷ xs) (suc i) h e = get_elem?-inside xs i (omega arith) e

module _ {D : Type 0} where
  -- The search gives an empty slot, and every slot before it is in use.
  pub record IsFirstFree (slots : List (Option (FileDescriptor D))) (i : ℕ) : Type 0 where
    pub empty : get_elem? slots i ≡ some none
    pub inside : i < length slots
    pub before : (j : ℕ) → j < i → get_elem? slots j ≢ some none

  before-cons :
      (d : FileDescriptor D) (slots : List (Option (FileDescriptor D))) (k : ℕ)
      → ((j : ℕ) → j < k → get_elem? slots j ≢ some none)
      → (j : ℕ) → j < suc k
      → get_elem? (some d ∷ slots) j ≢ some none
  before-cons d slots k h zero lt = λ e. cc
  before-cons d slots k h (suc j) lt = h j (omega arith)

  pub first_free-some :
      (slots : List (Option (FileDescriptor D))) (i : ℕ)
      → first_free slots ≡ some i
      → IsFirstFree slots i
  unfolding first_free
  first_free-some [] i h = cc
  first_free-some (none ∷ slots) i h =
      let e : i ≡ 0 = ground arith in
      rw e (record { empty = refl; inside = omega arith; before = λ j lt. absurd (omega arith) })
  first_free-some (some d ∷ slots) i h = elim (Option-cases (first_free slots)) [
    | inl e ↦ absurd (ground (arith, e))
    | inr (k, e) ↦
        let later = first_free-some slots k e in
        let same : i ≡ suc k = ground (arith, e) in
        rw same (record {
          empty = later.empty;
          inside = omega (arith, later.inside);
          before = before-cons d slots k later.before;
        })
  ]

  -- Where no slot is empty the search gives none, and only then.
  pub first_free-none :
      (slots : List (Option (FileDescriptor D))) (i : ℕ)
      → first_free slots ≡ none
      → get_elem? slots i ≢ some none
  unfolding first_free
  first_free-none [] i h e = cc
  first_free-none (none ∷ slots) i h e = cc
  first_free-none (some d ∷ slots) zero h e = cc
  first_free-none (some d ∷ slots) (suc i) h e = first_free-none slots i (ground arith) e

  -- The invariant of the table: it has 512 slots, and a descriptor carries the number of its slot.
  pub record IsTable (slots : List (Option (FileDescriptor D))) : Type 0 where
    pub size : length slots ≡ 512
    pub numbered :
        (i : ℕ) (desc : FileDescriptor D)
        → get_elem? slots i ≡ some (some desc)
        → desc.index ≡ i + 1

  -- Filling a slot with a descriptor of its number keeps the invariant, and so does emptying one.
  pub set-IsTable :
      (slots : List (Option (FileDescriptor D))) (i : ℕ) (slot : Option (FileDescriptor D))
      → IsTable slots
      → i < 512
      → ((desc : FileDescriptor D) → slot ≡ some desc → desc.index ≡ i + 1)
      → IsTable (set slots i slot)
  set-IsTable slots i slot t inside h = record {
    size = length-set slots i slot ∙ t.size;
    numbered = λ j desc e. elim (ℕ_discrete i j) [
      | yes same ↦
          let own = get_elem?-set_self slots i slot (omega (arith, t.size)) in
          let found : get_elem? (set slots i slot) i ≡ some (some desc) =
            subst (λ k. get_elem? (set slots i slot) k ≡ some (some desc)) (sym same) e in
          let is : slot ≡ some desc = cc (own, found) in omega (arith, h desc is, same)
      | no ne ↦ t.numbered j desc (ground (arith, get_elem?-set_ne slots slot ne, e))
    ];
  }

  -- A number from 1 to 511 gives the slot before it.
  pub get_descriptor-slot :
      (slots : List (Option (FileDescriptor D))) (fd : ℕ) (slot : Option (FileDescriptor D))
      → 0 < fd
      → fd < 512
      → get_elem? slots (fd - 1) ≡ some slot
      → file_get_descriptor slots fd ≡ ok slot
  unfolding file_get_descriptor
  get_descriptor-slot slots fd slot pos small e = ground (arith, e)

  -- The number 0 reads before the array, and 512 is refused although it is the number of the last
  -- slot.
  pub get_descriptor_ends :
      (slots : List (Option (FileDescriptor D)))
      → (file_get_descriptor slots 0 ≡ fault) × (file_get_descriptor slots 512 ≡ ok none)
  unfolding file_get_descriptor
  get_descriptor_ends slots = (refl, refl)

get_elem?-replicate {ℓ} :
    {A : Type ℓ} (n : ℕ) (x y : A) (i : ℕ) → get_elem? (replicate n x) i ≡ some y → x ≡ y
get_elem?-replicate zero x y i h = cc
get_elem?-replicate (suc n) x y zero h = cc
get_elem?-replicate (suc n) x y (suc i) h = get_elem?-replicate n x y i h

module _ {S D : Type 0} (fs : Filesystem S D) (heap : Heap) where
  -- `fs_init` establishes the invariant.
  pub fs_init-IsTable : (files : Files S D) → IsTable (fs_init fs heap files).slots
  unfolding fs_init
  fs_init-IsTable files = record {
    size = length-replicate {A = Option (FileDescriptor D)} 512 none;
    numbered = λ i desc e.
        let empty : none ≡ some desc = get_elem?-replicate 512 none (some desc) i e in
        absurd (cc empty);
  }
