-- ===== src/Fat/Walk.antt =====
-- The walk of fat16_get_directory_entry below the root directory, through any number of
-- directories, and where a component is missing.
use kernel_play.Prelude.{ℕ, ◌≡◌, refl, sym, ap, ◌∙◌, List, [], ◌∷◌, ◌++◌, arith, none, some}
use mathlib.Core.List.{append-nil}
use kernel_play.Prelude.Run.{ok, fault}
use kernel_play.Memory.{Memory}
use kernel_play.Heap.{Heap}
use kernel_play.Disk.{Drive}
use kernel_play.PathParser.{PathPart}
use kernel_play.Fat.Layout.{FatPrivate, FatDirectory, FatItem, DirectoryItem, directory, file}
use kernel_play.Fat.Directory.{get_item_in_directory, fat_item_free}
use kernel_play.Fat.File.{walk_parts, get_directory_entry}

-- What the walk holds between two components: the current item with its address, the state of the
-- volume and the memory.
pub record Place : Type 0 where
  pub addr : ℕ
  pub item : FatItem
  pub fp : FatPrivate
  pub memory : Memory

module _ (drive : Drive) (sector_size fuel : ℕ) (heap : Heap) where
  -- A component that the directory holds.
  pub record Enters (p : Place) (part : PathPart) (q : Place) : Type 0 where
    pub ptr : ℕ
    pub dir : FatDirectory
    pub is_directory : p.item ≡ directory ptr (some dir)
    pub before : Memory
    pub found :
        get_item_in_directory drive sector_size fuel heap p.memory p.fp dir (part.name ++ 0 ∷ [])
        ≡ ok (some (q.addr, q.item), q.fp, before)
    pub freed : fat_item_free heap before p.addr p.item ≡ ok q.memory

  -- The components of a path in a row.
  pub data Walked : Place → List PathPart → Place → Type 0 where
    arrived : {p : Place} → Walked p [] p
    entered :
        {p q r : Place} {part : PathPart} {parts : List PathPart}
        → Enters p part q
        → Walked q parts r
        → Walked p (part ∷ parts) r

  walk_step :
      (p q : Place) (ptr : ℕ) (dir : FatDirectory) (before : Memory) (part : PathPart)
      (back : List PathPart)
      → get_item_in_directory drive sector_size fuel heap p.memory p.fp dir (part.name ++ 0 ∷ [])
        ≡ ok (some (q.addr, q.item), q.fp, before)
      → fat_item_free heap before p.addr (directory ptr (some dir)) ≡ ok q.memory
      → walk_parts drive sector_size fuel heap p.memory p.fp
          (some (p.addr, directory ptr (some dir)))
          (part ∷ back)
        ≡ walk_parts drive sector_size fuel heap q.memory q.fp (some (q.addr, q.item)) back
  unfolding walk_parts
  walk_step p q ptr dir before part back found freed = ground (arith, found, freed)

  walk-Walked :
      (p r : Place) (front back : List PathPart)
      → Walked p front r
      → walk_parts drive sector_size fuel heap p.memory p.fp (some (p.addr, p.item)) (front ++ back)
        ≡ walk_parts drive sector_size fuel heap r.memory r.fp (some (r.addr, r.item)) back
  walk-Walked p _ _ back arrived = refl
  walk-Walked p r _ back (entered {q = q} {part = part} {parts = parts} e w) =
      let freed : fat_item_free heap e.before p.addr (directory e.ptr (some e.dir)) ≡ ok q.memory =
        ap (fat_item_free heap e.before p.addr) (sym e.is_directory) ∙ e.freed in
      ap
        (λ x.
          walk_parts drive sector_size fuel heap p.memory p.fp (some (p.addr, x))
            (part ∷ (parts ++ back)))
        e.is_directory
      ∙ walk_step p q e.ptr e.dir e.before part (parts ++ back) e.found freed
      ∙ walk-Walked q r parts back w

  entry-Walked :
      (m : Memory) (fp : FatPrivate) (p r : Place) (first : PathPart) (front back : List PathPart)
      → get_item_in_directory drive sector_size fuel heap m fp fp.root_directory
          (first.name ++ 0 ∷ [])
        ≡ ok (some (p.addr, p.item), p.fp, p.memory)
      → Walked p front r
      → get_directory_entry drive sector_size fuel heap m fp (first ∷ (front ++ back))
        ≡ walk_parts drive sector_size fuel heap r.memory r.fp (some (r.addr, r.item)) back
  unfolding get_directory_entry
  entry-Walked m fp p r first front back found w =
      let walk = walk-Walked p r front back w in rw found walk

  -- A path whose components are found one after the other, each but the last a directory, resolves
  -- to the last one, with the items of the others freed. Where that is a directory that does not
  -- hold the next component, the walk gives no item if the path ends there, and goes through a null
  -- pointer if it goes on.
  pub missing_component :
      (m m' m'' : Memory) (fp fp' : FatPrivate) (p r : Place) (ptr : ℕ) (dir : FatDirectory)
      (first second third : PathPart) (front rest : List PathPart)
      → get_item_in_directory drive sector_size fuel heap m fp fp.root_directory
          (first.name ++ 0 ∷ [])
        ≡ ok (some (p.addr, p.item), p.fp, p.memory)
      → Walked p front r
      → r.item ≡ directory ptr (some dir)
      → get_item_in_directory drive sector_size fuel heap r.memory r.fp dir (second.name ++ 0 ∷ [])
        ≡ ok (none, fp', m')
      → fat_item_free heap m' r.addr (directory ptr (some dir)) ≡ ok m''
      → (get_directory_entry drive sector_size fuel heap m fp (first ∷ front)
          ≡ ok (some (r.addr, r.item), r.fp, r.memory))
        × (get_directory_entry drive sector_size fuel heap m fp (first ∷ (front ++ second ∷ []))
            ≡ ok (none, fp', m''))
        × (get_directory_entry drive sector_size fuel heap m fp
              (first ∷ (front ++ second ∷ third ∷ rest))
            ≡ fault)
  unfolding walk_parts
  missing_component m m' m'' fp fp' p r ptr dir first second third front rest found w is missing
        freed =
      (
        ap (λ l. get_directory_entry drive sector_size fuel heap m fp (first ∷ l))
              (sym (append-nil front))
            ∙ entry-Walked m fp p r first front [] found w,
        entry-Walked m fp p r first front (second ∷ []) found w
            ∙ rw is (ground (arith, missing, freed)),
        entry-Walked m fp p r first front (second ∷ third ∷ rest) found w
            ∙ rw is (ground (arith, missing, freed)),
      )

  -- A file is no directory: a path that goes on behind it gives no item, and the file's item stays
  -- allocated.
  pub file_component :
      (m : Memory) (fp : FatPrivate) (p r : Place) (ptr : ℕ) (item : DirectoryItem)
      (first second : PathPart) (front rest : List PathPart)
      → get_item_in_directory drive sector_size fuel heap m fp fp.root_directory
          (first.name ++ 0 ∷ [])
        ≡ ok (some (p.addr, p.item), p.fp, p.memory)
      → Walked p front r
      → r.item ≡ file ptr (some item)
      → get_directory_entry drive sector_size fuel heap m fp (first ∷ (front ++ second ∷ rest))
        ≡ ok (none, r.fp, r.memory)
  unfolding walk_parts
  file_component m fp p r ptr item first second front rest found w is =
      entry-Walked m fp p r first front (second ∷ rest) found w ∙ rw is refl
