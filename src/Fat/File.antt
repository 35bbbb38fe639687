-- ===== src/Fat/File.antt =====
-- The operations of the `filesystem_t` of fat16.c, and the walk along a path that opening does.
use kernel_play.Prelude.{
  ℕ, zero, suc, not, Option, none, some, List, [], ◌∷◌, ◌++◌, if◌then◌else◌, ◌==◌, ◌+w◌, ltb,
  bit_or,
}
use kernel_play.Prelude.Run.{Run, ok, fault, ◌>>=◌}
use kernel_play.Config.{eio, enomem, einvarg, erdonly, eunimp}
use kernel_play.Memory.{Memory}
use kernel_play.Heap.{Heap, kheap_zalloc, kheap_free}
use kernel_play.Disk.{Drive}
use kernel_play.PathParser.{PathPart}
use kernel_play.Fat.Layout.{FatPrivate, FatItem, directory, file, FatFileDescriptor}
use kernel_play.Fat.Clusters.{get_first_cluster, read_internal}
use kernel_play.Fat.Directory.{fat_item_free, get_item_in_directory}

-- The modes of `FILE_MODE` and the origins of `FILE_SEEK_MODE`, numbers in the code.
abbrev pub mode_read : ℕ
mode_read = 0

abbrev pub seek_set : ℕ
seek_set = 0

abbrev pub seek_cur : ℕ
seek_cur = 1

abbrev pub seek_end : ℕ
seek_end = 2

abbrev pub signature : ℕ
signature = 0x29

-- `file_stat_t`.
pub record FileStat : Type 0 where
  pub flags : ℕ
  pub filesize : ℕ

-- The pointer that `fat16_open` returns: an error code, or a descriptor.
pub data Opened : Type 0 where
  failed : ℕ → Opened
  opened : ℕ → FatFileDescriptor → Opened

-- `fat16_seek`. The offset is compared as an unsigned number.
unfoldable pub fat16_seek : FatFileDescriptor → ℕ → ℕ → Run (ℕ × FatFileDescriptor)
fat16_seek desc offset whence = elim desc.item [
  | directory _ _ ↦ ok (einvarg, desc)
  | file _ none ↦ fault
  | file _ (some real_item) ↦
      if ltb real_item.filesize offset
      then ok (einvarg, desc)
      else if whence == seek_set
      then ok (0, record desc { pos = offset })
      else if whence == seek_cur
      then ok (0, record desc { pos = desc.pos +w offset })
      else if whence == seek_end
      then ok (eunimp, desc)
      else ok (einvarg, desc)
]

-- `fat16_stat`, with the condition as it is written.
unfoldable pub fat16_stat : FatFileDescriptor → FileStat → Run (ℕ × FileStat)
fat16_stat desc stat = elim desc.item [
  | directory _ _ ↦ ok (einvarg, stat)
  | file _ none ↦ fault
  | file _ (some r_item) ↦
      let flags : ℕ = if not (bit_or r_item.attribute 0x01 == 0) then 0 else 0x00 in
      ok (0, record { flags = flags; filesize = r_item.filesize })
]

unfoldable pub fat16_close : Heap → Memory → ℕ → FatFileDescriptor → Run (ℕ × Memory)
fat16_close heap m addr desc = do
  m' ← fat_item_free heap m desc.item_addr desc.item
  m'' ← kheap_free heap m' addr
  ok (0, m'')

module _ (drive : Drive) (sector_size : ℕ) where
  -- The loop of `fat16_read` over the members that are left, with the bytes stored in order.
  unfoldable pub read_members : ℕ → FatPrivate → ℕ → ℕ → ℕ → Run (ℕ × List ℕ × FatPrivate)
  read_members zero fat_private cluster offset size = ok (0, [], fat_private)
  read_members (suc n) fat_private cluster offset size = do
    (res, out, fp') ← read_internal drive sector_size fat_private cluster offset size
    if not (res == 0) then ok (res, out, fp') else do
      (res', rest, fp'') ← read_members n fp' cluster (offset +w size) size
      ok (res', out ++ rest, fp'')

  -- `fat16_read` reads the union as a file; of a directory that is a fault. The position of the
  -- descriptor does not change.
  unfoldable pub fat16_read : FatPrivate → FatFileDescriptor → ℕ → ℕ → Run (ℕ × List ℕ × FatPrivate)
  fat16_read fat_private desc size nmemb = elim desc.item [
    | directory _ _ ↦ fault
    | file _ none ↦ fault
    | file _ (some item) ↦ read_members nmemb fat_private (get_first_cluster item) desc.pos size
  ]

module _ (drive : Drive) (sector_size fuel : ℕ) where
  -- The loop of `fat16_get_directory_entry` over the parts that are left.
  unfoldable pub walk_parts :
      Heap
      → Memory
      → FatPrivate
      → Option (ℕ × FatItem)
      → List PathPart
      → Run (Option (ℕ × FatItem) × FatPrivate × Memory)
  walk_parts heap m fp current [] = ok (current, fp, m)
  walk_parts heap m fp none (part ∷ rest) = fault
  walk_parts heap m fp (some (addr, file ptr item)) (part ∷ rest) = ok (none, fp, m)
  walk_parts heap m fp (some (addr, directory ptr none)) (part ∷ rest) = fault
  walk_parts heap m fp (some (addr, directory ptr (some dir))) (part ∷ rest) = do
    (tmp_item, fp', m') ←
        get_item_in_directory drive sector_size fuel heap m fp dir (part.name ++ 0 ∷ [])
    m'' ← fat_item_free heap m' addr (directory ptr (some dir))
    walk_parts heap m'' fp' tmp_item rest

  unfoldable pub get_directory_entry :
      Heap → Memory → FatPrivate → List PathPart → Run (Option (ℕ × FatItem) × FatPrivate × Memory)
  get_directory_entry heap m fp [] = fault
  get_directory_entry heap m fp (part ∷ rest) = do
    (root_item, fp', m') ←
        get_item_in_directory drive sector_size fuel heap m fp fp.root_directory
          (part.name ++ 0 ∷ [])
    elim root_item [
      | none ↦ ok (none, fp', m')
      | some item ↦ walk_parts heap m' fp' (some item) rest
    ]

  unfoldable pub fat16_open :
      Heap → Memory → FatPrivate → List PathPart → ℕ → Run (Opened × FatPrivate × Memory)
  fat16_open heap m fp path mode =
      if not (mode == mode_read) then ok (failed erdonly, fp, m) else do
        (addr, m') ← kheap_zalloc heap m 8
        if addr == 0 then ok (failed enomem, fp, m') else do
          (entry, fp', m'') ← get_directory_entry heap m' fp path
          elim entry [
            | none ↦ ok (failed eio, fp', m'')
            | some (item_addr, item) ↦
                ok (opened addr (record { item_addr = item_addr; item = item; pos = 0 }), fp', m'')
          ]
