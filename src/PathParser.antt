-- ===== src/PathParser.antt =====
-- fs/pparser.c: paths such as "0:/a/b" as a drive number and a linked list of parts on the heap.
pub mod Parts
pub mod Roots
pub mod Release
use kernel_play.Prelude.{
  ℕ, zero, suc, ◌+◌, ◌-◌, Bool, true, false, not, ◌||◌, List, [], ◌∷◌, ◌++◌, Option, if◌then◌else◌,
  ◌==◌, ltb, int_lt, is_negative, drop, word, length,
}
use kernel_play.Prelude.Run.{Run, ok, fault, ◌>>=◌}
use kernel_play.Config.{einvarg}
use kernel_play.Memory.{Memory, memcmp}
use kernel_play.Heap.{Heap, kheap_zalloc, kheap_free}
use kernel_play.Text.{strlen, is_digit, char_to_numeric, load}

abbrev pub max_path : ℕ
max_path = 256

-- `path_part_t`: its address, that of its name, and the bytes of the name before the terminator.
-- A chain of parts is a list of them.
pub record PathPart : Type 0 where
  pub addr : ℕ
  pub name_addr : ℕ
  pub name : List ℕ

-- `path_root_t`. No parts is the null pointer.
pub record PathRoot : Type 0 where
  pub drive_no : ℕ
  pub parts : List PathPart

-- The result, the drive number and the rest of the path.
unfoldable pub parse_drive_no : List ℕ → Run (ℕ × ℕ × List ℕ)
parse_drive_no path_str = do
  first_byte ← load path_str 0
  if not (is_digit first_byte)
      then ok (einvarg, 0, path_str)
      else ok (0, char_to_numeric first_byte, drop 1 path_str)

-- The test is for a negative result, and `memcmp` returns 1 for a path that is smaller.
unfoldable pub validate_start_of_path : List ℕ → Run (ℕ × List ℕ)
validate_start_of_path path_str = do
  r ← memcmp (b':' ∷ b'/' ∷ []) path_str 2
  if is_negative r then ok (einvarg, path_str) else ok (0, drop 2 path_str)

-- The walk to the next separator: the bytes passed, and the path from the separator on.
unfoldable pub split_name : List ℕ → Run (List ℕ × List ℕ)
split_name [] = fault
split_name (c ∷ p) =
    if (c == b'/') || (c == 0)
    then ok ([], c ∷ p)
    else do (name, rest) ← split_name p; ok (c ∷ name, rest)

-- `pparser_parse_path_parts` for the part at `addr`, one level for each unit of fuel. A null
-- pointer from the heap is a fault at the first store.
unfoldable pub parse_path_parts : Heap → ℕ → Memory → List ℕ → ℕ → Run (ℕ × List PathPart × Memory)
parse_path_parts heap zero m path_str addr = Run.out_of_fuel
parse_path_parts heap (suc fuel) m path_str addr = do
  (name, p) ← split_name path_str
  (name_addr, m') ← kheap_zalloc heap m (length name + 1)
  if name_addr == 0 then fault else do
    let part : PathPart = record { addr = addr; name_addr = name_addr; name = name }
    c ← load p 0
    if c == 0 then ok (0, part ∷ [], m') else do
      (next_part, m'') ← kheap_zalloc heap m' 8
      if next_part == 0 then fault else do
        (r, next, m''') ← parse_path_parts heap fuel m'' (drop 1 p) next_part
        if is_negative r then ok (r, part ∷ [], m''') else ok (0, part ∷ next, m''')

-- The fuel is the number of bytes of the path and one more: each level passes a separator.
unfoldable pub parse_path_root : Heap → Memory → List ℕ → PathRoot → Run (ℕ × PathRoot × Memory)
parse_path_root heap m path_str path_root = do
  len ← strlen path_str
  if int_lt max_path (word len) then ok (einvarg, path_root, m) else do
    (r, drive_no, p_str) ← parse_drive_no path_str
    if is_negative r then ok (r, path_root, m) else do
      (r', p_str') ← validate_start_of_path p_str
      if is_negative r' then ok (r', path_root, m) else do
        (path_part, m') ← kheap_zalloc heap m 8
        if path_part == 0 then fault else do
          (r'', parts, m'') ← parse_path_parts heap (length p_str' + 1) m' p_str' path_part
          if is_negative r''
              then ok (r'', path_root, m'')
              else ok (0, record { drive_no = drive_no; parts = parts }, m'')

-- `pparser_free_path_part`: the name, then the parts that follow, then the part itself.
unfoldable pub free_path_part : Heap → Memory → List PathPart → Run Memory
free_path_part heap m [] = fault
free_path_part heap m (part ∷ []) = do
  m' ← kheap_free heap m part.name_addr
  kheap_free heap m' part.addr
free_path_part heap m (part ∷ next ∷ rest) = do
  m' ← kheap_free heap m part.name_addr
  m'' ← free_path_part heap m' (next ∷ rest)
  kheap_free heap m'' part.addr

unfoldable pub free_path_root : Heap → Memory → ℕ → PathRoot → Run Memory
free_path_root heap m addr path_root = do
  m' ← free_path_part heap m path_root.parts
  kheap_free heap m' addr
