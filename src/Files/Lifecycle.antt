-- ===== src/Files/Lifecycle.antt =====
-- A file that `fopen` opens is read through the number that it returns.
use kernel_play.Prelude.{
  ℕ, ◌+◌, ◌-◌, ◌≡◌, ◌≢◌, ◌<◌, ap, ◌∙◌, List, [], ◌∷◌, arith, some, get_elem?, set,
  get_elem?-set_self, is_negative, int_lt, true, false, ◌==◌,
}
use kernel_play.Prelude.Run.{ok}
use kernel_play.Memory.{Memory}
use kernel_play.Heap.{Heap, kheap_zalloc}
use kernel_play.Disk.{disk_get}
use kernel_play.PathParser.{PathPart, parse_path_root}
use kernel_play.Files.{
  FileDescriptor, Files, Filesystem, opened, first_free, fopen, open_path, new_descriptor,
  get_file_mode, fread, mode_invalid,
}
use kernel_play.Files.Table.{IsTable, get_descriptor-slot}

module _ {S D : Type 0} (fs : Filesystem S D) (heap : Heap) where
  -- The steps of opening that lead to a descriptor: the allocations succeed, the path parses to
  -- parts on drive 0, the mode is known and the file system opens the file.
  pub record Opening (files : Files S D) (filename mode_str : List ℕ) (private : D) (state : S)
      (i : ℕ) : Type 0 where
    pub root : ℕ
    pub part : PathPart
    pub rest : List PathPart
    pub mode : ℕ
    pub addr : ℕ
    pub m0 : Memory
    pub m1 : Memory
    pub m2 : Memory
    pub m3 : Memory
    pub root_given : kheap_zalloc heap files.memory 8 ≡ ok (root, m0)
    pub root_some : root ≢ 0
    pub parsed :
        parse_path_root heap m0 filename (record { drive_no = 0; parts = [] })
        ≡ ok (0, record { drive_no = 0; parts = part ∷ rest }, m1)
    pub mounted : files.mounted ≡ true
    pub mode_read : get_file_mode mode_str ≡ ok mode
    pub mode_known : mode < 3
    pub found : fs.open_file files.state m1 (part ∷ rest) mode ≡ ok (opened private, state, m2)
    pub free : first_free files.slots ≡ some i
    pub given : kheap_zalloc heap m2 16 ≡ ok (addr, m3)
    pub given_some : addr ≢ 0

  pub open_run :
      (files : Files S D) (filename mode_str : List ℕ) (private : D) (state : S) (i : ℕ)
      → (o : Opening files filename mode_str private state i)
      → open_path fs heap files filename mode_str
        ≡ ok (
          i + 1,
          record files {
            slots =
                set files.slots i
                  (some (record { addr = o.addr; index = i + 1; private = private }));
            memory = o.m3;
            state = state;
          },
        )
  unfolding open_path new_descriptor disk_get
  open_run files filename mode_str private state i o =
      let root : (o.root == 0) ≡ false = ground (arith, o.root_some) in
      let known : (o.mode == mode_invalid) ≡ false = ground (arith, o.mode_known) in
      let addr : (o.addr == 0) ≡ false = ground (arith, o.given_some) in
      ground (
        arith, o.root_given, root, o.parsed, o.mounted, o.mode_read, known, o.found, o.free,
        o.given, addr,
      )

  -- When opening goes through and the first empty slot has an index below 511, `fopen` returns the
  -- number of that slot, and an `fread` of that number reads the private descriptor that the file
  -- system gave, in the state that opening left, and gives what the file system gives.
  pub fopen-fread :
      (files : Files S D) (filename mode_str : List ℕ) (private : D) (state next : S)
      (i size nmemb res : ℕ) (out : List ℕ)
      → IsTable files.slots
      → i < 511
      → Opening files filename mode_str private state i
      → 0 < size
      → 0 < nmemb
      → fs.read state private size nmemb ≡ ok (res, out, next)
      → (after : Files S D) × (fopen fs heap files filename mode_str ≡ ok (i + 1, after))
        × (fread fs heap after size nmemb (i + 1) ≡ ok (res, out, record after { state = next }))
  unfolding fopen fread
  fopen-fread files filename mode_str private state next i size nmemb res out t small o some_size
        some_members reads =
      let desc : FileDescriptor D = record { addr = o.addr; index = i + 1; private = private } in
      let after : Files S D = record files {
        slots = set files.slots i (some desc);
        memory = o.m3;
        state = state;
      } in
      let run = open_run files filename mode_str private state i o in
      let positive : is_negative (i + 1) ≡ false = ground arith in
      let place : i + 1 - 1 ≡ i = omega arith in
      let own : get_elem? after.slots (i + 1 - 1) ≡ some (some desc) =
        ap (get_elem? after.slots) place
        ∙ get_elem?-set_self files.slots i (some desc) (omega (arith, t.size)) in
      let found =
        get_descriptor-slot after.slots (i + 1) (some desc) (omega arith) (omega arith) own in
      let sized : (size == 0) ≡ false = ground arith in
      let counted : (nmemb == 0) ≡ false = ground arith in
      let numbered : int_lt (i + 1) 1 ≡ false = ground arith in
      (after, ground (arith, run, positive), ground (arith, sized, counted, numbered, found, reads))
