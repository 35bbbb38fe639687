-- ===== src/Volume/Room.antt =====
-- The blocks that opening a file of the root directory takes from a heap that is filled from its
-- start, with no descriptor in use.
use kernel_play.Prelude.{
  ℕ, ◌+◌, ◌*◌, ◌≡◌, ◌≢◌, ◌≤◌, ◌<◌, refl, subst, arith, List, [], none, length, replicate,
}
use kernel_play.Prelude.Run.{ok}
use kernel_play.Memory.{Memory}
use kernel_play.Heap.{Heap, kheap_zalloc}
use kernel_play.Heap.Singles.{IsUsable, Singles, block, upto, zalloc_next}
use kernel_play.PathParser.Parts.{IsName}
use kernel_play.PathParser.Roots.{path_of}
use kernel_play.PathParser.Release.{root_placed}
use kernel_play.Fat.Layout.{FatPrivate, size_of_item}
use kernel_play.Files.{Files, first_free}
use kernel_play.Volume.{Handle}
use kernel_play.Volume.Content.{Room}

-- The room in the seven blocks from `k` on, in the order in which opening takes them.
pub record FromStart (heap : Heap) (files : Files FatPrivate Handle) (name tail : List ℕ) (k : ℕ)
    : Type 0 where
  pub room : Room heap files (path_of 0 name [] tail) 0
  pub named : room.part.name ≡ name
  pub desc_at : room.opens.desc ≡ block heap (k + 3)
  pub item_at : room.opens.item ≡ block heap (k + 4)
  pub copy_at : room.opens.copy ≡ block heap (k + 5)
  pub addr_at : room.addr ≡ block heap (k + 6)
  pub behind_desc : Singles heap room.opens.m1 (upto (k + 4))
  pub full : Singles heap room.m2 (upto (k + 7))

module _ (heap : Heap) (usable : IsUsable heap) where
  block_some : (k : ℕ) → block heap k ≢ 0
  block_some k = omega (arith, usable.placed.apart)

  next :
      (m : Memory) (k k' size : ℕ)
      → k + 1 ≡ k'
      → 0 < size
      → size ≤ 4096
      → k < heap.table.size
      → Singles heap m (upto k)
      → (m' : Memory) × (kheap_zalloc heap m size ≡ ok (block heap k, m'))
        × Singles heap m' (upto k')
  next m k k' size e some_size small lt s =
      let (m', run, after) = zalloc_next heap usable m k size some_size small lt s in
      (m', run, subst (λ j. Singles heap m' (upto j)) e after)

  pub Singles-FromStart :
      (files : Files FatPrivate Handle) (k : ℕ) (name tail : List ℕ)
      → files.slots ≡ replicate 512 none
      → IsName name
      → length name ≤ 253
      → k + 7 ≤ heap.table.size
      → Singles heap files.memory (upto k)
      → FromStart heap files name tail k
  unfolding first_free
  Singles-FromStart files k name tail empty clean short fits s =
      let (m0, root_run, s0) =
        next files.memory k (k + 1) 8 refl (omega arith) (omega arith) (omega arith) s in
      let (m1, parsed, s1) =
        root_placed heap usable m0 (record { drive_no = 0; parts = [] }) (k + 1) 0 name [] tail
          (omega arith) (clean, tt) short (omega arith) s0 in
      let behind : k + 1 + 2 * 0 + 2 ≡ k + 3 = omega arith in
      let s1' = subst (λ j. Singles heap m1 (upto j)) behind s1 in
      let after_root : k + 1 + 1 ≡ k + 2 = omega arith in
      let (m2, desc_run, s2) =
        next m1 (k + 3) (k + 4) 8 (omega arith) (omega arith) (omega arith) (omega arith) s1' in
      let (m3, item_run, s3) =
        next m2 (k + 4) (k + 5) 8 (omega arith) (omega arith) (omega arith) (omega arith) s2 in
      let (m4, copy_run, s4) =
        next m3 (k + 5) (k + 6) size_of_item (omega arith) (omega arith) (omega arith) (omega arith)
          s3 in
      let (m5, run, s5) =
        next m4 (k + 6) (k + 7) 16 (omega arith) (omega arith) (omega arith) (omega arith) s4 in
      let room : Room heap files (path_of 0 name [] tail) 0 = record {
        root = block heap k;
        part = record { addr = block heap (k + 1); name_addr = block heap (k + 2); name = name };
        addr = block heap (k + 6);
        m0 = m0;
        m1 = m1;
        m2 = m5;
        root_given = root_run;
        root_some = block_some k;
        parsed = rw after_root at parsed;
        opens = record {
          desc = block heap (k + 3);
          item = block heap (k + 4);
          copy = block heap (k + 5);
          m1 = m2;
          m2 = m3;
          m3 = m4;
          desc_given = desc_run;
          item_given = item_run;
          copy_given = copy_run;
          desc_some = block_some (k + 3);
          item_some = block_some (k + 4);
          copy_some = block_some (k + 5);
        };
        given = run;
        given_some = block_some (k + 6);
        free = rw empty refl;
      } in
      record {
        room = room;
        named = refl;
        desc_at = refl;
        item_at = refl;
        copy_at = refl;
        addr_at = refl;
        behind_desc = s2;
        full = s5;
      }
