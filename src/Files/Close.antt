-- ===== src/Files/Close.antt =====
-- What closing a file does to the table of descriptors.
use kernel_play.Prelude.{
  ℕ, ◌-◌, ◌≡◌, ◌<◌, refl, arith, none, some, get_elem?, set, get_elem?-set_self,
}
use kernel_play.Prelude.Run.{ok}
use kernel_play.Memory.{Memory}
use kernel_play.Heap.{Heap, heap_free}
use kernel_play.Files.{FileDescriptor, Files, Filesystem, file_get_descriptor, fclose}
use kernel_play.Files.Table.{IsTable, set-IsTable, get_descriptor-slot}

module _ {S D : Type 0} (fs : Filesystem S D) (heap : Heap) where
  -- Closing an open descriptor whose file system and heap release it returns 0, empties the slot
  -- of the descriptor and no other, and keeps the invariant of the table; the number is then refused.
  pub fclose_lem :
      (files : Files S D) (fd : ℕ) (desc : FileDescriptor D) (m m' : Memory)
      → IsTable files.slots
      → 0 < fd
      → fd < 512
      → get_elem? files.slots (fd - 1) ≡ some (some desc)
      → fs.close files.memory desc.private ≡ ok (0, m)
      → heap_free heap m desc.addr ≡ ok m'
      → (after : Files S D) × (fclose fs heap files fd ≡ ok (0, after))
        × (after.slots ≡ set files.slots (fd - 1) none)
        × (file_get_descriptor after.slots fd ≡ ok none)
        × IsTable after.slots
  unfolding fclose
  fclose_lem files fd desc m m' t pos small e closes frees =
      let number = t.numbered (fd - 1) desc e in
      let own : desc.index - 1 ≡ fd - 1 = omega (arith, number) in
      let emptied = get_elem?-set_self files.slots (fd - 1) none (omega (arith, t.size)) in
      let found = get_descriptor-slot files.slots fd (some desc) pos small e in
      (
        record files { slots = set files.slots (fd - 1) none; memory = m' },
        rw (found, closes, frees, own) refl,
        refl,
        get_descriptor-slot (set files.slots (fd - 1) none) fd none pos small emptied,
        set-IsTable files.slots (fd - 1) none t (omega arith) (λ d h. absurd (cc h)),
      )
