-- ===== src/Tests/Files.antt =====
-- A table of descriptors over a file system whose descriptors are numbers.
use kernel_play.Prelude.{
  ℕ, ◌+◌, ◌≡◌, refl, [], ◌∷◌, ◌++◌, arith, true, some, none, subst, set, get_elem?, replicate,
}
use kernel_play.Prelude.Run.{ok, Ends}
use kernel_play.Memory.{Memory}
use kernel_play.Heap.{heap_free}
use kernel_play.Heap.Release.{Cleared, heap_free-Cleared}
use kernel_play.Files.{
  opened, Filesystem, FileDescriptor, Files, file_get_descriptor, fopen, fclose, fs_init,
}
use kernel_play.Files.Table.{IsTable, set-IsTable, fs_init-IsTable}
use kernel_play.Files.Open.{Outcomes, fopen-Outcomes}
use kernel_play.Files.Close.{fclose_lem}
use kernel_play.Tests.Heaps.{heap, alone, zeros}
use kernel_play.Prelude.Codes.{codes}

abbrev pub numbers : Filesystem ℕ ℕ
numbers = record {
  open_file = λ state m parts mode. ok (opened state, state + 1, m);
  seek = λ d offset whence. ok (0, offset);
  read = λ state d size nmemb. ok (nmemb, replicate size d, state);
  stat = λ d stat. ok (0, stat);
  close = λ m d. ok (0, m);
}

abbrev blank : Files ℕ ℕ
blank = record { slots = []; memory = zeros; state = 7; mounted = true }

abbrev pub fresh : Files ℕ ℕ
fresh = fs_init numbers heap blank

abbrev one : FileDescriptor ℕ
one = record { addr = 8192; index = 1; private = 7 }

abbrev busy : Files ℕ ℕ
busy = record fresh { slots = set fresh.slots 0 (some one) }

pub fresh-IsTable : IsTable fresh.slots
fresh-IsTable = fs_init-IsTable numbers heap blank

busy-IsTable : IsTable busy.slots
unfolding fs_init
busy-IsTable =
    set-IsTable fresh.slots 0 (some one) fresh-IsTable (omega arith)
      (λ desc e. let same : one ≡ desc = cc in subst (λ d. d.index ≡ 1) same refl)

fopen-Outcomes_example :
    Ends
      (Outcomes numbers heap fresh)
      (fopen numbers heap fresh (codes "0:/a" ++ 0 ∷ []) (b'r' ∷ 0 ∷ []))
fopen-Outcomes_example =
    fopen-Outcomes numbers heap fresh (codes "0:/a" ++ 0 ∷ []) (b'r' ∷ 0 ∷ []) fresh-IsTable

-- Releasing the memory of the descriptor.
released : (m' : Memory) × (heap_free heap zeros 8192 ≡ ok m') × Cleared zeros 101 0 8192 m'
released =
    heap_free-Cleared heap zeros 1 0 101 8192 (omega arith) (omega arith) (omega arith)
      (omega arith) (omega arith) (omega arith) alone

held : get_elem? busy.slots 0 ≡ some (some one)
unfolding fs_init
held = refl

closed : numbers.close busy.memory one.private ≡ ok (0, zeros)
unfolding fs_init
closed = refl

fclose_lem_example :
    (after : Files ℕ ℕ) × (fclose numbers heap busy 1 ≡ ok (0, after))
    × (after.slots ≡ set busy.slots 0 none)
    × (file_get_descriptor after.slots 1 ≡ ok none)
    × IsTable after.slots
fclose_lem_example =
    fclose_lem numbers heap busy 1 one zeros released.0 busy-IsTable (omega arith) (omega arith)
      held closed released.1
