-- ===== src/Disk.antt =====
-- disk/disk.c and disk/streamer.c: sectors of an ATA drive by programmed I/O, and a stream of
-- bytes over them. The drive is hardware: `Drive` says which 16-bit words its data port gives after
-- a series of port writes. The loops that poll port 0x1F7 are taken to end.
pub mod Image
pub mod Sector
pub mod Stream
pub mod Slices
use kernel_play.Prelude.{
  ℕ, zero, suc, ◌+◌, ◌-◌, ◌*◌, ◌/◌, ◌%◌, ◌^◌, Bool, true, false, Option, none, some, List, [], ◌∷◌,
  ◌++◌, bit_or, bit_and, if◌then◌else◌, word, ◌+w◌, ◌-w◌, int_div, int_mod, int_lt, int_le,
  is_negative, rounds, to_char, get_elem?, ◌==◌,
}
use kernel_play.Prelude.Run.{Run, ok, fault, out_of_fuel, ◌>>=◌}
use kernel_play.Config.{disk_sector_size, eio}
use kernel_play.Memory.{Memory}
use kernel_play.Heap.{Heap, kheap_zalloc, kheap_free}

-- A write of a byte to a port.
abbrev pub PortWrite : Type 0
PortWrite = ℕ × ℕ

-- The `i`-th word that port 0x1F0 gives after these writes.
abbrev pub Drive : Type 0
Drive = List PortWrite → ℕ → ℕ

-- `lba >> k` on an `int` keeps the sign.
abbrev pub shift_right : ℕ → ℕ → ℕ
shift_right a k = if is_negative a then a / 2 ^ k + (2 ^ 32 - 2 ^ (32 - k)) else a / 2 ^ k

-- The port writes of `read_from_disk`, in order; `outb` takes the low byte.
unfoldable pub read_command : ℕ → ℕ → List PortWrite
read_command lba total =
    (0x1F6, to_char (bit_or (shift_right lba 24) 0xE0))
    ∷ (0x1F2, to_char total)
    ∷ (0x1F3, to_char (bit_and (to_char lba) 0xFF))
    ∷ (0x1F4, to_char (shift_right lba 8))
    ∷ (0x1F5, to_char (shift_right lba 16))
    ∷ (0x1F7, 0x20)
    ∷ []

-- `n` words from the `i`-th on, as they are stored: the low byte first.
unfoldable pub read_words : (ℕ → ℕ) → ℕ → ℕ → List ℕ
read_words port i zero = []
read_words port i (suc n) = port i % 256 ∷ port i / 256 % 256 ∷ read_words port (i + 1) n

-- The bytes that `read_from_disk` stores in `buf`; it returns 0.
unfoldable pub read_from_disk : Drive → ℕ → ℕ → ℕ × List ℕ
read_from_disk drive lba total =
    (0, read_words (drive (read_command lba total)) 0 (rounds total * (disk_sector_size / 2)))

-- A `disk_t*`: null, the one disk of the kernel, or some other address.
pub data DiskRef : Type 0 where
  null root_disk other : DiskRef

unfoldable pub disk_get : ℕ → DiskRef
disk_get index = if index == 0 then root_disk else null

unfoldable pub disk_read_sector : Drive → DiskRef → ℕ → ℕ → ℕ × List ℕ
disk_read_sector drive root_disk lba total = read_from_disk drive lba total
disk_read_sector drive null lba total = (eio, [])
disk_read_sector drive other lba total = (eio, [])

-- `disk_streamer_t`.
pub record Streamer : Type 0 where
  pub pos : ℕ
  pub disk : DiskRef

-- The object's address stands beside it. `kheap_zalloc` is not tested, so a null pointer is a
-- fault at the first store.
unfoldable pub disk_streamer_new : Heap → Memory → ℕ → Run (Option (ℕ × Streamer) × Memory)
disk_streamer_new heap m disk_id = elim (disk_get disk_id) [
  | null ↦ ok (none, m)
  | disk ↦ do
    (ptr, m') ← kheap_zalloc heap m 8
    if ptr == 0 then fault else ok (some (ptr, record { pos = 0; disk = disk }), m')
]

unfoldable pub disk_streamer_seek_pos : Streamer → ℕ → ℕ × Streamer
disk_streamer_seek_pos streamer pos = (0, record streamer { pos = pos })

-- `n` rounds of `*out = buf[offset + i]`. An index outside `buf` is a fault.
unfoldable pub copy_out : List ℕ → ℕ → ℕ → Run (List ℕ)
copy_out buf at zero = ok []
copy_out buf at (suc n) = elim (get_elem? buf at) [
  | none ↦ fault
  | some v ↦ do rest ← copy_out buf (at +w 1) n; ok (v ∷ rest)
]

-- The result, the bytes stored through `out` in order, and the streamer.
unfoldable pub read_bytes_fuel : Drive → ℕ → Streamer → ℕ → Run (ℕ × List ℕ × Streamer)
read_bytes_fuel drive zero streamer total = out_of_fuel
read_bytes_fuel drive (suc fuel) streamer total = elim (int_le total 0) [
  | true ↦ ok (0, [], streamer)
  | false ↦
      let sector = int_div streamer.pos disk_sector_size in
      let offset = int_mod streamer.pos disk_sector_size in
      let max_readable = disk_sector_size -w offset in
      let (res, buf) = disk_read_sector drive streamer.disk sector 1 in
      let more = int_lt max_readable total in
      let total_to_read = if more then max_readable else total in
      let moved : Streamer = record streamer { pos = streamer.pos +w total_to_read } in
      elim (is_negative res) [
        | true ↦ ok (res, [], streamer)
        | false ↦ do
          out ← copy_out buf offset (rounds total_to_read)
          elim more [
            | false ↦ ok (res, out, moved)
            | true ↦ do
              (res', rest, streamer') ← read_bytes_fuel drive fuel moved (total -w total_to_read)
              ok (res', out ++ rest, streamer')
          ]
      ]
]

-- Each round reads a byte or more.
unfoldable pub disk_streamer_read_bytes : Drive → Streamer → ℕ → Run (ℕ × List ℕ × Streamer)
disk_streamer_read_bytes drive streamer total = read_bytes_fuel drive (total + 1) streamer total

unfoldable pub disk_streamer_close : Heap → Memory → ℕ → Run Memory
disk_streamer_close heap m streamer = kheap_free heap m streamer
