-- ===== src/Fat/Mount.antt =====
-- fat16_resolve and fat16_init_private: mounting a disk.
use kernel_play.Prelude.{ℕ, not, Option, none, some, [], if◌then◌else◌, ◌==◌, is_negative}
use kernel_play.Prelude.Run.{Run, ok, fault, ◌>>=◌}
use kernel_play.Config.{eio, efsnotus}
use kernel_play.Memory.{Memory}
use kernel_play.Heap.{Heap, kheap_zalloc, kheap_free}
use kernel_play.Disk.{Drive, disk_streamer_new, disk_streamer_read_bytes, disk_streamer_close}
use kernel_play.Fat.Layout.{FatPrivate, header_of, size_of_header}
use kernel_play.Fat.Directory.{get_root_directory}
use kernel_play.Fat.File.{signature}

-- The fields of `struct disk` that mounting uses. The private data is set exactly when the disk
-- has a file system.
pub record DiskState : Type 0 where
  pub id : ℕ
  pub sector_size : ℕ
  pub mounted : Option FatPrivate

-- The private data that `memset` leaves.
abbrev pub blank : FatPrivate
blank = record {
  header = header_of [];
  root_directory = record {
    items_addr = 0;
    item = [];
    total = 0;
    sector_pos = 0;
    ending_sector_pos = 0;
  };
  cluster_read_stream = none;
  fat_read_stream = none;
  directory_stream = none;
}

-- The three streams; without one the result is -EIO.
unfoldable pub init_private : Heap → Memory → ℕ → Run (ℕ × FatPrivate × Memory)
init_private heap m disk_id = do
  (cluster_stream, m') ← disk_streamer_new heap m disk_id
  elim cluster_stream [
    | none ↦ ok (eio, blank, m')
    | some (_, cluster) ↦ do
      (fat_stream, m'') ← disk_streamer_new heap m' disk_id
      elim fat_stream [
        | none ↦ ok (eio, record blank { cluster_read_stream = some cluster }, m'')
        | some (_, fat) ↦ do
          let two : FatPrivate = record blank {
            cluster_read_stream = some cluster;
            fat_read_stream = some fat;
          }
          (dir_stream, m''') ← disk_streamer_new heap m'' disk_id
          elim dir_stream [
            | none ↦ ok (eio, two, m''')
            | some (_, dir) ↦ ok (0, record two { directory_stream = some dir }, m''')
          ]
      ]
  ]

-- The code behind `out:` for a result and the pointers to the private data and the stream.
unfoldable pub resolve_out :
    Heap → Memory → DiskState → ℕ → ℕ → Option ℕ → Run (ℕ × DiskState × Memory)
resolve_out heap m disk res private_addr stream_addr = do
  m' ← elim stream_addr [ none ↦ ok m | some addr ↦ disk_streamer_close heap m addr ]
  if is_negative res
      then (do m'' ← kheap_free heap m' private_addr; ok (res, record disk { mounted = none }, m''))
      else ok (res, disk, m')

-- A jump to `out:` before `disk_stream` is set reads an uninitialised variable, which is a fault.
unfoldable pub fat16_resolve : Drive → ℕ → Heap → Memory → DiskState → Run (ℕ × DiskState × Memory)
fat16_resolve drive fuel heap m disk = do
  (private_addr, m1) ← kheap_zalloc heap m 92
  if private_addr == 0 then fault else do
    (res, fp, m2) ← init_private heap m1 disk.id
    if not (res == 0) then fault else do
      (disk_stream, m3) ← disk_streamer_new heap m2 disk.id
      elim disk_stream [
        | none ↦ resolve_out heap m3 disk eio private_addr none
        | some (stream_addr, stream) ↦ do
          (res1, bytes, _) ← disk_streamer_read_bytes drive stream size_of_header
          let fp1 : FatPrivate = record fp { header = header_of bytes }
          if not (res1 == 0)
              then resolve_out heap m3 disk eio private_addr (some stream_addr)
              else if not (fp1.header.signature == signature)
              then resolve_out heap m3 disk efsnotus private_addr (some stream_addr)
              else (do
                (res2, fp2, m4) ← get_root_directory drive disk.sector_size fuel heap m3 fp1
                if not (res2 == 0)
                    then resolve_out heap m4 disk eio private_addr (some stream_addr)
                    else resolve_out heap m4 (record disk { mounted = some fp2 }) 0 private_addr
                        (some stream_addr))
      ]
