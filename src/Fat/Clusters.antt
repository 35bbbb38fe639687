-- ===== src/Fat/Clusters.antt =====
-- The functions of fat16.c that follow the file allocation table and read the data of clusters.
-- `sector_size` is `disk->sector_size`, and the private data goes through as the streams move.
use kernel_play.Prelude.{
  ℕ, zero, suc, ◌+◌, ◌*◌, ◌^◌, Bool, true, false, not, ◌||◌, none, some, List, [], ◌++◌, bit_or,
  if◌then◌else◌, ◌==◌, word, ◌+w◌, ◌-w◌, ◌*w◌, int_div, int_mod, int_lt, int_le, is_negative,
  rounds,
}
use kernel_play.Prelude.Run.{Run, ok, fault, out_of_fuel, ◌>>=◌}
use kernel_play.Config.{eio}
use kernel_play.Disk.{Drive, Streamer, disk_streamer_seek_pos, disk_streamer_read_bytes}
use kernel_play.Fat.Layout.{FatPrivate, DirectoryItem, le16}

abbrev pub fat_entry_size : ℕ
fat_entry_size = 0x02

abbrev pub bad_sector : ℕ
bad_sector = 0xFFF7

unfoldable pub cluster_to_sector : FatPrivate → ℕ → ℕ
cluster_to_sector fat_private cluster =
    fat_private.root_directory.ending_sector_pos
    +w ((cluster -w 2) *w fat_private.header.sectors_per_cluster)

unfoldable pub get_first_cluster : DirectoryItem → ℕ
get_first_cluster item =
    bit_or (word (item.high_16_bits_first_cluster * 2 ^ 16)) item.low_16_bits_first_cluster

unfoldable pub is_readable_cluster : ℕ → Bool
is_readable_cluster entry =
    if int_le 0xFFF8 entry
    then false
    else if entry == bad_sector
    then false
    else if (entry == 0xFFF0) || (entry == 0xFFF6)
    then false
    else if entry == 0
    then false
    else true

unfoldable pub cluster_size_in_bytes : ℕ → FatPrivate → ℕ
cluster_size_in_bytes sector_size fat_private =
    fat_private.header.sectors_per_cluster *w sector_size

module _ (drive : Drive) (sector_size : ℕ) where
  -- What the read returns is dropped: after a failed one the entry is the 0 of `result`.
  unfoldable pub get_fat_entry : FatPrivate → ℕ → Run (ℕ × FatPrivate)
  get_fat_entry fat_private cluster = elim fat_private.fat_read_stream [
    | none ↦ ok (0, fat_private)
    | some stream ↦
        let fat_table_position = fat_private.header.reserved_sectors *w sector_size in
        let (res, sought) =
          disk_streamer_seek_pos stream (fat_table_position +w cluster *w fat_entry_size) in
        if is_negative res
        then ok (res, record fat_private { fat_read_stream = some sought })
        else do
          (_, result, stream') ← disk_streamer_read_bytes drive sought 2
          ok (le16 result 0, record fat_private { fat_read_stream = some stream' })
  ]

  -- The loop of `fat16_get_cluster_for_offset`, over the clusters that are still to be passed.
  unfoldable pub pass_clusters : ℕ → FatPrivate → ℕ → Run (ℕ × FatPrivate)
  pass_clusters zero fat_private cluster = ok (cluster, fat_private)
  pass_clusters (suc n) fat_private cluster = do
    (entry, fat_private') ← get_fat_entry fat_private cluster
    if is_readable_cluster entry then pass_clusters n fat_private' entry else ok (eio, fat_private')

  -- A cluster of no bytes is a division by zero.
  unfoldable pub get_cluster_for_offset : FatPrivate → ℕ → ℕ → Run (ℕ × FatPrivate)
  get_cluster_for_offset fat_private starting_cluster offset =
      let cluster_bytes = cluster_size_in_bytes sector_size fat_private in
      if cluster_bytes == 0
      then fault
      else pass_clusters (rounds (int_div offset cluster_bytes)) fat_private starting_cluster

  -- The loop of `fat16_read_internal_from_stream_v2` on fuel. It gives the result, the bytes
  -- stored through `out` in order, the stream and the private data.
  unfoldable pub read_clusters :
      ℕ → Streamer → FatPrivate → ℕ → ℕ → ℕ → Run (ℕ × List ℕ × Streamer × FatPrivate)
  read_clusters zero stream fat_private cur_cluster offset total = out_of_fuel
  read_clusters (suc fuel) stream fat_private cur_cluster offset total = elim (int_le total 0) [
    | true ↦ ok (0, [], stream, fat_private)
    | false ↦ elim (is_readable_cluster cur_cluster) [
      | false ↦ ok (eio, [], stream, fat_private)
      | true ↦
          let available = cluster_size_in_bytes sector_size fat_private -w offset in
          let bytes_read = if int_lt available total then available else total in
          let sector = cluster_to_sector fat_private cur_cluster in
          let (sought, stream') = disk_streamer_seek_pos stream (offset +w sector *w sector_size) in
          if not (sought == 0) then ok (eio, [], stream', fat_private) else do
            (res, out, stream'') ← disk_streamer_read_bytes drive stream' bytes_read
            if not (res == 0)
                then ok (eio, out, stream'', fat_private)
                else if bytes_read == available
                then (do
                  (next, fat_private') ← get_fat_entry fat_private cur_cluster
                  (res', rest, stream''', fat_private'') ←
                      read_clusters fuel stream'' fat_private' next 0 (total -w bytes_read)
                  ok (res', out ++ rest, stream''', fat_private''))
                else (do
                  (res', rest, stream''', fat_private'') ←
                      read_clusters fuel stream'' fat_private cur_cluster offset
                        (total -w bytes_read)
                  ok (res', out ++ rest, stream''', fat_private''))
    ]
  ]

  -- The fuel is the number of bytes asked for and one more: each round reads a byte or more.
  unfoldable pub read_internal_from_stream :
      Streamer → FatPrivate → ℕ → ℕ → ℕ → Run (ℕ × List ℕ × Streamer × FatPrivate)
  read_internal_from_stream stream fat_private starting_cluster offset total = do
    (cur_cluster, fat_private') ← get_cluster_for_offset fat_private starting_cluster offset
    read_clusters (total + 1) stream fat_private' cur_cluster
        (int_mod offset (cluster_size_in_bytes sector_size fat_private)) total

  -- `fat16_read_internal_v2`. The stream is the one of the private data.
  unfoldable pub read_internal : FatPrivate → ℕ → ℕ → ℕ → Run (ℕ × List ℕ × FatPrivate)
  read_internal fat_private starting_cluster offset total = elim fat_private.cluster_read_stream [
    | none ↦ fault
    | some stream ↦ do
      (res, out, stream', fat_private') ←
          read_internal_from_stream stream fat_private starting_cluster offset total
      ok (res, out, record fat_private' { cluster_read_stream = some stream' })
  ]
