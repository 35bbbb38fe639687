-- ===== src/Fat/Seek.antt =====
-- fat16_seek on an open file: the answer for each mode, and how far the position can go.
use kernel_play.Prelude.{ℕ, ◌+◌, ◌≡◌, ◌≤◌, ◌<◌, ◌^◌, arith, some, ◌+w◌, ltb, if◌then◌else◌, dec_lt}
use kernel_play.Prelude.Run.{ok}
use kernel_play.Config.{einvarg, eunimp}
use kernel_play.Fat.Layout.{FatFileDescriptor, DirectoryItem, file}
use kernel_play.Fat.File.{fat16_seek, seek_set, seek_cur, seek_end}

-- The descriptor points to the item of a file.
abbrev pub IsFile : FatFileDescriptor → DirectoryItem → Type 0
IsFile desc item = (ptr : ℕ) × (desc.item ≡ file ptr (some item))

-- On an open file of less than 2 GiB whose position is not behind its end, with the offset as a word:
-- from the start of the file the position becomes the offset where that is at most the size of the
-- file, so it stays inside the file. From the current position the same test is made on the offset
-- alone, and the position becomes the sum, which can be up to twice the size. A greater offset is
-- refused with -EINVARG in every mode and moves nothing. Any other offset is answered from the end
-- with -EUNIMP, and in a mode that is none of the three with -EINVARG; neither moves the position.
pub fat16_seek-bounds :
    (desc : FatFileDescriptor) (item : DirectoryItem) (offset whence : ℕ)
    → IsFile desc item
    → desc.pos ≤ item.filesize
    → item.filesize < 2 ^ 31
    → offset < 2 ^ 32
    → 2 < whence
    → (after : FatFileDescriptor) × (before : FatFileDescriptor) × (fat16_seek desc offset seek_set
        ≡ ok (if ltb item.filesize offset then einvarg else 0, before))
      × (before.pos ≡ (if ltb item.filesize offset then desc.pos else offset))
      × (before.pos ≤ item.filesize)
      × (fat16_seek desc offset seek_cur
          ≡ ok (if ltb item.filesize offset then einvarg else 0, after))
      × (after.pos ≡ (if ltb item.filesize offset then desc.pos else desc.pos + offset))
      × (after.pos ≤ item.filesize + item.filesize)
      × (fat16_seek desc offset seek_end
          ≡ ok (if ltb item.filesize offset then einvarg else eunimp, desc))
      × (fat16_seek desc offset whence ≡ ok (einvarg, desc))
unfolding fat16_seek
fat16_seek-bounds desc item offset whence (ptr, is) inside small word other =
    elim (dec_lt item.filesize offset) [
      | yes past ↦ (
        desc,
        desc,
        ground (arith, is),
        ground arith,
        ground arith,
        ground (arith, is),
        ground arith,
        ground arith,
        ground (arith, is),
        ground (arith, is),
      )
      | no within ↦
          let sum : desc.pos +w offset ≡ desc.pos + offset = omega arith in
          (
            record desc { pos = desc.pos +w offset },
            record desc { pos = offset },
            ground (arith, is),
            ground arith,
            ground arith,
            ground (arith, is, sum),
            ground (arith, sum),
            ground (arith, sum),
            ground (arith, is),
            ground (arith, is),
          )
    ]
