-- ===== src/Fat/Layout.antt =====
-- The structures of fat16.c, and how the packed ones lie on the disk (little-endian, at the
-- offsets that their fields have).
use kernel_play.Prelude.{ℕ, zero, suc, ◌+◌, ◌*◌, ◌^◌, List, [], ◌∷◌, Option, get_or, take, drop}
use kernel_play.Disk.{Streamer}

-- The integers of two and four bytes at an offset. A byte that was not read is 0.
abbrev pub le16 : List ℕ → ℕ → ℕ
le16 bs i = get_or bs i 0 + 256 * get_or bs (i + 1) 0

abbrev pub le32 : List ℕ → ℕ → ℕ
le32 bs i = le16 bs i + 2 ^ 16 * le16 bs (i + 2)

-- `struct fat_header` and the signature of `struct fat_header_extended`; the other fields of the
-- latter are used nowhere.
pub record FatHeader : Type 0 where
  pub short_jmp_ins : List ℕ
  pub oem_identifier : List ℕ
  pub bytes_per_sector : ℕ
  pub sectors_per_cluster : ℕ
  pub reserved_sectors : ℕ
  pub fat_copies : ℕ
  pub root_dir_entries : ℕ
  pub number_of_sectors : ℕ
  pub media_type : ℕ
  pub sectors_per_fat : ℕ
  pub sectors_per_track : ℕ
  pub number_of_heads : ℕ
  pub hidden_sectors : ℕ
  pub sectors_big : ℕ
  pub signature : ℕ

abbrev pub size_of_header : ℕ
size_of_header = 62

unfoldable pub header_of : List ℕ → FatHeader
header_of bs = record {
  short_jmp_ins = take 3 bs;
  oem_identifier = take 8 (drop 3 bs);
  bytes_per_sector = le16 bs 11;
  sectors_per_cluster = get_or bs 13 0;
  reserved_sectors = le16 bs 14;
  fat_copies = get_or bs 16 0;
  root_dir_entries = le16 bs 17;
  number_of_sectors = le16 bs 19;
  media_type = get_or bs 21 0;
  sectors_per_fat = le16 bs 22;
  sectors_per_track = le16 bs 24;
  number_of_heads = le16 bs 26;
  hidden_sectors = le32 bs 28;
  sectors_big = le32 bs 32;
  signature = get_or bs 38 0;
}

-- `struct fat_directory_item`.
pub record DirectoryItem : Type 0 where
  pub filename : List ℕ
  pub ext : List ℕ
  pub attribute : ℕ
  pub reserved : ℕ
  pub creation_time_tenths_of_a_sec : ℕ
  pub creation_time : ℕ
  pub creation_date : ℕ
  pub last_access : ℕ
  pub high_16_bits_first_cluster : ℕ
  pub last_mod_time : ℕ
  pub last_mod_date : ℕ
  pub low_16_bits_first_cluster : ℕ
  pub filesize : ℕ

abbrev pub size_of_item : ℕ
size_of_item = 32

unfoldable pub item_of : List ℕ → DirectoryItem
item_of bs = record {
  filename = take 8 bs;
  ext = take 3 (drop 8 bs);
  attribute = get_or bs 11 0;
  reserved = get_or bs 12 0;
  creation_time_tenths_of_a_sec = get_or bs 13 0;
  creation_time = le16 bs 14;
  creation_date = le16 bs 16;
  last_access = le16 bs 18;
  high_16_bits_first_cluster = le16 bs 20;
  last_mod_time = le16 bs 22;
  last_mod_date = le16 bs 24;
  low_16_bits_first_cluster = le16 bs 26;
  filesize = le32 bs 28;
}

-- The array of `n` items that lies in a buffer; a byte that was not read is 0.
unfoldable pub items_of : List ℕ → ℕ → List DirectoryItem
items_of bs zero = []
items_of bs (suc n) = item_of bs ∷ items_of (drop size_of_item bs) n

-- `fat_directory_t`: the items with the address of their array.
pub record FatDirectory : Type 0 where
  pub items_addr : ℕ
  pub item : List DirectoryItem
  pub total : ℕ
  pub sector_pos : ℕ
  pub ending_sector_pos : ℕ

-- `fat_item_t`: the union with its tag. Each pointer is given with the object that it points to, or
-- with none where it is null or the object was released.
pub data FatItem : Type 0 where
  directory : ℕ → Option FatDirectory → FatItem
  file : ℕ → Option DirectoryItem → FatItem

-- `fat_file_descriptor_t`, with the address of its `fat_item_t`.
pub record FatFileDescriptor : Type 0 where
  pub item_addr : ℕ
  pub item : FatItem
  pub pos : ℕ

-- `fat_private_t`. A stream that was not made is null.
pub record FatPrivate : Type 0 where
  pub header : FatHeader
  pub root_directory : FatDirectory
  pub cluster_read_stream : Option Streamer
  pub fat_read_stream : Option Streamer
  pub directory_stream : Option Streamer
