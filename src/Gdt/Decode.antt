-- ===== src/Gdt/Decode.antt =====
-- A descriptor as the processor reads it, and that the code's descriptors read back as the
-- segments that they were made from.
use kernel_play.Prelude.{
  ℕ, zero, suc, ◌+◌, ◌*◌, ◌/◌, ◌%◌, ◌^◌, ◌<◌, ◌≡◌, refl, ap₂, List, [], ◌∷◌, ◌++◌, map, true, false,
  arith, bit_or, if◌then◌else◌, ◌==◌, leb, length, ==_iff,
}
use kernel_play.Prelude.Bits.{
  every, every-at, bit_and_nibble, bit_and_byte, bit_and_page, bit_and_half,
}
use kernel_play.Prelude.Run.{ok}
use kernel_play.Config.{einvarg}
use kernel_play.Gdt.{Gdt, GdtStructured, is_refused, encode_one, gdt_structured_to_gdt}

-- The base and the limit in bytes that the processor takes from a descriptor: with the top bit of
-- the flags set the limit counts pages, and its low twelve bits are ones.
abbrev pub base_of : Gdt → ℕ
base_of g = g.base_first + g.base * 2 ^ 16 + g.base_24_31_bits * 2 ^ 24

abbrev pub raw_limit : Gdt → ℕ
raw_limit g = g.limit_first + g.flags_and_limit % 16 * 2 ^ 16

abbrev pub limit_of : Gdt → ℕ
limit_of g = if leb 128 g.flags_and_limit then raw_limit g * 4096 + 4095 else raw_limit g

abbrev pub segment_of : Gdt → GdtStructured
segment_of g = record { base = base_of g; limit = limit_of g; access_type = g.access_type }

-- A segment that the code accepts, with fields of their C widths.
pub record IsSegment (s : GdtStructured) : Type 0 where
  pub base_small : s.base < 4294967296
  pub limit_small : s.limit < 4294967296
  pub accepted : is_refused s.limit ≡ false

flags_table : every (λ n. bit_or 0x40 n == 0x40 + n) 16 ≡ true
flags_table = refl

paged_table : every (λ n. bit_or 0xC0 n == 0xC0 + n) 16 ≡ true
paged_table = refl

flags_lem : (n : ℕ) → n < 16 → bit_or 0x40 n ≡ 0x40 + n
flags_lem n h = (==_iff _ _).0 (every-at (λ n. bit_or 0x40 n == 0x40 + n) 16 n flags_table h)

paged_lem : (n : ℕ) → n < 16 → bit_or 0xC0 n ≡ 0xC0 + n
paged_lem n h = (==_iff _ _).0 (every-at (λ n. bit_or 0xC0 n == 0xC0 + n) 16 n paged_table h)

encode-base : (s : GdtStructured) → s.base < 4294967296 → base_of (encode_one s) ≡ s.base
unfolding encode_one
encode-base s h =
    omega
      (arith, bit_and_half s.base, bit_and_byte (s.base / 2 ^ 16), bit_and_byte (s.base / 2 ^ 24))

encode-limit : (s : GdtStructured) → IsSegment s → limit_of (encode_one s) ≡ s.limit
unfolding encode_one is_refused
encode-limit s h =
    let l = s.limit in
    let p = l / 2 ^ 12 in
    ground (
      arith,
      h.limit_small,
      h.accepted,
      bit_and_page l,
      bit_and_half l,
      bit_and_half p,
      bit_and_nibble (l / 2 ^ 16),
      bit_and_nibble (p / 2 ^ 16),
      flags_lem (l / 2 ^ 16 % 16),
      paged_lem (p / 2 ^ 16 % 16),
    )

-- The processor reads from an encoded segment the segment itself.
pub segment_of-encode_one : (s : GdtStructured) → IsSegment s → segment_of (encode_one s) ≡ s
segment_of-encode_one s h = λ i. record {
  base = encode-base s h.base_small i;
  limit = encode-limit s h i;
  access_type = access i;
}
  where
    access : (encode_one s).access_type ≡ s.access_type
    access = unfold encode_one in refl

abbrev pub AllSegments : List GdtStructured → Type 0
AllSegments [] = Unit
AllSegments (s ∷ ss) = IsSegment s × AllSegments ss

-- For a table of accepted segments the call succeeds, and what it writes reads back as the table.
pub gdt_roundtrip :
    (ss : List GdtStructured)
    → AllSegments ss
    → (gs : List Gdt) × (gdt_structured_to_gdt ss (length ss) ≡ ok (0, gs))
      × (map segment_of gs ≡ ss)
unfolding gdt_structured_to_gdt
gdt_roundtrip [] h = ([], refl, refl)
gdt_roundtrip (s ∷ ss) h =
    let (gs, run, back) = gdt_roundtrip ss h.1 in
    (
      encode_one s ∷ gs,
      ground (arith, h.0.accepted, run),
      ap₂ ◌∷◌ (segment_of-encode_one s h.0) back,
    )

-- The call fails at the first segment that is refused, with the descriptors before it written.
pub gdt_refused :
    (ss rest : List GdtStructured) (s : GdtStructured) (total : ℕ)
    → AllSegments ss
    → is_refused s.limit ≡ true
    → length ss < total
    → gdt_structured_to_gdt (ss ++ s ∷ rest) total ≡ ok (einvarg, map encode_one ss)
unfolding gdt_structured_to_gdt
gdt_refused ss rest s zero h bad lt = absurd (omega arith)
gdt_refused [] rest s (suc n) h bad lt = ground (arith, bad)
gdt_refused (t ∷ ss) rest s (suc n) h bad lt =
    ground (arith, h.0.accepted, gdt_refused ss rest s n h.1 bad (omega arith))
