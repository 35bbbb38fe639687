-- ===== src/Gdt.antt =====
-- gdt/gdt.c: segment descriptors from bases and limits in bytes.
pub mod Decode
use kernel_play.Prelude.{
  ℕ, zero, suc, ◌*◌, ◌/◌, ◌%◌, ◌^◌, Bool, not, ◌&&◌, List, [], ◌∷◌, bit_and, bit_or, if◌then◌else◌,
  ◌==◌, ltb,
}
use kernel_play.Prelude.Run.{Run, ok, fault, ◌>>=◌}
use kernel_play.Config.{einvarg}

-- `gdt_t`.
pub record Gdt : Type 0 where
  pub limit_first : ℕ
  pub base_first : ℕ
  pub base : ℕ
  pub access_type : ℕ
  pub flags_and_limit : ℕ
  pub base_24_31_bits : ℕ

-- `gdt_structured_t`.
pub record GdtStructured : Type 0 where
  pub base : ℕ
  pub limit : ℕ
  pub access_type : ℕ

-- The test that refuses a limit of more than 64 KiB that is no whole number of pages.
unfoldable pub is_refused : ℕ → Bool
is_refused limit = ltb 0xFFFF limit && not (bit_and limit 0xFFF == 0xFFF)

-- One round of the loop, which sets every field.
unfoldable pub encode_one : GdtStructured → Gdt
encode_one s =
    let paged = ltb 0xFFFF s.limit in
    let limit = if paged then s.limit / 2 ^ 12 else s.limit in
    let flags = if paged then 0xC0 else 0x40 in
    record {
      limit_first = bit_and limit 0xFFFF;
      base_first = bit_and s.base 0xFFFF;
      base = bit_and (s.base / 2 ^ 16) 0xFF;
      access_type = s.access_type;
      flags_and_limit = bit_or flags (bit_and (limit / 2 ^ 16) 0x0F);
      base_24_31_bits = bit_and (s.base / 2 ^ 24) 0xFF;
    }

-- The result, and the descriptors written in order.
unfoldable pub gdt_structured_to_gdt : List GdtStructured → ℕ → Run (ℕ × List Gdt)
gdt_structured_to_gdt gdt_s zero = ok (0, [])
gdt_structured_to_gdt [] (suc n) = fault
gdt_structured_to_gdt (s ∷ gdt_s) (suc n) =
    if is_refused s.limit
    then ok (einvarg, [])
    else do (res, written) ← gdt_structured_to_gdt gdt_s n; ok (res, encode_one s ∷ written)
