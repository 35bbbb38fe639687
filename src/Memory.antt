-- ===== src/Memory.antt =====
-- memory/memory.c. The machine's memory gives each address its byte; `memset` and `memcpy` are
-- loops over it. `memcmp` compares two objects, each the list of bytes from its pointer to its
-- end, and a read past an end is a fault.
pub mod Fill
use kernel_play.Prelude.{
  ℕ, zero, suc, ◌+◌, ◌%◌, List, [], ◌∷◌, ◌==◌, if◌then◌else◌, int_lt, char_int, to_char, neg,
}
use kernel_play.Prelude.Run.{Run, ok, fault}

abbrev pub Memory : Type 0
Memory = ℕ → ℕ

-- `*p = v`.
unfoldable pub write : Memory → ℕ → ℕ → Memory
write m p v a = if a == p then v else m a

-- `size` rounds of `p[i] = (char)c`.
unfoldable pub memset : Memory → ℕ → ℕ → ℕ → Memory
memset m p c zero = m
memset m p c (suc size) = memset (write m p (to_char c)) (p + 1) c size

-- `size` rounds of `d[i] = s[i]`.
unfoldable pub memcpy : Memory → ℕ → ℕ → ℕ → Memory
memcpy m d s zero = m
memcpy m d s (suc size) = memcpy (write m d (m s)) (d + 1) (s + 1) size

unfoldable pub memcmp : List ℕ → List ℕ → ℕ → Run ℕ
memcmp l r zero = ok 0
memcmp [] r (suc size) = fault
memcmp (a ∷ l) [] (suc size) = fault
memcmp (a ∷ l) (b ∷ r) (suc size) =
    if a == b then memcmp l r size else ok (if int_lt (char_int a) (char_int b) then neg 1 else 1)
