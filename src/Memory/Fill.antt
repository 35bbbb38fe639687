-- ===== src/Memory/Fill.antt =====
-- What `memset` and `memcpy` leave at every address.
use kernel_play.Prelude.{
  ℕ, zero, suc, ◌+◌, ◌-◌, ◌≤◌, ◌≡◌, Bool, ◌∙◌, ◌⊎◌, ◌&&◌, arith, ltb, leb, if◌then◌else◌, to_char,
  dec_lt, ℕ_discrete,
}
use kernel_play.Memory.{Memory, write, memset, memcpy}

-- The address lies in the `size` bytes from `p` on.
abbrev pub inside : ℕ → ℕ → ℕ → Bool
inside a p size = leb p a && ltb a (p + size)

-- `memset` stores the low byte of `c` in each of the `size` bytes from `p` on, and nothing else.
pub memset-at :
    (m : Memory) (p c size a : ℕ)
    → memset m p c size a ≡ (if inside a p size then to_char c else m a)
unfolding memset
memset-at m p c zero a = ground arith
memset-at m p c (suc size) a =
    memset-at (write m p (to_char c)) (p + 1) c size a ∙ unfold write in ground arith

-- A copy that the destination's bytes do not disturb: it lies before the source, or they are
-- disjoint.
abbrev pub Forward : ℕ → ℕ → ℕ → Type 0
Forward d s size = (d ≤ s) ⊎ (s + size ≤ d)

-- One round: the first byte is written, and is not read again.
memcpy_round :
    (m : Memory) (d s size a : ℕ)
    → Forward d s (suc size)
    → (if inside a (d + 1) size then write m d (m s) (s + 1 + (a - (d + 1))) else write m d (m s) a)
      ≡ (if inside a d (suc size) then m (s + (a - d)) else m a)
unfolding write
memcpy_round m d s size a h = elim (dec_lt d a) [
  | yes p ↦ let shift : s + 1 + (a - (d + 1)) ≡ s + (a - d) = omega arith in rw shift (ground arith)
  | no p ↦ elim (ℕ_discrete a d) [
    | yes e ↦ let start : s + (a - d) ≡ s = omega arith in rw start (ground arith)
    | no ne ↦ ground arith
  ]
]

-- `memcpy` gives `size` bytes from `d` on the old bytes from `s` on, and changes nothing else.
pub memcpy-at :
    (m : Memory) (d s size a : ℕ)
    → Forward d s size
    → memcpy m d s size a ≡ (if inside a d size then m (s + (a - d)) else m a)
unfolding memcpy
memcpy-at m d s zero a h = ground arith
memcpy-at m d s (suc size) a h =
    memcpy-at (write m d (m s)) (d + 1) (s + 1) size a (omega arith) ∙ memcpy_round m d s size a h
