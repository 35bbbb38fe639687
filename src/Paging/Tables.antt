-- ===== src/Paging/Tables.antt =====
-- The tables that a directory links, and what keeps them.
use kernel_play.Prelude.{
  ℕ, zero, suc, ◌+◌, ◌*◌, ◌/◌, ◌%◌, ◌^◌, ◌≤◌, ◌<◌, ◌≡◌, ◌≢◌, refl, sym, ◌∙◌, arith, ◌⊎◌, bit_or,
  some, true, ◌==◌, ◌+w◌, ◌*w◌,
}
use kernel_play.Memory.{Memory}
use kernel_play.Heap.{Heap}
use kernel_play.Heap.Table.{is_free_block-even}
use kernel_play.Paging.{read_word, write_word, fill_table}
use kernel_play.Paging.Words.{write_word-apart}
use kernel_play.Paging.Walk.{table_of, place, frame_of, translate, translate_linked}
use kernel_play.Paging.Identity.{linked, filled}
use kernel_play.Paging.Pages.{IsPaged, IsTaken, HasRoom, Given, page_of, Given-IsTaken}

-- The entry `k` of the directory, which lies in the page `dir`, links a page whose entries map the
-- 4 MiB that it is for to themselves.
pub record Maps (heap : Heap) (m : Memory) (dir flags k : ℕ) : Type 0 where
  pub table : ℕ
  pub taken : IsTaken heap m table
  pub apart : table ≢ dir
  pub link : read_word m (page_of heap dir + 4 * k) / 4096 ≡ page_of heap table / 4096
  pub present : read_word m (page_of heap dir + 4 * k) % 2 ≡ flags % 2
  pub entries :
      (j : ℕ) → j < 1024 → read_word m (page_of heap table + 4 * j) ≡ (k * 1024 + j) * 4096 + flags

-- The bytes of a stretch are the same.
abbrev pub SameFrom : Memory → Memory → ℕ → ℕ → Type 0
SameFrom m m' p n = (a : ℕ) → p ≤ a → a < p + n → m' a ≡ m a

read_word-same : (m m' : Memory) (p : ℕ) → SameFrom m m' p 4 → read_word m' p ≡ read_word m p
unfolding read_word
read_word-same m m' p same =
    let b0 = same p (omega arith) (omega arith) in
    let b1 = same (p + 1) (omega arith) (omega arith) in
    let b2 = same (p + 2) (omega arith) (omega arith) in
    let b3 = same (p + 3) (omega arith) (omega arith) in omega (arith, b0, b1, b2, b3)

pub IsTaken-same :
    {heap : Heap} {m m' : Memory} {e : ℕ} → IsTaken heap m e → m' e ≡ m e → IsTaken heap m' e
IsTaken-same h same = record { above = h.above; below = h.below; odd = omega (arith, same, h.odd) }

pub HasRoom-same :
    {heap : Heap} {m m' : Memory} {n : ℕ}
    → HasRoom heap m n
    → ((a : ℕ) → a < heap.table.entries + heap.table.size → m' a ≡ m a)
    → HasRoom heap m' n
HasRoom-same {heap} {m} {m'} {n} room same = record {
  start = room.start;
  above = room.above;
  below = room.below;
  free = λ i lt.
      let at = room.start + i in
      let kept = same at (omega (arith, room.below)) in
      ground (arith, kept, is_free_block-even m at, is_free_block-even m' at, room.free i lt);
}

pub Maps-same :
    {heap : Heap} {m m' : Memory} {dir flags k : ℕ}
    → (t : Maps heap m dir flags k) → IsTaken heap m' t.table
    → SameFrom m m' (page_of heap dir + 4 * k) 4
    → SameFrom m m' (page_of heap t.table) 4096
    → (u : Maps heap m' dir flags k) × (u.table ≡ t.table)
Maps-same {heap} {m} {m'} {dir} {flags} {k} t taken word page = (
  record {
    table = t.table;
    taken = taken;
    apart = t.apart;
    link =
        let same = read_word-same m m' (page_of heap dir + 4 * k) word in
        omega (arith, same, t.link);
    present =
        let same = read_word-same m m' (page_of heap dir + 4 * k) word in
        omega (arith, same, t.present);
    entries = λ j lt.
        read_word-same m m' (page_of heap t.table + 4 * j)
          (λ a from to. page a (omega arith) (omega arith))
        ∙ t.entries j lt;
  },
  refl,
)

pub pages_apart :
    (heap : Heap) (t e : ℕ)
    → heap.table.entries ≤ t
    → heap.table.entries ≤ e
    → t ≢ e
    → (page_of heap t + 4096 ≤ page_of heap e) ⊎ (page_of heap e + 4096 ≤ page_of heap t)
pages_apart heap t e ht he ne = omega arith

module _ (heap : Heap) (paged : IsPaged heap) where
  -- A page that is given leaves the other pages and what they link.
  pub Given-page :
      {m m' : Memory} {ptr e : ℕ}
      → Given heap m ptr e m'
      → (t : ℕ) → IsTaken heap m t
      → SameFrom m m' (page_of heap t) 4096
  Given-page {m} {m'} {ptr} {e} g t h = λ a from to.
      let ne = (Given-IsTaken heap paged g t h).0 in
      let away = pages_apart heap t e h.above g.taken.above ne in
      g.only a (λ same. absurd (omega (arith, same, from, paged.placed.apart, g.taken.below)))
        (omega (arith, away, from, to))

  pub Given-Maps :
      {m m' : Memory} {ptr e dir flags k : ℕ}
      → Given heap m ptr e m'
      → IsTaken heap m dir
      → k < 1024
      → Maps heap m dir flags k
      → (u : Maps heap m' dir flags k) × (u.table ≢ e)
  Given-Maps {dir = dir} {k = k} g home lt t =
      let (ne, taken) = Given-IsTaken heap paged g t.table t.taken in
      let (u, same) =
        Maps-same t taken (λ a from to. Given-page g dir home a (omega arith) (omega arith))
          (Given-page g t.table t.taken) in
      (u, λ e. ne (sym same ∙ e))

  -- Where the flags have the PRESENT bit, the linked tables give back the address itself.
  pub Maps-translate :
      (m : Memory) (dir flags va : ℕ)
      → flags < 256
      → flags % 2 ≡ 1
      → Maps heap m dir flags (va / 2 ^ 22)
      → translate m (page_of heap dir) va ≡ some va
  unfolding frame_of place table_of
  Maps-translate m dir flags va small present t =
      let k = va / 2 ^ 22 in
      let j = va / 4096 % 1024 in
      let whole : page_of heap t.table / 4096 * 4096 ≡ page_of heap t.table =
        omega (arith, paged.aligned) in
      let entry = (k * 1024 + j) * 4096 + flags in
      let value : read_word m (place m (page_of heap dir) va) ≡ entry =
        rw (t.link, whole) (t.entries j (omega arith)) in
      let test : (entry % 2 == 1) ≡ true = ground (arith, present) in
      let sum : entry / 4096 * 4096 + va % 4096 ≡ va = omega arith in
      translate_linked m (page_of heap dir) va entry (omega (arith, t.present, present)) value
      ∙ rw (test, sum) refl

fill_table-apart :
    (m : Memory) (table offset flags j n a : ℕ)
    → (a < table + 4 * j) ⊎ (table + 4 * (j + n) ≤ a)
    → fill_table m table offset flags j n a ≡ m a
unfolding fill_table
fill_table-apart m table offset flags j zero a apart = refl
fill_table-apart m table offset flags j (suc n) a apart =
    let v = bit_or (offset +w j *w 4096) flags in
    fill_table-apart (write_word m (table + 4 * j) v) table offset flags (j + 1) n a (omega arith)
    ∙ write_word-apart m (table + 4 * j) v a (omega arith)

-- A round changes the page of its table and its entry of the directory.
pub linked-apart :
    (m : Memory) (directory table flags i a : ℕ)
    → (a < table * 4096) ⊎ (table * 4096 + 4096 ≤ a)
    → (a < directory + 4 * i) ⊎ (directory + 4 * i + 4 ≤ a)
    → linked m directory table flags i a ≡ m a
linked-apart m directory table flags i a page word =
    write_word-apart (filled m table flags i) (directory + 4 * i) _ a word
    ∙ fill_table-apart m (table * 4096) (i * 4194304) flags 0 1024 a (omega arith)
