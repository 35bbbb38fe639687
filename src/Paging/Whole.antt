-- ===== src/Paging/Whole.antt =====
-- paging_new_4gb as a whole: every address of the 4 GiB translates to itself.
use kernel_play.Prelude.{
  ℕ, zero, suc, ◌+◌, ◌*◌, ◌/◌, ◌^◌, ◌≤◌, ◌<◌, ◌≡◌, refl, sym, ap, ◌∙◌, arith, inl, false, ◌==◌,
  ◌+w◌, ◌*w◌, ℕ_discrete, subst, word, some, ◌%◌,
}
use kernel_play.Prelude.Run.{ok}
use kernel_play.Memory.{Memory}
use kernel_play.Heap.{Heap, kheap_zalloc}
use kernel_play.Paging.{
  read_word, write_word, fill_directory, paging_new_4gb, paging_4gb_chunk_get_directory,
}
use kernel_play.Paging.Words.{write_word-apart, read_word-write_word_self}
use kernel_play.Paging.Walk.{translate}
use kernel_play.Paging.Identity.{linked, linked_directory, linked_table}
use kernel_play.Paging.Pages.{IsPaged, IsTaken, HasRoom, Given, page_of, Given-IsTaken, zalloc_page}
use kernel_play.Paging.Tables.{
  Maps, IsTaken-same, HasRoom-same, Maps-same, pages_apart, Given-Maps, Maps-translate,
  linked-apart,
}

-- The state between two rounds: the directory's page is taken, there is room for `n` pages, and the
-- entries below `i` are linked.
pub record Linked (heap : Heap) (m : Memory) (dir flags i n : ℕ) : Type 0 where
  pub home : IsTaken heap m dir
  pub room : HasRoom heap m n
  pub maps : (k : ℕ) → k < i → Maps heap m dir flags k

pub one_round :
    (heap : Heap) (m m1 m' : Memory) (directory table flags i n : ℕ)
    → kheap_zalloc heap m 4096 ≡ ok (table * 4096, m1)
    → 0 < table
    → 0 < directory
    → fill_directory heap
        (linked m1 directory table flags i)
        directory
        (i * 4194304 +w 4096 *w 1024)
        flags
        (i + 1)
        n
      ≡ ok m'
    → fill_directory heap m directory (i * 4194304) flags i (suc n) ≡ ok m'
unfolding fill_directory
one_round heap m m1 m' directory table flags i n run some_table some_directory rest =
    let not_null : (table * 4096 == 0) ≡ false = ground arith in
    let placed : (directory == 0) ≡ false = ground arith in rw (run, not_null, placed) rest

module _ (heap : Heap) (paged : IsPaged heap) where
  -- What a round leaves, behind the allocation of its table.
  round_leaves :
      (m m1 : Memory) (ptr e dir flags i n table : ℕ)
      → flags < 256
      → i < 1024
      → Linked heap m dir flags i (suc n)
      → Given heap m ptr e m1
      → HasRoom heap m1 n
      → page_of heap e ≡ table * 4096
      → Linked heap (linked m1 (page_of heap dir) table flags i) dir flags (i + 1) n
  round_leaves m m1 ptr e dir flags i n table small lt before g room at =
      let m2 = linked m1 (page_of heap dir) table flags i in
      let home1 = (Given-IsTaken heap paged g dir before.home).1 in
      let ne = (Given-IsTaken heap paged g dir before.home).0 in
      let away = pages_apart heap dir e home1.above g.taken.above ne in
      let below_pages : (a : ℕ) → a < heap.table.entries + heap.table.size → m2 a ≡ m1 a = λ a h.
        linked-apart m1 (page_of heap dir) table flags i a
          (inl (omega (arith, at, paged.placed.apart, h)))
          (inl (omega (arith, paged.placed.apart, h))) in
      let page_below : table < 2 ^ 20 =
        omega (arith, at, paged.placed.low, g.taken.below, g.taken.above) in
      let new : Maps heap m2 dir flags i = record {
        table = e;
        taken = IsTaken-same g.taken (below_pages e g.taken.below);
        apart = λ same. ne (sym same);
        link =
            (linked_directory m1 (page_of heap dir) table flags i page_below small).0
            ∙ omega (arith, at);
        present = (linked_directory m1 (page_of heap dir) table flags i page_below small).1;
        entries = λ j h.
            let there =
              linked_table m1 (page_of heap dir) table flags i j small lt h
                (omega (arith, away, at)) in
            rw at there;
      } in
      record {
        home = IsTaken-same home1 (below_pages dir home1.below);
        room = HasRoom-same room below_pages;
        maps = λ k h. elim (ℕ_discrete k i) [
          | yes same ↦ subst (λ x. Maps heap m2 dir flags x) (sym same) new
          | no other ↦
              let (t, apart) =
                Given-Maps heap paged g before.home (omega arith) (before.maps k (omega arith)) in
              let far = pages_apart heap t.table e t.taken.above g.taken.above apart in
              let off = pages_apart heap t.table dir t.taken.above home1.above t.apart in
              (Maps-same t (IsTaken-same t.taken (below_pages t.table t.taken.below))
                (λ a from to.
                  linked-apart m1 (page_of heap dir) table flags i a
                    (omega (arith, away, at, from, to, h)) (omega arith))
                (λ a from to.
                  linked-apart m1 (page_of heap dir) table flags i a (omega (arith, far, at))
                    (omega (arith, off, lt)))).0
        ];
      }

  -- The rounds that are left link the entries that are left.
  rounds_link :
      (n spare : ℕ) (m : Memory) (dir flags i offset : ℕ)
      → flags < 256
      → i + n ≤ 1024
      → offset ≡ word (i * 4194304)
      → Linked heap m dir flags i (n + spare)
      → (m' : Memory) × (fill_directory heap m (page_of heap dir) offset flags i n ≡ ok m')
        × Linked heap m' dir flags (i + n) spare
  unfolding fill_directory
  rounds_link zero spare m dir flags i offset small fits at before = (
    m,
    refl,
    let all : i + 0 ≡ i = omega arith in
        let left : 0 + spare ≡ spare = omega arith in
        rw (all) (subst (Linked heap m dir flags i) left before),
  )
  rounds_link (suc n) spare m dir flags i offset small fits at before =
      let left : suc n + spare ≡ suc (n + spare) = omega arith in
      let ready = subst (Linked heap m dir flags i) left before in
      let (ptr, e, m1, run, g, room) =
        zalloc_page heap paged m 4096 (n + spare) (omega arith) (omega arith) ready.room in
      let table = page_of heap e / 4096 in
      let whole : page_of heap e ≡ table * 4096 = omega (arith, paged.aligned) in
      let here : offset ≡ i * 4194304 = omega arith in
      let after =
        round_leaves m m1 ptr e dir flags i (n + spare) table small (omega arith) ready g room
          whole in
      let (m', rest, done) =
        rounds_link n spare (linked m1 (page_of heap dir) table flags i) dir flags (i + 1)
          (i * 4194304 +w 4096 *w 1024) small (omega arith) (omega arith) after in
      let given : kheap_zalloc heap m 4096 ≡ ok (table * 4096, m1) =
        run ∙ ap (λ p. ok (p, m1)) (g.at ∙ whole) in
      let all : i + suc n ≡ i + 1 + n = omega arith in
      (
        m',
        subst (λ o. fill_directory heap m (page_of heap dir) o flags i (suc n) ≡ ok m') (sym here)
            (one_round heap m m1 m' (page_of heap dir) table flags i n given
              (omega (arith, whole, paged.placed.apart)) (omega (arith, paged.placed.apart)) rest),
        subst (λ k. Linked heap m' dir flags k spare) (sym all) done,
      )

  -- The chunk has a page of its own, so the store of the directory's address leaves the tables.
  chunk_leaves :
      {m m1 : Memory} {chunk c dir flags : ℕ}
      → Given heap m chunk c m1
      → IsTaken heap m dir
      → (v k : ℕ) → k < 1024
      → Maps heap m dir flags k
      → Maps heap (write_word m1 (page_of heap c) v) dir flags k
  chunk_leaves {m1 = m1} {c = c} {dir = dir} g home v k lt before =
      let (t, apart) = Given-Maps heap paged g home lt before in
      let (ne, home1) = Given-IsTaken heap paged g dir home in
      let far = pages_apart heap t.table c t.taken.above g.taken.above apart in
      let off = pages_apart heap dir c home1.above g.taken.above ne in
      let entry : write_word m1 (page_of heap c) v t.table ≡ m1 t.table =
        write_word-apart m1 (page_of heap c) v t.table
          (inl (omega (arith, paged.placed.apart, t.taken.below))) in
      (Maps-same t (IsTaken-same t.taken entry)
        (λ a from to. write_word-apart m1 (page_of heap c) v a (omega (arith, off)))
        (λ a from to. write_word-apart m1 (page_of heap c) v a (omega (arith, far)))).0

  -- Where the heap has 1026 free blocks in a row and the flags, a byte, have the PRESENT bit,
  -- `paging_new_4gb` goes through: it returns a chunk whose directory translates every 32-bit address
  -- to itself, through a present entry of the directory and a present entry of its table.
  pub paging_new_4gb-identity :
      (m : Memory) (flags : ℕ)
      → flags < 256
      → flags % 2 ≡ 1
      → HasRoom heap m 1026
      → (chunk : ℕ) × (m' : Memory) × (paging_new_4gb heap m flags ≡ ok (chunk, m'))
        × ((va : ℕ)
            → va < 2 ^ 32
            → translate m' (paging_4gb_chunk_get_directory m' chunk) va ≡ some va)
  unfolding paging_new_4gb paging_4gb_chunk_get_directory
  paging_new_4gb-identity m flags small present room =
      let (ptr, dir, m1, run, g, room1) =
        zalloc_page heap paged m 4096 1025 (omega arith) (omega arith) room in
      let start : Linked heap m1 dir flags 0 (1024 + 1) = record {
        home = g.taken;
        room = room1;
        maps = λ k h. absurd (omega arith);
      } in
      let (m2, filled, done) = rounds_link 1024 1 m1 dir flags 0 0 small (omega arith) refl start in
      let (chunk, c, m3, run3, g3, _) =
        zalloc_page heap paged m2 4 0 (omega arith) (omega arith) done.room in
      let directory = page_of heap dir in
      let m4 = write_word m3 (page_of heap c) directory in
      let at_dir : kheap_zalloc heap m 4096 ≡ ok (directory, m1) =
        run ∙ ap (λ p. ok (p, m1)) g.at in
      let at_chunk : kheap_zalloc heap m2 4 ≡ ok (page_of heap c, m3) =
        run3 ∙ ap (λ p. ok (p, m3)) g3.at in
      let some_chunk : (page_of heap c == 0) ≡ false = ground (arith, paged.placed.apart) in
      let stored : read_word m4 (page_of heap c) ≡ directory =
        read_word-write_word_self m3 (page_of heap c) directory
          (omega (arith, paged.placed.low, done.home.below, done.home.above)) in
      (
        page_of heap c,
        m4,
        rw (at_dir, filled, at_chunk, some_chunk) refl,
        λ va fits.
            let k = va / 2 ^ 22 in
            let maps = done.maps k (omega arith) in
            let kept = chunk_leaves g3 done.home directory k (omega arith) maps in
            ap (λ d. translate m4 d va) stored
            ∙ Maps-translate heap paged m4 dir flags va small present kept,
      )
