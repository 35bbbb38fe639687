-- ===== src/Fat/Read.antt =====
-- `fat16_read_internal_v2` from any offset of a file, and `fat16_read`, which calls it for each
-- member.
use kernel_play.Prelude.{
  ℕ, zero, suc, ◌+◌, ◌*◌, ◌/◌, ◌%◌, ◌≤◌, ◌<◌, ◌≡◌, refl, ap, subst, ◌∙◌, sym, List, [], ◌∷◌, arith,
  false, some, length, take, drop, int_div, int_mod, ◌==◌, rounds,
}
use kernel_play.Prelude.Run.{ok}
use kernel_play.Disk.{Drive}
use kernel_play.Disk.Image.{Holds}
use kernel_play.Disk.Slices.{drop_past}
use kernel_play.Disk.Stream.{at}
use kernel_play.Fat.Layout.{FatPrivate}
use kernel_play.Fat.Clusters.{
  pass_clusters, get_cluster_for_offset, read_internal_from_stream, read_internal,
}
use kernel_play.Fat.Chain.{
  with_table, cluster_bytes, cluster_pos, table_pos, IsChain, IsSmall, IsChain-head,
  pass_clusters-next,
}
use kernel_play.Fat.Content.{content, cluster_size_lem, read_chain, Reads}

module _ {drive : Drive} {image : ℕ → ℕ} (holds : Holds drive image) where
  -- What passing `n` clusters of a chain leads to: the rest of the chain.
  record Passed (n q c : ℕ) (fp : FatPrivate) (ds : List ℕ) : Type 0 where
    cluster : ℕ
    rest : List ℕ
    table : ℕ
    run : pass_clusters drive 512 n (with_table fp q) c ≡ ok (cluster, with_table fp table)
    chain : IsChain image fp cluster rest
    count : length ds ≡ n + length rest
    data_left :
        (r : ℕ)
        → drop (n * cluster_bytes fp + r) (content image fp (c ∷ ds))
          ≡ drop r (content image fp (cluster ∷ rest))

  pass-Passed :
      (n q c : ℕ) (fp : FatPrivate) (ds : List ℕ)
      → IsSmall fp
      → IsChain image fp c ds
      → n ≤ length ds
      → Passed n q c fp ds
  unfolding pass_clusters content
  pass-Passed zero q c fp ds small chain le = record {
    cluster = c;
    rest = ds;
    table = q;
    run = refl;
    chain = chain;
    count = omega arith;
    data_left = λ r. ap (λ k. drop k (content image fp (c ∷ ds))) (omega arith);
  }
  pass-Passed (suc n) q c fp [] small chain le = absurd (omega arith)
  pass-Passed (suc n) q c fp (d ∷ ds) small chain le =
      let later = pass-Passed n (table_pos fp c + 2) d fp ds small chain.2 (omega arith) in
      record {
        cluster = later.cluster;
        rest = later.rest;
        table = later.table;
        run =
            pass_clusters-next holds n fp q c small chain.0.short chain.1
              (IsChain-head image fp d ds chain.2).readable
            ∙ later.run;
        chain = later.chain;
        count = omega (arith, later.count);
        data_left = λ r.
            let e : suc n * cluster_bytes fp + r ≡ cluster_bytes fp + (n * cluster_bytes fp + r) =
              omega arith in
            ap (λ k. drop k (content image fp (c ∷ d ∷ ds))) e
            ∙ drop_past image (content image fp (d ∷ ds)) (cluster_pos fp c) (cluster_bytes fp)
                (n * cluster_bytes fp + r)
            ∙ later.data_left r;
      }

  div_lem :
      (off b l : ℕ)
      → 0 < b
      → off < suc l * b
      → (off / b ≤ l) × (off / b * b + off % b ≡ off) × (off % b < b)
  div_lem off b l pos h =
      let split : off / b * b + off % b ≡ off = grind arith in
      (le off (off / b) b l split h, split, grind arith)
    where
      le : (off k b l : ℕ) → k * b + off % b ≡ off → off < suc l * b → k ≤ l
      le off k b l e h = grind arith

  get_cluster_lem :
      (fp : FatPrivate) (q c off : ℕ)
      → IsSmall fp
      → off < 2147483648
      → get_cluster_for_offset drive 512 (with_table fp q) c off
        ≡ pass_clusters drive 512 (off / cluster_bytes fp) (with_table fp q) c
  unfolding get_cluster_for_offset
  get_cluster_lem fp q c off small h =
      let size = cluster_size_lem fp q small in
      let some_bytes : (cluster_bytes fp == 0) ≡ false = ground (arith, small.some_sectors) in
      let div : rounds (int_div off (cluster_bytes fp)) ≡ off / cluster_bytes fp = ground arith in
      ground (arith, size, some_bytes, div)

  from_stream-Reads :
      (fp : FatPrivate) (s q c off total : ℕ) (ds : List ℕ)
      → IsSmall fp
      → IsChain image fp c ds
      → 0 < total
      → off + total ≤ suc (length ds) * cluster_bytes fp
      → off + total < 2147483648
      → Reads holds fp
          (take total (drop off (content image fp (c ∷ ds))))
          (read_internal_from_stream drive 512 (at s) (with_table fp q) c off total)
  unfolding read_internal_from_stream
  from_stream-Reads fp s q c off total ds small chain pos fits big =
      let size = cluster_size_lem fp q small in
      let b = cluster_bytes fp in
      let (le, split, lt) =
        div_lem off b (length ds) (omega (arith, small.some_sectors)) (omega arith) in
      let passed = pass-Passed (off / b) q c fp ds small chain le in
      let rem : int_mod off b ≡ off % b = ground arith in
      let fits' : off % b + total ≤ suc (length passed.rest) * b =
        room (off / b) b (off % b) (length ds) (length passed.rest) total (omega (arith, split))
          passed.count in
      let (s', q', run) =
        read_chain holds (total + 1) s passed.table passed.cluster (off % b) total fp passed.rest
          small passed.chain lt fits' (omega arith) (omega arith) in
      let same : take total (drop off (content image fp (c ∷ ds)))
          ≡ take total (drop (off % b) (content image fp (passed.cluster ∷ passed.rest))) =
        ap (λ k. take total (drop k (content image fp (c ∷ ds)))) (sym split)
        ∙ ap (take total) (passed.data_left (off % b)) in
      (
        s',
        q',
        ground (
          arith,
          get_cluster_lem fp q c off small (omega arith),
          passed.run,
          size,
          rem,
          run,
          same,
        ),
      )
    where
      room :
          (k b r l l' total : ℕ)
          → k * b + r + total ≤ suc l * b
          → l ≡ k + l'
          → r + total ≤ suc l' * b
      room k b r l l' sum h e =
          let h' : k * b + r + sum ≤ suc (k + l') * b = rw e at h in omega arith

  -- The streams of the private data stand on the kernel's disk.
  pub record Streams (fp : FatPrivate) : Type 0 where
    pub cluster : ℕ
    pub table : ℕ
    pub cluster_at : fp.cluster_read_stream ≡ some (at cluster)
    pub table_at : fp.fat_read_stream ≡ some (at table)

  -- Reading moves streams and changes nothing else.
  pub record OnlyMoved (fp fp' : FatPrivate) : Type 0 where
    pub header : fp'.header ≡ fp.header
    pub root : fp'.root_directory ≡ fp.root_directory
    pub directory : fp'.directory_stream ≡ fp.directory_stream
    pub streams : Streams fp'

  -- For a file whose clusters are the chain `c ∷ ds`, a read of `total` bytes from `off` that ends
  -- inside the chain returns 0 and stores exactly those bytes of the clusters' data, in order; only
  -- the positions of the streams change.
  pub read_internal-content :
      (fp : FatPrivate) (c off total : ℕ) (ds : List ℕ)
      → Streams fp
      → IsSmall fp
      → IsChain image fp c ds
      → 0 < total
      → off + total ≤ suc (length ds) * cluster_bytes fp
      → off + total < 2147483648
      → (fp' : FatPrivate) × (read_internal drive 512 fp c off total
          ≡ ok (0, take total (drop off (content image fp (c ∷ ds))), fp'))
        × OnlyMoved fp fp'
  unfolding read_internal
  read_internal-content fp c off total ds on small chain pos fits big =
      let (s, q, run) =
        from_stream-Reads fp on.cluster on.table c off total ds small chain pos fits big in
      let same : with_table fp on.table ≡ fp =
        λ i. record fp { fat_read_stream = sym on.table_at i } in
      let fp' = with_table fp q in
      let run' =
        subst
          (λ x.
            read_internal_from_stream drive 512 (at on.cluster) x c off total
            ≡ ok (0, take total (drop off (content image fp (c ∷ ds))), at s, fp'))
          same run in
      (
        record fp { fat_read_stream = some (at q); cluster_read_stream = some (at s) },
        ground (arith, on.cluster_at, run'),
        record {
          header = refl;
          root = refl;
          directory = refl;
          streams = record { cluster = s; table = q; cluster_at = refl; table_at = refl };
        },
      )
