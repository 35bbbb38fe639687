-- ===== src/Fat/Content.antt =====
-- Reading a file: `fat16_read_internal_v2` against the data of the clusters of its chain.
use kernel_play.Prelude.{
  ℕ, zero, suc, ◌+◌, ◌-◌, ◌*◌, ◌≤◌, ◌<◌, ◌≡◌, refl, ap, subst, ◌∙◌, sym, List, [], ◌∷◌, ◌++◌, arith,
  true, false, length, take, drop, ◌+w◌, ◌-w◌, ◌*w◌, int_le, int_lt, ◌==◌, dec_lt, if◌then◌else◌,
}
use mathlib.Core.List.{append-nil}
use kernel_play.Prelude.Run.{Run, ok}
use kernel_play.Disk.{Drive, disk_streamer_seek_pos, Streamer}
use kernel_play.Disk.Image.{bytes, Holds}
use kernel_play.Disk.Slices.{slice_inside, slice_across}
use kernel_play.Disk.Stream.{at, read_bytes_lem}
use kernel_play.Fat.Layout.{FatPrivate}
use kernel_play.Fat.Clusters.{cluster_to_sector, cluster_size_in_bytes, read_clusters}
use kernel_play.Fat.Chain.{
  with_table, cluster_bytes, cluster_pos, table_pos, next_cluster, IsData, IsChain, IsSmall,
  get_fat_entry_lem,
}

-- The data of a list of clusters, one behind the other.
unfoldable pub content : (ℕ → ℕ) → FatPrivate → List ℕ → List ℕ
content image fp [] = []
content image fp (c ∷ cs) = bytes image (cluster_pos fp c) (cluster_bytes fp) ++ content image fp cs

pub cluster_size_lem :
    (fp : FatPrivate) (q : ℕ)
    → IsSmall fp
    → cluster_size_in_bytes 512 (with_table fp q) ≡ cluster_bytes fp
unfolding cluster_size_in_bytes
cluster_size_lem fp q small = omega (arith, small.clusters)

-- The position that the loop computes for an offset into a cluster.
place_lem :
    (fp : FatPrivate) (q c off : ℕ)
    → IsData fp c
    → off < cluster_bytes fp
    → off +w (cluster_to_sector (with_table fp q) c *w 512) ≡ cluster_pos fp c + off
unfolding cluster_to_sector
place_lem fp q c off good h =
    let skip : c -w 2 ≡ c - 2 = omega (arith, good.numbered, good.short) in
    rw skip (omega (arith, good.inside_disk))

module _ {drive : Drive} {image : ℕ → ℕ} (holds : Holds drive image) where
  read_zero :
      (fuel : ℕ) (s : Streamer) (fp : FatPrivate) (c off : ℕ)
      → read_clusters drive 512 (suc fuel) s fp c off 0 ≡ ok (0, [], s, fp)
  unfolding read_clusters
  read_zero fuel s fp c off = refl

  -- A round that ends inside its cluster is the last.
  read_within :
      (fuel s q c off total : ℕ) (fp : FatPrivate)
      → IsSmall fp
      → IsData fp c
      → 0 < total
      → off + total < cluster_bytes fp
      → read_clusters drive 512 (suc (suc fuel)) (at s) (with_table fp q) c off total
        ≡ ok (
          0,
          bytes image (cluster_pos fp c + off) total ++ [],
          at (cluster_pos fp c + off + total),
          with_table fp q,
        )
  unfolding read_clusters disk_streamer_seek_pos
  read_within fuel s q c off total fp small good pos inside =
      let size = cluster_size_lem fp q small in
      let e1 : int_le total 0 ≡ false = ground (arith, good.inside_disk) in
      let e2 : cluster_bytes fp -w off ≡ cluster_bytes fp - off = omega (arith, good.inside_disk) in
      let e3 : int_lt (cluster_bytes fp - off) total ≡ false = ground (arith, good.inside_disk) in
      let e4 = place_lem fp q c off good (omega arith) in
      let e5 =
        read_bytes_lem holds (cluster_pos fp c + off) total (omega (arith, good.inside_disk)) in
      let e6 : (total == (cluster_bytes fp - off)) ≡ false = ground arith in
      let e7 : total -w total ≡ 0 = omega arith in
      ground (arith, good.readable, size, e1, e2, e3, e4, e5, e6, e7)

  -- A round that reads its cluster to the end goes on with the next cluster.
  read_past :
      (fuel s q c off total : ℕ) (fp : FatPrivate) (rest : List ℕ) (s' : Streamer)
      (fp' : FatPrivate)
      → IsSmall fp
      → IsData fp c
      → off < cluster_bytes fp
      → let here = cluster_bytes fp - off in
        here ≤ total
        → total < 2147483648
        → read_clusters drive 512 fuel
            (at (cluster_pos fp c + off + here))
            (with_table fp (table_pos fp c + 2))
            (next_cluster image fp c)
            0
            (total - here)
          ≡ ok (0, rest, s', fp')
        → read_clusters drive 512 (suc fuel) (at s) (with_table fp q) c off total
          ≡ ok (0, bytes image (cluster_pos fp c + off) here ++ rest, s', fp')
  unfolding read_clusters disk_streamer_seek_pos
  read_past fuel s q c off total fp rest s' fp' small good inside le big next =
      let here = cluster_bytes fp - off in
      let size = cluster_size_lem fp q small in
      let e1 : int_le total 0 ≡ false = ground (arith, good.inside_disk) in
      let e2 : cluster_bytes fp -w off ≡ here = omega (arith, good.inside_disk) in
      let e3 : (if int_lt here total then here else total) ≡ here =
        ground (arith, good.inside_disk) in
      let e4 = place_lem fp q c off good inside in
      let e5 =
        read_bytes_lem holds (cluster_pos fp c + off) here (omega (arith, good.inside_disk)) in
      let e6 : (here == here) ≡ true = ground arith in
      let e7 : total -w here ≡ total - here = omega arith in
      let e8 = get_fat_entry_lem holds fp q c small good.short in
      ground (arith, good.readable, size, e1, e2, e3, e4, e5, e6, e7, e8, next)

  -- What the loop returns: no error, those bytes, and the table's stream somewhere else.
  abbrev pub Reads : FatPrivate → List ℕ → Run (ℕ × List ℕ × Streamer × FatPrivate) → Type 0
  Reads fp out run = (s : ℕ) × (q : ℕ) × (run ≡ ok (0, out, at s, with_table fp q))

  chain_within :
      (fuel s q c off total : ℕ) (fp : FatPrivate) (ds : List ℕ)
      → IsSmall fp
      → IsData fp c
      → 0 < total
      → off + total < cluster_bytes fp
      → Reads fp
          (take total (drop off (content image fp (c ∷ ds))))
          (read_clusters drive 512 (suc (suc fuel)) (at s) (with_table fp q) c off total)
  unfolding content
  chain_within fuel s q c off total fp ds small good pos within =
      let data_at = cluster_pos fp c in
      let slice =
        slice_inside image (content image fp ds) data_at (cluster_bytes fp) off total
          (omega arith) in
      (
        data_at + off + total,
        q,
        read_within fuel s q c off total fp small good pos within
            ∙ ap (λ l. ok (0, l, at (data_at + off + total), with_table fp q))
                (append-nil _ ∙ sym slice),
      )

  chain_past :
      (fuel s q c off total : ℕ) (fp : FatPrivate) (ds : List ℕ)
      → IsSmall fp
      → IsData fp c
      → off < cluster_bytes fp
      → let here = cluster_bytes fp - off in
        here ≤ total
        → total < 2147483648
        → Reads fp (take (total - here) (content image fp ds)) (
            read_clusters drive 512 fuel
              (at (cluster_pos fp c + off + here))
              (with_table fp (table_pos fp c + 2))
              (next_cluster image fp c)
              0
              (total - here))
        → Reads fp
            (take total (drop off (content image fp (c ∷ ds))))
            (read_clusters drive 512 (suc fuel) (at s) (with_table fp q) c off total)
  unfolding content
  chain_past fuel s q c off total fp ds small good inside le big (s', q', run) =
      let slice =
        slice_across image (content image fp ds) (cluster_pos fp c) (cluster_bytes fp) off total
          (omega arith) le in
      (
        s',
        q',
        read_past fuel s q c off total fp _ (at s') (with_table fp q') small good inside le big run
            ∙ ap (λ l. ok (0, l, at s', with_table fp q')) (sym slice),
      )

  pub read_chain :
      (fuel s q c off total : ℕ) (fp : FatPrivate) (ds : List ℕ)
      → IsSmall fp
      → IsChain image fp c ds
      → off < cluster_bytes fp
      → off + total ≤ suc (length ds) * cluster_bytes fp
      → total < 2147483648
      → total < fuel
      → Reads fp
          (take total (drop off (content image fp (c ∷ ds))))
          (read_clusters drive 512 fuel (at s) (with_table fp q) c off total)
  read_chain zero s q c off total fp ds small chain inside fits big enough = absurd (omega arith)
  read_chain (suc fuel) s q c off zero fp ds small chain inside fits big enough =
      (s, q, read_zero fuel (at s) (with_table fp q) c off)
  read_chain (suc zero) s q c off (suc t) fp ds small chain inside fits big enough =
      absurd (omega arith)
  read_chain (suc (suc fuel)) s q c off (suc t) fp [] small good inside fits big enough =
      elim (dec_lt (off + suc t) (cluster_bytes fp)) [
        | yes within ↦ chain_within fuel s q c off (suc t) fp [] small good (omega arith) within
        | no past ↦
            let here = cluster_bytes fp - off in
            let none_left : 0 ≡ suc t - here = omega arith in
            let s' = cluster_pos fp c + off + here in
            let fp' = with_table fp (table_pos fp c + 2) in
            let over = read_zero fuel (at s') fp' (next_cluster image fp c) 0 in
            chain_past (suc fuel) s q c off (suc t) fp [] small good inside (omega arith) big (
              s',
              table_pos fp c + 2,
              subst
                  (λ n.
                    read_clusters drive 512 (suc fuel) (at s') fp' (next_cluster image fp c) 0 n
                    ≡ ok (0, take n (content image fp []), at s', fp'))
                  none_left over,
            )
      ]
  read_chain (suc (suc fuel)) s q c off (suc t) fp (d ∷ ds) small chain inside fits big enough =
      elim (dec_lt (off + suc t) (cluster_bytes fp)) [
        | yes within ↦
            chain_within fuel s q c off (suc t) fp (d ∷ ds) small chain.0 (omega arith) within
        | no past ↦
            let here = cluster_bytes fp - off in
            let rest =
              read_chain (suc fuel) (cluster_pos fp c + off + here) (table_pos fp c + 2) d 0
                (suc t - here) fp ds small chain.2 (omega (arith, small.some_sectors)) (omega arith)
                (omega arith) (omega arith) in
            chain_past (suc fuel) s q c off (suc t) fp (d ∷ ds) small chain.0 inside (omega arith)
              big (rw chain.1 rest)
      ]
