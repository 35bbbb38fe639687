-- ===== src/Fat/Members.antt =====
-- `fat16_read` of several members against one read of all their bytes.
use kernel_play.Prelude.{
  ℕ, zero, suc, ◌+◌, ◌*◌, ◌≤◌, ◌<◌, ◌≡◌, refl, ap, subst, ◌∙◌, sym, List, [], ◌∷◌, ◌++◌, arith,
  Option, some, length, take, drop, ◌+w◌,
}
use kernel_play.Prelude.Run.{ok}
use kernel_play.Disk.{Drive, Streamer}
use kernel_play.Disk.Image.{bytes, Holds}
use kernel_play.Fat.Layout.{FatPrivate, DirectoryItem, FatFileDescriptor, file}
use kernel_play.Fat.Clusters.{get_first_cluster, read_internal}
use kernel_play.Fat.Chain.{cluster_bytes, cluster_pos, IsChain, IsData, IsSmall}
use kernel_play.Fat.Content.{content}
use kernel_play.Fat.Read.{Streams, OnlyMoved, read_internal-content}
use kernel_play.Fat.File.{read_members, fat16_read}

module _ {ℓ} {A : Type ℓ} where
  take-nil : (n : ℕ) → take {A = A} n [] ≡ []
  take-nil zero = refl
  take-nil (suc n) = refl

  take_add : (a b : ℕ) (xs : List A) → take a xs ++ take b (drop a xs) ≡ take (a + b) xs
  take_add zero b xs = ap (λ k. take k xs) (omega arith)
  take_add (suc a) b [] = let e : suc a + b ≡ suc (a + b) = omega arith in rw e (take-nil b)
  take_add (suc a) b (x ∷ xs) =
      let e : suc a + b ≡ suc (a + b) = omega arith in rw e (ap (λ l. x ∷ l) (take_add a b xs))

  drop_add : (off a : ℕ) (xs : List A) → drop (off + a) xs ≡ drop a (drop off xs)
  drop_add zero a xs = ap (λ k. drop k xs) (omega arith)
  drop_add (suc off) zero [] = let e : suc off + 0 ≡ suc off = omega arith in rw e refl
  drop_add (suc off) (suc a) [] =
      let e : suc off + suc a ≡ suc (off + suc a) = omega arith in rw e refl
  drop_add (suc off) a (x ∷ xs) =
      let e : suc off + a ≡ suc (off + a) = omega arith in rw e (drop_add off a xs)

  -- A stretch is its first part and what follows it.
  take_split :
      (a b off : ℕ) (xs : List A)
      → take a (drop off xs) ++ take b (drop (off + a) xs) ≡ take (a + b) (drop off xs)
  take_split a b off xs = rw (drop_add off a xs) (take_add a b (drop off xs))

-- Only the streams of data and table differ.
abbrev restream : FatPrivate → Option Streamer → Option Streamer → FatPrivate
restream fp s q = record fp { cluster_read_stream = s; fat_read_stream = q }

content-restream :
    (image : ℕ → ℕ) (fp : FatPrivate) (s q : Option Streamer) (cs : List ℕ)
    → content image (restream fp s q) cs ≡ content image fp cs
unfolding content
content-restream image fp s q [] = refl
content-restream image fp s q (c ∷ cs) =
    ap (λ l. bytes image (cluster_pos fp c) (cluster_bytes fp) ++ l)
      (content-restream image fp s q cs)

IsData-restream :
    (fp : FatPrivate) (s q : Option Streamer) (c : ℕ) → IsData fp c → IsData (restream fp s q) c
IsData-restream fp s q c d = record {
  numbered = d.numbered;
  short = d.short;
  readable = d.readable;
  inside_disk = d.inside_disk;
}

IsChain-restream :
    (image : ℕ → ℕ) (fp : FatPrivate) (s q : Option Streamer) (c : ℕ) (ds : List ℕ)
    → IsChain image fp c ds
    → IsChain image (restream fp s q) c ds
IsChain-restream image fp s q c [] h = IsData-restream fp s q c h
IsChain-restream image fp s q c (d ∷ ds) h =
    (IsData-restream fp s q c h.0, h.1, IsChain-restream image fp s q d ds h.2)

module _ {drive : Drive} {image : ℕ → ℕ} (holds : Holds drive image) where
  restream-Streams :
      (fp fp' : FatPrivate)
      → OnlyMoved holds fp fp'
      → Streams holds (restream fp fp'.cluster_read_stream fp'.fat_read_stream)
  restream-Streams fp fp' moved = record {
    cluster = moved.streams.cluster;
    table = moved.streams.table;
    cluster_at = moved.streams.cluster_at;
    table_at = moved.streams.table_at;
  }

  members_step :
      (n : ℕ) (fp fp1 fp2 : FatPrivate) (c off size : ℕ) (text : List ℕ)
      → read_internal drive 512 fp c off size ≡ ok (0, take size (drop off text), fp1)
      → off +w size ≡ off + size
      → read_members drive 512 n fp1 c (off + size) size
        ≡ ok (0, take (n * size) (drop (off + size) text), fp2)
      → read_members drive 512 (suc n) fp c off size
        ≡ ok (0, take (suc n * size) (drop off text), fp2)
  unfolding read_members
  members_step n fp fp1 fp2 c off size text run next rest =
      let all : suc n * size ≡ size + n * size = omega arith in
      let joined = take_split size (n * size) off text in
      rw all (ground (arith, run, next, rest, joined))

  -- The members that are read are the bytes of the file, in order.
  members_lem :
      (n : ℕ) (fp : FatPrivate) (c off size : ℕ) (ds : List ℕ)
      → Streams holds fp
      → IsSmall fp
      → IsChain image fp c ds
      → 0 < size
      → off + n * size ≤ suc (length ds) * cluster_bytes fp
      → off + n * size < 2147483648
      → (fp' : FatPrivate) × (read_members drive 512 n fp c off size
          ≡ ok (0, take (n * size) (drop off (content image fp (c ∷ ds))), fp'))
        × OnlyMoved holds fp fp'
  unfolding read_members
  members_lem zero fp c off size ds on small chain pos fits big = (
    fp,
    let e : 0 * size ≡ 0 = omega arith in rw e refl,
    record { header = refl; root = refl; directory = refl; streams = on },
  )
  members_lem (suc n) fp c off size ds on small chain pos fits big =
      let all : suc n * size ≡ size + n * size = omega arith in
      let (fp1, run, moved) =
        read_internal-content holds fp c off size ds on small chain pos (omega (arith, all))
          (omega (arith, all)) in
      let later = restream fp fp1.cluster_read_stream fp1.fat_read_stream in
      let same : later ≡ fp1 = λ i. record fp1 {
        header = sym moved.header i;
        root_directory = sym moved.root i;
        directory_stream = sym moved.directory i;
      } in
      let (fp2, run', moved') =
        members_lem n later c (off + size) size ds (restream-Streams fp fp1 moved)
          (record {
            reserved = small.reserved;
            clusters = small.clusters;
            some_sectors = small.some_sectors;
          })
          (IsChain-restream image fp fp1.cluster_read_stream fp1.fat_read_stream c ds chain) pos
          (omega (arith, all)) (omega (arith, all)) in
      let next : off +w size ≡ off + size = omega (arith, all) in
      let bytes_left =
        content-restream image fp fp1.cluster_read_stream fp1.fat_read_stream (c ∷ ds) in
      let rest : read_members drive 512 n fp1 c (off + size) size
          ≡ ok (0, take (n * size) (drop (off + size) (content image fp (c ∷ ds))), fp2) =
        subst
          (λ x.
            read_members drive 512 n x c (off + size) size
            ≡ ok (0, take (n * size) (drop (off + size) (content image later (c ∷ ds))), fp2))
          same run'
        ∙ ap (λ l. ok (0, take (n * size) (drop (off + size) l), fp2)) bytes_left in
      (
        fp2,
        members_step n fp fp1 fp2 c off size (content image fp (c ∷ ds)) run next rest,
        record {
          header = moved'.header;
          root = moved'.root;
          directory = moved'.directory;
          streams = moved'.streams;
        },
      )

  -- `fat16_read` of `nmemb` members of `size` bytes gives the same bytes of the file as one read of
  -- all of them from the descriptor's position, and changes only the positions of the streams.
  pub fat16_read-content :
      (fp : FatPrivate) (desc : FatFileDescriptor) (ptr : ℕ) (item : DirectoryItem) (size nmemb : ℕ)
      (ds : List ℕ)
      → desc.item ≡ file ptr (some item)
      → Streams holds fp
      → IsSmall fp
      → IsChain image fp (get_first_cluster item) ds
      → 0 < size
      → desc.pos + nmemb * size ≤ suc (length ds) * cluster_bytes fp
      → desc.pos + nmemb * size < 2147483648
      → (fp' : FatPrivate) × (fat16_read drive 512 fp desc size nmemb
          ≡ ok (
            0,
            take (nmemb * size) (drop desc.pos (content image fp (get_first_cluster item ∷ ds))),
            fp',
          ))
        × OnlyMoved holds fp fp'
  unfolding fat16_read
  fat16_read-content fp desc ptr item size nmemb ds is on small chain pos fits big =
      let (fp', run, moved) =
        members_lem nmemb fp (get_first_cluster item) desc.pos size ds on small chain pos fits
          big in
      (fp', ground (arith, is, run), moved)
