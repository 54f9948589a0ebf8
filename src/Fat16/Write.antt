-- ===== src/Fat16/Write.antt =====
-- The whole loop of fat16_write_file in kernel/src/fat16.c, and a read after it.
use reborn_os.Prelude.{
  ℕ, zero, suc, ◌+◌, ◌-◌, ◌*◌, min, ◌≤◌, ◌<◌, ◌≡◌, ◌≢◌, refl, sym, ap, ◌∙◌, ltb, if◌then◌else◌,
  arith, ok, Bool-cases, ◌⊎◌, inl, inr, ==_ne,
}
use reborn_os.Fat16.Name.{Buf}
use reborn_os.Fat16.Volume.{Volume, write_sectors}
use reborn_os.Fat16.File.{alloc_cluster, write_loop, fat16_read}
use reborn_os.Fat16.Chain.{Mounted, address, Holds, done, more, fat16_read-Copied}
use reborn_os.Fat16.Round.{
  after_round, round-fat_new, round-disk, round-disk_new, round-Mounted, round-left, round-free,
}
use reborn_os.Fat16.Clusters.{free_clusters, alloc_cluster-free}
use reborn_os.Fat16.WriteLoop.{Written, write_loop-round, write_loop-Written}

-- The file system after a file's bytes are written: the chain from `first` on holds them, and no
-- cluster that was in use is touched.
pub record Stored (src : Buf) (size : ℕ) (v : Volume) (n : ℕ) : Type 0 where
  pub first : ℕ
  pub fat : ℕ → ℕ
  pub disk : Buf
  pub returns :
      write_loop n 0 0 src 0 size v ≡ ok (first, record v { fat_cache = fat; disk = disk })
  pub holds : Holds (record v { fat_cache = fat; disk = disk }) src first 0 size
  pub keeps_fat : (x : ℕ) → v.fat_cache x ≢ 0 → fat x ≡ v.fat_cache x
  pub keeps_disk :
      (x o : ℕ)
      → (2 ≤ x) × (x < v.fat_cache_entries)
      → v.fat_cache x ≢ 0
      → o < v.cluster_size_bytes
      → disk (address v x + o) ≡ v.disk (address v x + o)

-- The first round, which links the new cluster behind none.
module _ (v : Volume) (m : Mounted v) (c n : ℕ) (src : Buf) (size : ℕ) (e : alloc_cluster v ≡ ok c)
    (z : v.fat_cache c ≡ 0) (inside : (2 ≤ c) × (c < v.fat_cache_entries))
    (rest : Written n c src
      (0 + min v.cluster_size_bytes size)
      (size - min v.cluster_size_bytes size)
      (after_round v 0 c src 0 size)) where
  first_apart : (x : ℕ) → v.fat_cache x ≢ 0 → x ≢ c
  first_apart x h k = h (ap v.fat_cache k ∙ z)

  first_fat :
      (x : ℕ) → v.fat_cache x ≢ 0 → (after_round v 0 c src 0 size).fat_cache x ≡ v.fat_cache x
  unfolding write_sectors
  first_fat x h = rw (==_ne x c (first_apart x h)) refl

  first_stored :
      (o : ℕ) → o < min v.cluster_size_bytes size → rest.disk (address v c + o) ≡ src (0 + o)
  unfolding write_sectors
  first_stored o l =
      rest.keeps_disk c o inside
        (λ u. omega (arith, u, round-fat_new v m 0 c src 0 size (inl refl) z inside)) (omega arith)
      ∙ round-disk_new v m 0 c src 0 size (inl refl) z inside o l

  first-Holds : Holds (record v { fat_cache = rest.fat; disk = rest.disk }) src c 0 size
  unfolding write_sectors
  first-Holds = elim (Bool-cases (ltb 0 size)) [
    | inl p ↦ more (ground arith) inside first_stored rest.holds
    | inr p ↦ (let k : size ≡ 0 = ground arith in rw k done)
  ]

  first_round : Stored src size v (suc n)
  unfolding write_sectors
  first_round = record {
    first = c;
    fat = rest.fat;
    disk = rest.disk;
    returns = write_loop-round n 0 0 c src 0 size v e ∙ rest.returns c;
    holds = first-Holds;
    keeps_fat = λ x h.
        rest.keeps_fat x (first_apart x h) (λ u. h (sym (first_fat x h) ∙ u)) ∙ first_fat x h;
    keeps_disk = λ x o a h l.
        rest.keeps_disk x o a (λ u. h (sym (first_fat x h) ∙ u)) l
        ∙ round-disk v m 0 c src 0 size (inl refl) z inside x o a (first_apart x h) l;
  }

-- On a volume with clusters of 512-byte sectors and cluster numbers below the end marks, with
-- enough free clusters, the loop of fat16_write_file returns, the chain that it makes holds the
-- bytes of the file, and every cluster that was in use keeps its link and its bytes.
pub write_loop-Stored :
    (n : ℕ) (src : Buf) (size : ℕ) (v : Volume)
    → Mounted v
    → n ≤ free_clusters v
    → size ≤ n * v.cluster_size_bytes
    → Stored src size v n
write_loop-Stored zero src size v m f l = record {
  first = 0;
  fat = v.fat_cache;
  disk = v.disk;
  returns = unfold write_loop in refl;
  holds = (let e : size ≡ 0 = omega arith in rw e done);
  keeps_fat = λ x h. refl;
  keeps_disk = λ x o a h l. refl;
}
write_loop-Stored (suc n) src size v m f l =
    let (c, e, z, lo, hi) = alloc_cluster-free v (omega arith) in
    let start : (◌≡◌ {A = ℕ} 0 0) ⊎ (v.fat_cache 0 ≢ 0) = inl refl in
    first_round v m c n src size e z (lo, hi)
      (write_loop-Written n c src (0 + min v.cluster_size_bytes size)
        (size - min v.cluster_size_bytes size) (after_round v 0 c src 0 size)
        (round-Mounted v m 0 c src 0 size start z (lo, hi)) (λ k. omega (arith, lo, k))
        (λ k. omega (arith, k, round-fat_new v m 0 c src 0 size start z (lo, hi)))
        (omega (arith, round-free v m 0 c src 0 size start z (lo, hi)))
        (round-left v m 0 c src 0 size start z (lo, hi) n l))

-- On a volume with clusters of 512-byte sectors and cluster numbers below the end marks, with
-- enough free clusters, the loop of fat16_write_file returns, and a fat16_read of the new file
-- into a buffer with room for it copies exactly its bytes.
pub fat16_read-write_loop :
    (n : ℕ) (src buf : Buf) (size : ℕ) (v : Volume)
    → Mounted v
    → n ≤ free_clusters v
    → size ≤ n * v.cluster_size_bytes
    → (first : ℕ) × (w : Volume) × (out : Buf) × (write_loop n 0 0 src 0 size v ≡ ok (first, w))
      × (fat16_read w (record { cluster = first; size = size }) buf size ≡ ok (size, out))
      × ((o : ℕ) → out o ≡ (if ltb o size then src o else buf o))
fat16_read-write_loop n src buf size v m f l =
    let s = write_loop-Stored n src size v m f l in
    let w = record v { fat_cache = s.fat; disk = s.disk } in
    let mounted : Mounted w = record {
      size = m.size;
      nonzero = m.nonzero;
      sectors = m.sectors;
      entries = m.entries;
    } in
    let (out, e, same) =
      fat16_read-Copied w src buf (record { cluster = s.first; size = size }) size mounted
        s.holds in
    (
      s.first,
      w,
      out,
      s.returns,
      e ∙ ap (λ k. ok (k, out)) (omega arith),
      λ o. same o ∙ ground (arith, ap src {x = 0 + (o - 0)} {y = o} (omega arith)),
    )
