-- ===== src/Fat16/WriteLoop.antt =====
-- The rounds of that loop behind a first cluster: fat16_write_file in kernel/src/fat16.c.
use reborn_os.Prelude.{
  ℕ, zero, suc, ◌+◌, ◌-◌, ◌*◌, min, ◌≤◌, ◌<◌, ◌≡◌, ◌≢◌, refl, sym, ap, ◌∙◌, ltb, ◌==◌,
  if◌then◌else◌, arith, ok, Bool-cases, ◌⊎◌, inl, inr,
}
use reborn_os.Fat16.Name.{Buf}
use reborn_os.Fat16.Volume.{Volume, write_sectors}
use reborn_os.Fat16.File.{alloc_cluster, write_loop}
use reborn_os.Fat16.Chain.{Mounted, address, Holds, done, more}
use reborn_os.Fat16.Round.{
  after_round, round-fat, round-fat_new, round-fat_prev, round-disk, round-disk_new, round-Mounted,
  round-left, round-free,
}
use reborn_os.Fat16.Clusters.{free_clusters, alloc_cluster-free}

-- The `r` bytes of `src` from `from` on are in a chain of new clusters behind `prev`.
pub record Written (n prev : ℕ) (src : Buf) (from r : ℕ) (v : Volume) : Type 0 where
  pub fat : ℕ → ℕ
  pub disk : Buf
  pub returns :
      (first : ℕ)
      → write_loop n first prev src from r v ≡ ok (first, record v { fat_cache = fat; disk = disk })
  pub holds : Holds (record v { fat_cache = fat; disk = disk }) src (fat prev) from r
  pub keeps_fat : (x : ℕ) → x ≢ prev → v.fat_cache x ≢ 0 → fat x ≡ v.fat_cache x
  pub keeps_disk :
      (x o : ℕ)
      → (2 ≤ x) × (x < v.fat_cache_entries)
      → v.fat_cache x ≢ 0
      → o < v.cluster_size_bytes
      → disk (address v x + o) ≡ v.disk (address v x + o)

pub write_loop-round :
    (n first prev c : ℕ) (src : Buf) (from r : ℕ) (v : Volume)
    → alloc_cluster v ≡ ok c
    → write_loop (suc n) first prev src from r v
      ≡ write_loop n
          (if prev == 0 then c else first)
          c
          src
          (from + min v.cluster_size_bytes r)
          (r - min v.cluster_size_bytes r)
          (after_round v prev c src from r)
unfolding write_loop
write_loop-round n first prev c src from r v e = rw e refl

-- One round in front of the rest.
module _ (v : Volume) (m : Mounted v) (prev c n : ℕ) (src : Buf) (from r : ℕ) (nonzero : prev ≢ 0)
    (linked : v.fat_cache prev ≢ 0) (e : alloc_cluster v ≡ ok c) (z : v.fat_cache c ≡ 0)
    (inside : (2 ≤ c) × (c < v.fat_cache_entries))
    (rest : Written n c src
      (from + min v.cluster_size_bytes r)
      (r - min v.cluster_size_bytes r)
      (after_round v prev c src from r)) where
  apart : (x : ℕ) → v.fat_cache x ≢ 0 → x ≢ c
  apart x h k = h (ap v.fat_cache k ∙ z)

  still_taken : (x : ℕ) → v.fat_cache x ≢ 0 → (after_round v prev c src from r).fat_cache x ≢ 0
  still_taken x h = elim (Bool-cases (x == prev)) [
    | inl p ↦
        (let k : x ≡ prev = ground arith in
          let q = round-fat_prev v m prev c src from r (inr linked) z inside nonzero in
          rw k (λ u. omega (arith, q, inside.0)))
    | inr p ↦
        (let q =
            round-fat v m prev c src from r (inr linked) z inside x (apart x h)
              (λ k. ground arith) in
          λ u. h (sym q ∙ u))
  ]

  new_taken : (after_round v prev c src from r).fat_cache c ≢ 0
  new_taken u =
      let q = round-fat_new v m prev c src from r (inr linked) z inside in omega (arith, q)

  leads : rest.fat prev ≡ c
  leads =
      rest.keeps_fat prev (apart prev linked) (still_taken prev linked)
      ∙ round-fat_prev v m prev c src from r (inr linked) z inside nonzero

  stored : (o : ℕ) → o < min v.cluster_size_bytes r → rest.disk (address v c + o) ≡ src (from + o)
  unfolding write_sectors
  stored o l =
      rest.keeps_disk c o inside new_taken (omega arith)
      ∙ round-disk_new v m prev c src from r (inr linked) z inside o l

  whole-Holds :
      Holds (record v { fat_cache = rest.fat; disk = rest.disk }) src (rest.fat prev) from r
  unfolding write_sectors
  whole-Holds = elim (Bool-cases (ltb 0 r)) [
    | inl p ↦ rw leads (more (ground arith) inside stored rest.holds)
    | inr p ↦ (let k : r ≡ 0 = ground arith in rw k done)
  ]

  prepend : Written (suc n) prev src from r v
  unfolding write_sectors
  prepend = record {
    fat = rest.fat;
    disk = rest.disk;
    returns = λ first.
        write_loop-round n first prev c src from r v e
        ∙ ap
            (λ f.
              write_loop n f c src (from + min v.cluster_size_bytes r)
                (r - min v.cluster_size_bytes r) (after_round v prev c src from r))
            {x = if prev == 0 then c else first} {y = first} (ground arith)
        ∙ rest.returns first;
    holds = whole-Holds;
    keeps_fat = λ x a b.
        rest.keeps_fat x (apart x b) (still_taken x b)
        ∙ round-fat v m prev c src from r (inr linked) z inside x (apart x b) a;
    keeps_disk = λ x o a b l.
        rest.keeps_disk x o a (still_taken x b) l
        ∙ round-disk v m prev c src from r (inr linked) z inside x o a (apart x b) l;
  }

pub write_loop-Written :
    (n prev : ℕ) (src : Buf) (from r : ℕ) (v : Volume)
    → Mounted v
    → prev ≢ 0
    → v.fat_cache prev ≢ 0
    → n ≤ free_clusters v
    → r ≤ n * v.cluster_size_bytes
    → Written n prev src from r v
unfolding write_loop
write_loop-Written zero prev src from r v m q p f l = record {
  fat = v.fat_cache;
  disk = v.disk;
  returns = λ first. refl;
  holds = (let e : r ≡ 0 = omega arith in rw e done);
  keeps_fat = λ x a b. refl;
  keeps_disk = λ x o a b l. refl;
}
write_loop-Written (suc n) prev src from r v m q p f l =
    let (c, e, z, lo, hi) = alloc_cluster-free v (omega arith) in
    let linked : (prev ≡ 0) ⊎ (v.fat_cache prev ≢ 0) = inr p in
    prepend v m prev c n src from r q p e z (lo, hi)
      (write_loop-Written n c src (from + min v.cluster_size_bytes r)
        (r - min v.cluster_size_bytes r) (after_round v prev c src from r)
        (round-Mounted v m prev c src from r linked z (lo, hi)) (λ k. omega (arith, lo, k))
        (λ k. omega (arith, k, round-fat_new v m prev c src from r linked z (lo, hi)))
        (omega (arith, round-free v m prev c src from r linked z (lo, hi)))
        (round-left v m prev c src from r linked z (lo, hi) n l))
