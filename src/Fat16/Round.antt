-- ===== src/Fat16/Round.antt =====
-- One round of the loop of fat16_write_file in kernel/src/fat16.c that writes the clusters.
use reborn_os.Prelude.{
  ℕ, suc, ◌+◌, ◌-◌, ◌*◌, min, ◌≤◌, ◌<◌, ◌≡◌, ◌≢◌, refl, ap, ◌∙◌, ◌||◌, ◌==◌, arith, Bool-cases, ◌⊎◌,
  inl, inr, ==_self,
}
use reborn_os.Pmm.Valid.{count_free, count_free-set}
use reborn_os.Fat16.Name.{Buf}
use reborn_os.Fat16.Volume.{
  Volume, cluster_to_sector, write_sectors, sector_size, fresh, blit, eoc_mark,
}
use reborn_os.Fat16.File.{link_cluster, chunk_of}
use reborn_os.Fat16.Chain.{Mounted, address, address-apart}
use reborn_os.Fat16.Clusters.{taken, free_clusters}

-- The volume after one round of the loop, in which it takes cluster `c`.
abbrev pub after_round : Volume → ℕ → ℕ → Buf → ℕ → ℕ → Volume
after_round v prev c src from r =
    write_sectors (record v { fat_cache = link_cluster v.fat_cache prev c }) (cluster_to_sector v c)
      v.sectors_per_cluster (chunk_of v src from r)

blit-at : (buf : Buf) (lo n k : ℕ) (src : Buf) → k < n → blit buf lo n src (lo + k) ≡ src k
blit-at buf lo n k src h = ground (arith, ap src {x = lo + k - lo} {y = k} (omega arith))

blit-at_zero : (buf : Buf) (n k : ℕ) (src : Buf) → k < n → blit buf 0 n src k ≡ src k
blit-at_zero buf n k src h = ground arith

module _ (v : Volume) (m : Mounted v) (prev c : ℕ) (src : Buf) (from r : ℕ)
    (linked : (prev ≡ 0) ⊎ (v.fat_cache prev ≢ 0)) (z : v.fat_cache c ≡ 0)
    (inside : (2 ≤ c) × (c < v.fat_cache_entries)) where
  pub round-fat :
      (x : ℕ) → x ≢ c → x ≢ prev → (after_round v prev c src from r).fat_cache x ≡ v.fat_cache x
  unfolding write_sectors
  round-fat x a b = ground arith

  pub round-fat_new : (after_round v prev c src from r).fat_cache c ≡ eoc_mark
  unfolding write_sectors
  round-fat_new = ground (arith, linked)

  pub round-fat_prev : prev ≢ 0 → (after_round v prev c src from r).fat_cache prev ≡ c
  unfolding write_sectors
  round-fat_prev h = ground arith

  pub round-disk :
      (x o : ℕ)
      → (2 ≤ x) × (x < v.fat_cache_entries)
      → x ≢ c
      → o < v.cluster_size_bytes
      → (after_round v prev c src from r).disk (address v x + o) ≡ v.disk (address v x + o)
  unfolding write_sectors
  round-disk x o h ne l = rw (address-apart v c x o m inside h ne (omega (arith, m.size))) refl

  pub round-disk_new :
      (o : ℕ)
      → o < min v.cluster_size_bytes r
      → (after_round v prev c src from r).disk (address v c + o) ≡ src (from + o)
  unfolding write_sectors
  round-disk_new o l =
      blit-at v.disk (address v c) (v.sectors_per_cluster * sector_size) o (chunk_of v src from r)
        (omega (arith, m.size))
      ∙ blit-at_zero fresh (min v.cluster_size_bytes r) o (λ o. src (from + o)) l

  round-geometry : after_round v prev c src from r ≡ record v {
    fat_cache = (after_round v prev c src from r).fat_cache;
    disk = (after_round v prev c src from r).disk;
  }
  unfolding write_sectors
  round-geometry = refl

  pub round-Mounted : Mounted (after_round v prev c src from r)
  unfolding write_sectors
  round-Mounted = record {
    size = m.size;
    nonzero = m.nonzero;
    sectors = m.sectors;
    entries = m.entries;
  }

  pub round-left :
      (n : ℕ)
      → r ≤ suc n * v.cluster_size_bytes
      → r - min v.cluster_size_bytes r ≤ n * (after_round v prev c src from r).cluster_size_bytes
  unfolding write_sectors
  round-left n l = omega arith

  round-taken : (j : ℕ) → taken (after_round v prev c src from r) j ≡ (j == c || taken v j)
  round-taken j = elim (Bool-cases (j == c)) [
    | inl e ↦ (let k : j ≡ c = ground arith in rw (k, round-fat_new, ==_self c) (ground arith))
    | inr e ↦ elim (Bool-cases (j == prev)) [
      | inl p ↦ (let k : j ≡ prev = ground arith in ground (arith, k, round-fat_prev, linked))
      | inr p ↦ rw (e, round-fat j (λ k. ground arith) (λ k. ground arith)) refl
    ]
  ]

  pub round-free : free_clusters v ≡ free_clusters (after_round v prev c src from r) + 1
  round-free =
      let w = after_round v prev c src from r in
      grind (
        arith,
        count_free-set (taken v) (taken w) c v.fat_cache_entries (ground (arith, z)) round-taken,
        ap (λ (u : Volume). count_free (taken w) u.fat_cache_entries) round-geometry,
      )
