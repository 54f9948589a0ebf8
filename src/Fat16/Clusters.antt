-- ===== src/Fat16/Clusters.antt =====
-- alloc_cluster of kernel/src/fat16.c, and the number of free clusters.
use native.Mathlib.Decide.{dec_lt}
use reborn_os.Prelude.{
  ℕ, zero, suc, ◌+◌, ◌-◌, ◌≤◌, ◌<◌, ◌≡◌, ◌≢◌, refl, Bool, true, not, ◌&&◌, leb, ◌==◌, arith, ok,
  Bool-cases, ◌⊎◌, inl, inr,
}
use reborn_os.Pmm.Valid.{count_free, count_free-zero}
use reborn_os.Fat16.Volume.{Volume}
use reborn_os.Fat16.File.{alloc_loop, alloc_cluster}

-- The clusters that the allocator may not give out.
abbrev pub taken : Volume → ℕ → Bool
taken v x = not (leb 2 x && (v.fat_cache x == 0))

-- The number of free clusters.
abbrev pub free_clusters : Volume → ℕ
free_clusters v = count_free (taken v) v.fat_cache_entries

alloc_loop-cases :
    (rounds i : ℕ) (fat : ℕ → ℕ)
    → ((c : ℕ) × (alloc_loop rounds i fat ≡ ok c) × (fat c ≡ 0) × (i ≤ c) × (c < i + rounds))
      ⊎ ((x : ℕ) → i ≤ x → x < i + rounds → fat x ≢ 0)
unfolding alloc_loop
alloc_loop-cases zero i fat = inr λ x a b. absurd (omega arith)
alloc_loop-cases (suc rounds) i fat = elim (Bool-cases (fat i == 0)) [
  | inl e ↦ inl (i, rw e refl, ground arith, omega arith, omega arith)
  | inr e ↦ elim (alloc_loop-cases rounds (i + 1) fat) [
    | inl (c, h, z, a, b) ↦ inl (c, rw e h, z, omega arith, omega arith)
    | inr f ↦ inr λ x a b. elim (dec_lt i x) [
      | yes l ↦ f x (omega arith) (omega arith)
      | no l ↦ (let k : x ≡ i = omega arith in rw k (λ z. ground (arith, e, z)))
    ]
  ]
]

-- With a free cluster, alloc_cluster returns one.
pub alloc_cluster-free :
    (v : Volume)
    → 0 < free_clusters v
    → (c : ℕ) × (alloc_cluster v ≡ ok c) × (v.fat_cache c ≡ 0) × (2 ≤ c) × (c < v.fat_cache_entries)
unfolding alloc_cluster
alloc_cluster-free v h = elim (alloc_loop-cases (v.fat_cache_entries - 2) 2 v.fat_cache) [
  | inl (c, e, z, a, b) ↦ (c, e, z, a, omega arith)
  | inr f ↦
      let none_free : (x : ℕ) → x < v.fat_cache_entries → taken v x ≡ true =
        λ x l. ground (arith, f x) in
      absurd (omega (arith, count_free-zero (taken v) v.fat_cache_entries none_free))
]
