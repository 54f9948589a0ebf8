-- ===== src/Fat16/Chain.antt =====
-- Cluster chains of kernel/src/fat16.c: where a cluster lies on the disk, what a chain holds, and
-- fat16_read over it.
use native.Mathlib.Decide.{dec_lt, dec_le}
use reborn_os.Prelude.{
  ℕ, zero, suc, ◌+◌, ◌-◌, ◌*◌, ◌^◌, min, ◌≤◌, ◌<◌, ◌≡◌, ◌≢◌, refl, ap, ◌∙◌, true, false, ◌&&◌, ltb,
  leb, if◌then◌else◌, arith, ok, Bool-cases, ◌⊎◌, inl, inr,
}
use reborn_os.Fat16.Name.{Buf}
use reborn_os.Fat16.Volume.{
  Volume, cluster_to_sector, byte_address, read_sectors, sector_size, in_chain, fat_next_cluster,
  fresh, blit,
}
use reborn_os.Fat16.File.{FileRef, read_loop, fat16_read}

-- The geometry of a mounted volume: sectors of 512 bytes, sector numbers of 32 bits, and cluster
-- numbers below the end marks.
pub record Mounted (v : Volume) : Type 0 where
  pub size : v.cluster_size_bytes ≡ v.sectors_per_cluster * 512
  pub nonzero : 0 < v.sectors_per_cluster
  pub sectors : v.first_data_sector + v.fat_cache_entries * v.sectors_per_cluster < 2 ^ 32
  pub entries : v.fat_cache_entries ≤ 0xFFF8

-- The byte on the disk where a cluster starts.
abbrev pub address : Volume → ℕ → ℕ
address v c = byte_address v (cluster_to_sector v c)

times_mono : (a b s : ℕ) → a ≤ b → a * s ≤ b * s
times_mono a b s h = grind arith

times_step : (a b s : ℕ) → a < b → a * s + s ≤ b * s
times_step a b s h = omega (arith, times_mono (suc a) b s h)

outside : (lo n x : ℕ) → (x < lo) ⊎ (lo + n ≤ x) → (leb lo x && ltb x (lo + n)) ≡ false
outside lo n x (inl h) = ground arith
outside lo n x (inr h) = ground arith

pub address-linear :
    (v : Volume) (c : ℕ)
    → Mounted v
    → c < v.fat_cache_entries
    → address v c
      ≡ (v.partition_lba + v.first_data_sector) * 512 + (c - 2) * v.sectors_per_cluster * 512
address-linear v c m h =
    omega
      (arith, times_mono (c - 2) v.fat_cache_entries v.sectors_per_cluster (omega arith), m.sectors)

-- Two clusters do not overlap.
pub address-apart :
    (v : Volume) (c x o : ℕ)
    → Mounted v
    → (2 ≤ c) × (c < v.fat_cache_entries)
    → (2 ≤ x) × (x < v.fat_cache_entries)
    → x ≢ c
    → o < v.sectors_per_cluster * 512
    → (leb (address v c) (address v x + o)
        && ltb (address v x + o) (address v c + v.sectors_per_cluster * 512))
      ≡ false
address-apart v c x o m (lc, hc) (lx, hx) ne ho =
    let s = v.sectors_per_cluster in
    rw (address-linear v c m hc, address-linear v x m hx)
      (outside _ (s * 512) _ (elim (dec_lt x c) [
        | yes l ↦ inl (omega (arith, times_step (x - 2) (c - 2) s (omega arith)))
        | no l ↦ inr (omega (arith, times_step (c - 2) (x - 2) s (omega arith)))
      ]))

-- The chain from cluster `c` on holds the `r` bytes of `src` from `from` on.
pub data Holds (v : Volume) (src : Buf) : ℕ → ℕ → ℕ → Type 0 where
  done : {c from : ℕ} → Holds v src c from 0
  more :
      {c from r : ℕ}
      → 0 < r
      → (2 ≤ c) × (c < v.fat_cache_entries)
      → ((o : ℕ) → o < min v.cluster_size_bytes r → v.disk (address v c + o) ≡ src (from + o))
      → Holds v src
          (v.fat_cache c)
          (from + min v.cluster_size_bytes r)
          (r - min v.cluster_size_bytes r)
      → Holds v src c from r

-- `out` is `buf` with the `r` bytes of `src` from `from` on copied to `dst`.
abbrev pub Copied : Buf → ℕ → ℕ → Buf → ℕ → Buf → Type 0
Copied src from r buf dst out =
    (o : ℕ) → out o ≡ (if leb dst o && ltb o (dst + r) then src (from + (o - dst)) else buf o)

-- The buffer after one round.
abbrev after_round : Volume → ℕ → ℕ → ℕ → Buf → Buf
after_round v c r dst buf =
    blit buf dst (min v.cluster_size_bytes r)
      (read_sectors v (cluster_to_sector v c) v.sectors_per_cluster 0 fresh)

read_loop-round :
    (rounds c r dst : ℕ) (v : Volume) (buf : Buf)
    → Mounted v
    → 0 < r
    → (2 ≤ c) × (c < v.fat_cache_entries)
    → read_loop (suc rounds) v c r dst buf
      ≡ read_loop rounds v
          (v.fat_cache c)
          (r - min v.cluster_size_bytes r)
          (dst + min v.cluster_size_bytes r)
          (after_round v c r dst buf)
unfolding read_loop fat_next_cluster
read_loop-round rounds c r dst v buf m p (lo, hi) =
    let go : (ltb 0 r && in_chain c) ≡ true = ground (arith, m.entries) in
    let inside : leb v.fat_cache_entries c ≡ false = ground arith in rw (go, inside, read_loop) refl

read_sectors-at :
    (v : Volume) (lba count k : ℕ)
    → k < count * sector_size
    → read_sectors v lba count 0 fresh k ≡ v.disk (byte_address v lba + k)
unfolding read_sectors
read_sectors-at v lba count k h = ground arith

after_round-at :
    (v : Volume) (src buf : Buf) (c from r dst o : ℕ)
    → Mounted v
    → ((o : ℕ) → o < min v.cluster_size_bytes r → v.disk (address v c + o) ≡ src (from + o))
    → after_round v c r dst buf o ≡ (
        if leb dst o && ltb o (dst + min v.cluster_size_bytes r)
        then src (from + (o - dst))
        else buf o)
after_round-at v src buf c from r dst o m d =
    elim (Bool-cases (leb dst o && ltb o (dst + min v.cluster_size_bytes r))) [
      | inl e ↦ rw e (
          let k : o - dst < min v.cluster_size_bytes r = ground arith in
          read_sectors-at v (cluster_to_sector v c) v.sectors_per_cluster (o - dst)
            (omega (arith, m.size))
          ∙ d (o - dst) k)
      | inr e ↦ rw e refl
    ]

read_loop-Copied :
    (rounds c from r dst : ℕ) (v : Volume) (src buf : Buf)
    → Mounted v
    → Holds v src c from r
    → r < rounds
    → (out : Buf) × (read_loop rounds v c r dst buf ≡ ok (0, out)) × Copied src from r buf dst out
unfolding read_loop
read_loop-Copied zero c from r dst v src buf m h l = absurd (omega arith)
read_loop-Copied (suc rounds) c from r dst v src buf m done l = (buf, refl, λ o. ground arith)
read_loop-Copied (suc rounds) c from r dst v src buf m (more p i d h) l =
    let n = min v.cluster_size_bytes r in
    let (out, e, same) =
      read_loop-Copied rounds (v.fat_cache c) (from + n) (r - n) (dst + n) v src
        (after_round v c r dst buf) m h (omega (arith, m.size, m.nonzero)) in
    (
      out,
      read_loop-round rounds c r dst v buf m p i ∙ e,
      λ o.
          same o
          ∙ ground (
            arith,
            after_round-at v src buf c from r dst o m d,
            (λ (k : dst + n ≤ o).
                ap src {x = from + n + (o - (dst + n))} {y = from + (o - dst)} (omega arith)),
          ),
    )

-- A chain that holds some bytes holds the first of them.
Holds-prefix :
    (v : Volume) (src : Buf) {c from r : ℕ} (q : ℕ)
    → Holds v src c from r
    → q ≤ r
    → Holds v src c from q
Holds-prefix v src zero h l = done
Holds-prefix v src (suc q) done l = absurd (omega arith)
Holds-prefix v src {c} {from} {r} (suc q) (more p i d h) l =
    more (omega arith) i (λ o k. d o (omega arith))
      (elim (dec_le (suc q) v.cluster_size_bytes) [
        | yes a ↦ (let z : suc q - min v.cluster_size_bytes (suc q) ≡ 0 = omega arith in rw z done)
        | no a ↦
            (let e : min v.cluster_size_bytes (suc q) ≡ min v.cluster_size_bytes r = omega arith in
              rw e (Holds-prefix v src (suc q - min v.cluster_size_bytes r) h (omega arith)))
      ])

-- On a volume with clusters of 512-byte sectors and cluster numbers below the end marks,
-- fat16_read of a file whose chain holds its bytes gives as many as there are and as fit in
-- max_len, and leaves the rest of the buffer.
pub fat16_read-Copied :
    (v : Volume) (src buf : Buf) (file : FileRef) (max_len : ℕ)
    → Mounted v
    → Holds v src file.cluster 0 file.size
    → (out : Buf) × (fat16_read v file buf max_len ≡ ok (min file.size max_len, out))
      × Copied src 0 (min file.size max_len) buf 0 out
unfolding fat16_read
fat16_read-Copied v src buf file max_len m h =
    let total = min file.size max_len in
    let (out, e, same) =
      read_loop-Copied (total + 1) file.cluster 0 total 0 v src buf m
        (Holds-prefix v src total h (omega arith)) (omega arith) in
    (out, rw e (ap (λ k. ok (k, out)) (omega arith)), same)
