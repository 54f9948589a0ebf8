-- ===== src/Pmm/Alloc.antt =====
-- pmm_alloc_page and pmm_free_page of kernel/src/pmm.c: what each call returns and changes.
use native.Mathlib.Decide.{dec_lt}
use native.Mathlib.Nat.{mod-add-mod, add-mod-mod, add-mod_right, mod-eq_of_lt}
use reborn_os.Prelude.{
  ◌≡⟨◌⟩◌, ◌∎, ◌∙◌, ◌↔◌, ap, sym, ℕ, zero, suc, ◌+◌, ◌-◌, ◌*◌, ◌/◌, ◌%◌, ◌^◌, ◌≤◌, ◌<◌, ◌≡◌, ◌≢◌,
  refl, true, false, ◌||◌, ◌&&◌, not, arith, ◌==◌, Bool-cases, inl, inr, add64, mul64, ok, panic,
}
use reborn_os.Pmm.Defs.{
  Pmm, used, page_size, claim, release, probe, alloc_loop, pmm_alloc_page, pmm_free_page,
  double_free,
}
use reborn_os.Pmm.Valid.{
  IsValid, ZeroReserved, used-claim, used-release, claim-IsValid, release-IsValid, bits-claim,
  bits-release, count_free-zero, free_pages-claim, free_pages-release,
}

-- What one scan over the rounds from `i` on gives: a clear bit, now set, or none of them clear.
data Scan (s : Pmm) (i n : ℕ) : ℕ × Pmm → Type 0 where
  found :
      (b : ℕ)
      → b < s.bitmap_bits
      → used s b ≡ false
      → Scan s i n (mul64 b page_size, record (claim s b) { search_hint = add64 b 1 })
  missed : ((j : ℕ) → i ≤ j → j < i + n → used s (probe s j) ≡ true) → Scan s i n (0, s)

probe_lt : (s : Pmm) (i : ℕ) → 0 < s.bitmap_bits → probe s i < s.bitmap_bits
probe_lt s i h = omega arith

extend :
    (s : Pmm) (i n : ℕ) {r : ℕ × Pmm}
    → used s (probe s i) ≡ true
    → Scan s (i + 1) n r
    → Scan s i (suc n) r
extend s i n h (found b l u) = found b l u
extend s i n h (missed all) = missed λ j lo hi. elim (dec_lt i j) [
  | yes p ↦ all j (omega arith) (omega arith)
  | no p ↦ (let e : j ≡ i = omega arith in rw e h)
]

alloc_loop-Scan : (n i : ℕ) (s : Pmm) → 0 < s.bitmap_bits → Scan s i n (alloc_loop n i s)
unfolding alloc_loop
alloc_loop-Scan zero i s h = missed λ j lo hi. absurd (omega arith)
alloc_loop-Scan (suc n) i s h = elim (Bool-cases (used s (probe s i))) [
  | inl full ↦ rw full (extend s i n full (alloc_loop-Scan n (i + 1) s h))
  | inr free ↦ rw free (found (probe s i) (probe_lt s i h) free)
]

-- The scan comes past every bit: the round at which it looks at `b`.
abbrev round_of : Pmm → ℕ → ℕ
round_of s b = (b + s.bitmap_bits - s.search_hint % s.bitmap_bits) % s.bitmap_bits

mod_round : (x b m : ℕ) → b < m → (x + (b + m - x % m) % m) % m ≡ b
mod_round x b m h =
    (x + (b + m - x % m) % m) % m
    ≡⟨ add-mod-mod x (b + m - x % m) m ⟩ (x + (b + m - x % m)) % m
    ≡⟨ sym (mod-add-mod x m (b + m - x % m)) ⟩ (x % m + (b + m - x % m)) % m
    ≡⟨ ap (λ k. k % m) (omega arith) ⟩ (b + m) % m
    ≡⟨ add-mod_right b m ⟩ b % m
    ≡⟨ mod-eq_of_lt h ⟩ b ∎

probe-round_of : {s : Pmm} (b : ℕ) → IsValid s → b < s.bitmap_bits → probe s (round_of s b) ≡ b
probe-round_of {s} b v h =
    (rw (mod-eq_of_lt {n = s.search_hint + round_of s b} {m = 2 ^ 64} (omega arith))
      (mod_round s.search_hint b s.bitmap_bits h))

-- The outcome of pmm_alloc_page.
pub data Allocated (s : Pmm) : ℕ × Pmm → Type 0 where
  granted :
      {t : Pmm} (b : ℕ)
      → (b < s.bitmap_bits) × (b ≢ 0) × (used s b ≡ false)
      → ((j : ℕ) → used t j ≡ (j == b || used s j))
      → t.free_pages + 1 ≡ s.free_pages
      → IsValid t × ZeroReserved t × (t.bitmap_bits ≡ s.bitmap_bits)
      → Allocated s (b * page_size, t)
  -- NULL: no page is free, and nothing changes.
  exhausted : ((j : ℕ) → j < s.bitmap_bits → used s j ≡ true) → Allocated s (0, s)

claim_hint : Pmm → ℕ → Pmm
claim_hint s b = record (claim s b) { search_hint = add64 b 1 }

claim_hint-IsValid :
    {s : Pmm} (b : ℕ) → IsValid s → b < s.bitmap_bits → used s b ≡ false → IsValid (claim_hint s b)
unfolding claim_hint
claim_hint-IsValid {s} b v l free = record {
  storage = w.storage;
  bytes = w.bytes;
  small = w.small;
  hint = rw (bits-claim s b) (omega (arith, v.small));
  counted = w.counted;
}
  where
    w : IsValid (claim s b)
    w = claim-IsValid v b l free

Scan-Allocated :
    {s : Pmm} {r : ℕ × Pmm} → IsValid s → ZeroReserved s → Scan s 0 s.bitmap_bits r → Allocated s r
unfolding claim_hint
Scan-Allocated {s} v z (found b l free) =
    (rw (mod-eq_of_lt {n = b * page_size} {m = 2 ^ 64} (omega (arith, v.small))) (
      granted b (l, (λ e. (let c : used s 0 ≡ false = rw e at free in ground arith)), free)
        (used-claim v b l) (free_pages-claim v b l free)
        (
          claim_hint-IsValid b v l free,
          record { zero_used = λ h. ground (arith, used-claim v b l 0, z.zero_used (omega arith)) },
          bits-claim s b,
        )))
Scan-Allocated {s} v z (missed all) =
    exhausted λ j h. rw (probe-round_of j v h) at (all (round_of s j) (omega arith) (omega arith))

alloc_loop_empty : (n i : ℕ) (s : Pmm) → n ≡ 0 → alloc_loop n i s ≡ (0, s)
unfolding alloc_loop
alloc_loop_empty zero i s e = refl
alloc_loop_empty (suc n) i s e = absurd (omega arith)

-- From a state that satisfies the invariant and has page 0 in use, pmm_alloc_page either gives out
-- one page that was free, is not page 0 and is the only page whose bit changes, or returns NULL
-- and changes nothing because every page is in use; the invariant and the reservation of page 0
-- are kept.
pub pmm_alloc_page-Allocated :
    (s : Pmm) → IsValid s → ZeroReserved s → Allocated s (pmm_alloc_page s)
unfolding pmm_alloc_page
pmm_alloc_page-Allocated s v z = elim (dec_lt 0 s.bitmap_bits) [
  | yes h ↦ Scan-Allocated v z (alloc_loop-Scan s.bitmap_bits 0 s h)
  | no h ↦
      rw (alloc_loop_empty s.bitmap_bits 0 s (omega arith)) (exhausted λ j l. absurd (omega arith))
]

pub exhausted_iff :
    {s : Pmm} {r : ℕ × Pmm} → IsValid s → Allocated s r → (r.0 ≡ 0) ↔ (s.free_pages ≡ 0)
exhausted_iff v (granted b (l, ne, f) u c w) =
    ((λ e. absurd (ne (omega arith))), λ e. absurd (omega arith))
exhausted_iff {s} v (exhausted all) =
    ((λ e. v.counted ∙ count_free-zero (used s) s.bitmap_bits all), λ e. refl)

-- In a state that satisfies the invariant and has page 0 in use, pmm_alloc_page returns NULL
-- exactly when the count of free pages is 0.
pub pmm_alloc_page-null_iff :
    (s : Pmm) → IsValid s → ZeroReserved s → ((pmm_alloc_page s).0 ≡ 0) ↔ (s.free_pages ≡ 0)
pmm_alloc_page-null_iff s v z = exhausted_iff v (pmm_alloc_page-Allocated s v z)

-- In a state that satisfies the invariant, pmm_free_page of an address in a page that is in use
-- clears that page's bit and no other, adds one to the count and keeps the invariant.
pub pmm_free_page-ok :
    (s : Pmm) (addr : ℕ)
    → IsValid s
    → addr / page_size < s.bitmap_bits
    → used s (addr / page_size) ≡ true
    → (t : Pmm) × (pmm_free_page s addr ≡ ok t)
      × ((j : ℕ) → used t j ≡ (not (j == addr / page_size) && used s j))
      × (t.free_pages ≡ s.free_pages + 1)
      × (t.bitmap_bits ≡ s.bitmap_bits)
      × IsValid t
unfolding pmm_free_page
pmm_free_page-ok s addr v l u = (
  release s (addr / page_size),
  ground arith,
  used-release v (addr / page_size) l,
  free_pages-release v (addr / page_size) l,
  bits-release s (addr / page_size),
  release-IsValid v (addr / page_size) l u,
)

-- In a state that satisfies the invariant, freeing the same address twice in a row panics with a
-- double free.
pub pmm_free_page_twice :
    (s t : Pmm) (addr : ℕ)
    → IsValid s
    → pmm_free_page s addr ≡ ok t
    → pmm_free_page t addr ≡ panic double_free
unfolding pmm_free_page
pmm_free_page_twice s t addr v h = ground (
  arith,
  λ (l : addr / page_size < s.bitmap_bits). used-release v (addr / page_size) l (addr / page_size),
  bits-release s (addr / page_size),
)

free_page-release :
    (t : Pmm) (addr b : ℕ)
    → addr / page_size ≡ b
    → b < t.bitmap_bits
    → used t b ≡ true
    → pmm_free_page t addr ≡ ok (release t b)
unfolding pmm_free_page
free_page-release t addr b e l u = ground arith

free-granted :
    {s : Pmm} {r : ℕ × Pmm}
    → Allocated s r
    → r.0 ≢ 0
    → (u : Pmm) × (pmm_free_page r.1 r.0 ≡ ok u)
      × ((j : ℕ) → used u j ≡ used s j)
      × (u.free_pages ≡ s.free_pages)
      × IsValid u
free-granted {s} (granted {t} b (l, ne, f) u c (w, z, e)) p =
    let here : used t b ≡ true = ground (arith, u b) in
    (
      release t b,
      rw (free_page-release t (b * page_size) b (omega arith) (omega arith) here),
      (λ j. ground (arith, used-release w b (omega arith) j, u j)),
      omega (arith, free_pages-release w b (omega arith)),
      release-IsValid w b (omega arith) here,
    )
free-granted (exhausted all) p = absurd (p refl)

-- In a state that satisfies the invariant and has page 0 in use, freeing the page that an
-- allocation gave out puts every bit and the count back as they were.
pub free-alloc :
    (s : Pmm)
    → IsValid s
    → ZeroReserved s
    → let (p, t) = pmm_alloc_page s in
      p ≢ 0
      → (u : Pmm) × (pmm_free_page t p ≡ ok u)
        × ((j : ℕ) → used u j ≡ used s j)
        × (u.free_pages ≡ s.free_pages)
        × IsValid u
free-alloc s v z = free-granted (pmm_alloc_page-Allocated s v z)
