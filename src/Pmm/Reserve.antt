-- ===== src/Pmm/Reserve.antt =====
-- pmm_reserve_region of kernel/src/pmm.c, and the loop with which pmm_init claims the pages of the
-- bitmap.
use reborn_os.Prelude.{
  ℕ, zero, suc, ◌+◌, ◌/◌, ◌^◌, ◌≤◌, ◌<◌, ◌≡◌, refl, ◌||◌, ◌&&◌, arith, ltb, leb, Bool-cases, inl,
  inr, ◌∙◌,
}
use reborn_os.Pmm.Defs.{
  Pmm, used, page_size, claim_if_free, reserve_loop, claim_loop, end_page, pmm_reserve_region,
}
use reborn_os.Pmm.Valid.{IsValid, used-claim, claim-IsValid, bits-claim}

-- `t` is `s` with every tracked page from `lo` up to `hi` in use.
pub record Reserved (s : Pmm) (lo hi : ℕ) (t : Pmm) : Type 0 where
  pub valid : IsValid t
  pub same_bits : t.bitmap_bits ≡ s.bitmap_bits
  pub taken : (j : ℕ) → used t j ≡ ((leb lo j && (ltb j hi && ltb j s.bitmap_bits)) || used s j)

bits-claim_if_free : (s : Pmm) (p : ℕ) → (claim_if_free s p).bitmap_bits ≡ s.bitmap_bits
unfolding claim_if_free
bits-claim_if_free s p = ground (arith, bits-claim s p)

claim_if_free-Reserved :
    {s : Pmm} (p : ℕ) → IsValid s → p < s.bitmap_bits → Reserved s p (p + 1) (claim_if_free s p)
unfolding claim_if_free
claim_if_free-Reserved {s} p v l = elim (Bool-cases (used s p)) [
  | inl full ↦ rw full (record { valid = v; same_bits = refl; taken = λ j. ground arith })
  | inr free ↦ rw free (record {
    valid = claim-IsValid v p l free;
    same_bits = bits-claim s p;
    taken = λ j. ground (arith, used-claim v p l j);
  })
]

Reserved-trans :
    {s t u : Pmm} (lo mid hi : ℕ)
    → lo ≤ mid
    → mid ≤ hi
    → Reserved s lo mid t
    → Reserved t mid hi u
    → Reserved s lo hi u
Reserved-trans lo mid hi h k a b = record {
  valid = b.valid;
  same_bits = b.same_bits ∙ a.same_bits;
  taken = λ j. ground (arith, a.taken j, b.taken j);
}

reserve_loop-Reserved :
    (n p end : ℕ) (s : Pmm) → p + n ≡ end → IsValid s → Reserved s p end (reserve_loop n p s)
unfolding reserve_loop
reserve_loop-Reserved zero p end s e v = record {
  valid = v;
  same_bits = refl;
  taken = λ j. ground arith;
}
reserve_loop-Reserved (suc n) p end s e v = elim (Bool-cases (ltb p s.bitmap_bits)) [
  | inl l ↦ rw l (
      Reserved-trans p (p + 1) end (omega arith) (omega arith)
        (claim_if_free-Reserved p v (ground arith))
        (reserve_loop-Reserved n (p + 1) end (claim_if_free s p) (omega arith)
          (claim_if_free-Reserved p v (ground arith)).valid))
  | inr l ↦ rw l (record { valid = v; same_bits = refl; taken = λ j. ground arith })
]

-- In a state that satisfies the invariant, pmm_reserve_region of a non-empty region marks exactly
-- the tracked pages that meet the region, rounded outward, as in use, changes no other bit and
-- keeps the invariant, if its end does not wrap.
pub pmm_reserve_region-Reserved :
    (s : Pmm) (addr size : ℕ)
    → IsValid s
    → 0 < size
    → addr + size + page_size ≤ 2 ^ 64
    → Reserved s
        (addr / page_size)
        ((addr + size + 4095) / page_size)
        (pmm_reserve_region s addr size)
unfolding pmm_reserve_region
pmm_reserve_region-Reserved s addr size v p h =
    let wrap : end_page addr size ≡ (addr + size + 4095) / page_size = omega arith in
    rw wrap (
      reserve_loop-Reserved _ (addr / page_size) ((addr + size + 4095) / page_size) s (omega arith)
        v)

pub claim_loop-reserve_loop :
    (n p : ℕ) (s : Pmm) → p + n ≤ s.bitmap_bits → claim_loop n p s ≡ reserve_loop n p s
unfolding claim_loop reserve_loop
claim_loop-reserve_loop zero p s h = refl
claim_loop-reserve_loop (suc n) p s h = ground (
  arith,
  claim_loop-reserve_loop n (p + 1) (claim_if_free s p) (omega (arith, bits-claim_if_free s p)),
)

pub claim_loop-Reserved :
    (n p : ℕ) (s : Pmm)
    → p + n ≤ s.bitmap_bits
    → IsValid s
    → Reserved s p (p + n) (claim_loop n p s)
claim_loop-Reserved n p s h v =
    rw (claim_loop-reserve_loop n p s h) (reserve_loop-Reserved n p (p + n) s refl v)
