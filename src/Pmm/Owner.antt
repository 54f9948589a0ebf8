-- ===== src/Pmm/Owner.antt =====
-- Clients of kernel/src/pmm.c over any sequence of calls: who holds which page.
use reborn_os.Prelude.{
  sym, ◌∙◌, subst, ok-injective, ℕ, ◌*◌, ◌/◌, ◌<◌, ◌≡◌, ◌≢◌, refl, Bool, true, false, ◌||◌, ◌&&◌,
  not, arith, ◌==◌, ok,
}
use reborn_os.Pmm.Defs.{Pmm, used, page_size, pmm_alloc_page, pmm_free_page}
use reborn_os.Pmm.Valid.{IsValid, ZeroReserved}
use reborn_os.Pmm.Alloc.{Allocated, granted, exhausted, pmm_alloc_page-Allocated, pmm_free_page-ok}

-- The allocator, and the set of pages that its clients hold.
pub record World : Type 0 where
  pub pmm : Pmm
  pub held : ℕ → Bool

-- A client allocates, or frees the address of a page that it holds.
pub data Step : World → World → Type 0 where
  alloc :
      {w : World}
      → (pmm_alloc_page w.pmm).0 ≢ 0
      → Step w (record {
        pmm = (pmm_alloc_page w.pmm).1;
        held = λ j. j == (pmm_alloc_page w.pmm).0 / page_size || w.held j;
      })
  alloc_failed :
      {w : World}
      → (pmm_alloc_page w.pmm).0 ≡ 0
      → Step w (record w { pmm = (pmm_alloc_page w.pmm).1 })
  free :
      {w : World} {t : Pmm} (addr : ℕ)
      → w.held (addr / page_size) ≡ true
      → pmm_free_page w.pmm addr ≡ ok t
      → Step w (record { pmm = t; held = λ j. not (j == addr / page_size) && w.held j })

pub data Reach (w : World) : World → Type 0 where
  here : Reach w w
  next : {u v : World} → Reach w u → Step u v → Reach w v

-- Every held page is in use, inside the range and not page 0.
pub record Owned (w : World) : Type 0 where
  pub valid : IsValid w.pmm
  pub zero_kept : ZeroReserved w.pmm
  pub held_used : (j : ℕ) → w.held j ≡ true → used w.pmm j ≡ true
  pub held_inside : (j : ℕ) → w.held j ≡ true → j < w.pmm.bitmap_bits
  pub held_nonzero : w.held 0 ≡ false

alloc-Owned :
    {w : World} {r : ℕ × Pmm}
    → Owned w
    → r.0 ≢ 0
    → Allocated w.pmm r
    → Owned (record { pmm = r.1; held = λ j. j == r.0 / page_size || w.held j })
alloc-Owned {w} o p (granted {t} b (l, ne, f) u c (v, z, e)) = record {
  valid = v;
  zero_kept = z;
  held_used = λ j h. ground (arith, u j, page, o.held_used j);
  held_inside = λ j h. ground (arith, page, o.held_inside j);
  held_nonzero = ground (arith, page, o.held_nonzero);
}
  where
    page : b * page_size / page_size ≡ b
    page = omega arith
alloc-Owned o p (exhausted all) = absurd (p refl)

failed-Owned :
    {w : World} {r : ℕ × Pmm}
    → Owned w
    → r.0 ≡ 0
    → Allocated w.pmm r
    → Owned (record w { pmm = r.1 })
failed-Owned {w} o p (granted {t} b (l, ne, f) u c (v, z, e)) = absurd (ne (omega arith))
failed-Owned o p (exhausted all) = o

released-Owned :
    {w : World} (t : Pmm) (b : ℕ)
    → Owned w
    → w.held b ≡ true
    → ((j : ℕ) → used t j ≡ (not (j == b) && used w.pmm j))
    → t.bitmap_bits ≡ w.pmm.bitmap_bits
    → IsValid t
    → Owned (record { pmm = t; held = λ j. not (j == b) && w.held j })
released-Owned {w} t b o h clears same valid = record {
  valid = valid;
  zero_kept = record {
    zero_used = λ p. ground (arith, clears 0, o.held_nonzero, o.zero_kept.zero_used (omega arith));
  };
  held_used = λ j k. ground (arith, clears j, o.held_used j);
  held_inside = λ j k. ground (arith, o.held_inside j);
  held_nonzero = ground (arith, o.held_nonzero);
}

free-Owned :
    {w : World} {t : Pmm} (addr : ℕ)
    → Owned w
    → w.held (addr / page_size) ≡ true
    → pmm_free_page w.pmm addr ≡ ok t
    → Owned (record { pmm = t; held = λ j. not (j == addr / page_size) && w.held j })
free-Owned {w} {t} addr o h e =
    let (u, r, clears, more, same, valid) =
      pmm_free_page-ok w.pmm addr o.valid (o.held_inside _ h) (o.held_used _ h) in
    let is_u : u ≡ t = ok-injective (sym r ∙ e) in
    subst (λ x. Owned (record { pmm = x; held = λ j. not (j == addr / page_size) && w.held j }))
      is_u (released-Owned u (addr / page_size) o h clears same valid)

-- Every step keeps the ownership invariant.
pub Step-Owned : {w u : World} → Step w u → Owned w → Owned u
Step-Owned (alloc {w} p) o = alloc-Owned o p (pmm_alloc_page-Allocated w.pmm o.valid o.zero_kept)
Step-Owned (alloc_failed {w} p) o =
    failed-Owned o p (pmm_alloc_page-Allocated w.pmm o.valid o.zero_kept)
Step-Owned (free addr h e) o = free-Owned addr o h e

pub Reach-Owned : {w u : World} → Reach w u → Owned w → Owned u
Reach-Owned here o = o
Reach-Owned (next r s) o = Step-Owned s (Reach-Owned r o)

unheld :
    {w : World} {r : ℕ × Pmm}
    → Owned w
    → r.0 ≢ 0
    → Allocated w.pmm r
    → w.held (r.0 / page_size) ≡ false
unheld {w} o p (granted b (l, ne, f) u c v) =
    let page : b * page_size / page_size ≡ b = omega arith in
    rw page (ground (arith, o.held_used b))
unheld o p (exhausted all) = absurd (p refl)

-- From a state in which every held page is in use, after any sequence of allocations and of frees
-- of held pages, a page that pmm_alloc_page gives out is held by no client.
pub alloc-not-held :
    {w u : World}
    → Owned w
    → Reach w u
    → (pmm_alloc_page u.pmm).0 ≢ 0
    → u.held ((pmm_alloc_page u.pmm).0 / page_size) ≡ false
alloc-not-held {u} o r p =
    let q = Reach-Owned r o in unheld q p (pmm_alloc_page-Allocated u.pmm q.valid q.zero_kept)
