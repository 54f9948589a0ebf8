-- ===== src/Pmm/Init.antt =====
-- pmm_init of kernel/src/pmm.c: the pages that are free after boot, and their count.
use mathlib.Core.Option.{none-ne-some}
use mathlib.Core.Bool.{false≢true}
use reborn_os.Prelude.{
  sym, subst, ok-injective, ℕ, zero, suc, ◌+◌, ◌-◌, ◌*◌, ◌/◌, ◌^◌, ◌≤◌, ◌<◌, ◌≡◌, refl, Bool, true,
  false, ◌||◌, ◌&&◌, not, arith, ltb, leb, ◌==◌, if◌then◌else◌, Bool-cases, Option-cases, some, inl,
  inr, ◌∙◌, List, [], ◌∷◌, ok, length-replicate,
}
use reborn_os.Pmm.Bitmap.{test-replicate, replicate-Bytes}
use reborn_os.Pmm.Defs.{
  Pmm, used, page_size, release, Descriptor, type_is_usable, region_end, first_page, highest_from,
  bitmap_region, release_loop, release_usable, claim_loop, reserve_zero, bits_of, bytes_of,
  bitmap_pages, all_used, pmm_init,
}
use reborn_os.Pmm.Valid.{
  IsValid, ZeroReserved, used-claim, used-release, claim-IsValid, release-IsValid, bits-claim,
  bits-release, count_free-zero,
}
use reborn_os.Pmm.Reserve.{claim_loop-Reserved}

-- Whether a usable region of the map holds page `j`.
abbrev pub in_region : Descriptor → ℕ → Bool
in_region d j =
    type_is_usable d.kind && (leb (first_page d) j && ltb j (first_page d + d.number_of_pages))

abbrev pub in_usable : List Descriptor → ℕ → Bool
in_usable [] j = false
in_usable (d ∷ ds) j = in_region d j || in_usable ds j

-- No region of the map wraps round the address space.
abbrev pub Fits : List Descriptor → Type 0
Fits [] = Unit
Fits (d ∷ ds) = (d.physical_start + d.number_of_pages * page_size < 2 ^ 64) × Fits ds

-- No page lies in two usable regions.
abbrev pub Apart : List Descriptor → Type 0
Apart [] = Unit
Apart (d ∷ ds) = ((j : ℕ) → in_region d j ≡ true → in_usable ds j ≡ false) × Apart ds

-- The usable regions end at or below `bits` pages.
abbrev Below : ℕ → List Descriptor → Type 0
Below bits [] = Unit
Below bits (d ∷ ds) =
    (type_is_usable d.kind ≡ true → first_page d + d.number_of_pages ≤ bits) × Below bits ds

highest_from-ge : (h : ℕ) (ds : List Descriptor) → h ≤ highest_from h ds
unfolding highest_from
highest_from-ge h [] = omega arith
highest_from-ge h (d ∷ ds) = ground (arith, highest_from-ge h ds, highest_from-ge (region_end d) ds)

highest_from-lt : (h : ℕ) (ds : List Descriptor) → h < 2 ^ 64 → highest_from h ds < 2 ^ 64
unfolding highest_from
highest_from-lt h [] l = l
highest_from-lt h (d ∷ ds) l =
    ground (arith, highest_from-lt h ds, highest_from-lt (region_end d) ds)

highest_from-Below :
    (h : ℕ) (ds : List Descriptor) → Fits ds → Below (highest_from h ds / page_size) ds
unfolding highest_from
highest_from-Below h [] f = tt
highest_from-Below h (d ∷ ds) f = (
  (λ u. ground (arith, highest_from-ge (region_end d) ds, highest_from-ge h ds)),
  highest_from-Below (if type_is_usable d.kind && ltb h (region_end d) then region_end d else h) ds
      f.1,
)

-- `t` is `s` with the pages from `lo` up to `hi` clear.
record Released (s : Pmm) (page : ℕ → Bool) (t : Pmm) : Type 0 where
  valid : IsValid t
  same_bits : t.bitmap_bits ≡ s.bitmap_bits
  cleared : (j : ℕ) → used t j ≡ (not (page j) && used s j)

abbrev between : ℕ → ℕ → ℕ → Bool
between lo hi j = leb lo j && ltb j hi

Released-trans :
    {s t u : Pmm} {p q : ℕ → Bool} (r : ℕ → Bool)
    → ((j : ℕ) → r j ≡ (p j || q j))
    → Released s p t
    → Released t q u
    → Released s r u
Released-trans r h a b = record {
  valid = b.valid;
  same_bits = b.same_bits ∙ a.same_bits;
  cleared = λ j. ground (arith, a.cleared j, b.cleared j, h j);
}

release-Released :
    {s : Pmm} (p : ℕ)
    → IsValid s
    → p < s.bitmap_bits
    → used s p ≡ true
    → Released s (between p (p + 1)) (release s p)
release-Released {s} p v l u = record {
  valid = release-IsValid v p l u;
  same_bits = bits-release s p;
  cleared = λ j. ground (arith, used-release v p l j);
}

release_loop-Released :
    (n p end : ℕ) (s : Pmm)
    → p + n ≡ end
    → end ≤ s.bitmap_bits
    → IsValid s
    → ((j : ℕ) → p ≤ j → j < end → used s j ≡ true)
    → Released s (between p end) (release_loop n p s)
unfolding release_loop
release_loop-Released zero p end s e l v full = record {
  valid = v;
  same_bits = refl;
  cleared = λ j. ground arith;
}
release_loop-Released (suc n) p end s e l v full =
    let one = release-Released p v (omega arith) (full p (omega arith) (omega arith)) in
    Released-trans (between p end) (λ j. ground arith) one
      (release_loop-Released n (p + 1) end (release s p) (omega arith)
        (omega (arith, bits-release s p)) one.valid
        (λ j a b. ground (arith, one.cleared j, full j (omega arith) b)))

abbrev after : Descriptor → Pmm → Pmm
after d s = if type_is_usable d.kind then release_loop d.number_of_pages (first_page d) s else s

release_region-Released :
    (d : Descriptor) (s : Pmm)
    → (type_is_usable d.kind ≡ true → first_page d + d.number_of_pages ≤ s.bitmap_bits)
    → IsValid s
    → ((j : ℕ) → in_region d j ≡ true → used s j ≡ true)
    → Released s (in_region d) (after d s)
release_region-Released d s below v full = elim (Bool-cases (type_is_usable d.kind)) [
  | inl u ↦
      (let loop =
          release_loop-Released d.number_of_pages (first_page d) (first_page d + d.number_of_pages)
            s refl (below u) v (λ j a b. full j (rw u (ground arith))) in
        rw u (record {
          valid = loop.valid;
          same_bits = loop.same_bits;
          cleared = λ j. rw u (loop.cleared j);
        }))
  | inr u ↦ rw u (record { valid = v; same_bits = refl; cleared = λ j. rw u })
]

release_usable-Released :
    (ds : List Descriptor) (s : Pmm)
    → Below s.bitmap_bits ds
    → Apart ds
    → IsValid s
    → ((j : ℕ) → in_usable ds j ≡ true → used s j ≡ true)
    → Released s (in_usable ds) (release_usable ds s)
unfolding release_usable
release_usable-Released [] s below apart v full = record {
  valid = v;
  same_bits = refl;
  cleared = λ j. refl;
}
release_usable-Released (d ∷ ds) s below apart v full =
    let first = release_region-Released d s below.0 v (λ j h. full j (rw h)) in
    Released-trans (in_usable (d ∷ ds)) (λ j. refl) first
      (release_usable-Released ds (after d s)
        (subst (λ n. Below n ds) (sym first.same_bits) below.1) apart.1 first.valid
        (λ j h. still_used (after d s) j h first.cleared))
  where
    still_used :
        (t : Pmm) (j : ℕ)
        → in_usable ds j ≡ true
        → ((j : ℕ) → used t j ≡ (not (in_region d j) && used s j))
        → used t j ≡ true
    still_used t j h c = elim (Bool-cases (in_region d j)) [
      | inl r ↦ absurd (false≢true (sym (apart.0 j r) ∙ h))
      | inr r ↦ c j ∙ rw (r, full j (rw (r, h)))
    ]

bits-small : (map : List Descriptor) → bits_of map ≤ 2 ^ 52
bits-small map = omega (arith, highest_from-lt 0 map (omega arith))

pub all_used-used : (bits j : ℕ) → j < bits → used (all_used bits) j ≡ true
all_used-used bits j h = test-replicate (bytes_of bits) j (omega arith)

pub all_used-IsValid : (bits : ℕ) → bits ≤ 2 ^ 52 → IsValid (all_used bits)
all_used-IsValid bits h = record {
  storage = omega (arith, length-replicate {A = ℕ} (bytes_of bits) 255);
  bytes = replicate-Bytes (bytes_of bits);
  small = h;
  hint = omega arith;
  counted = sym (count_free-zero (used (all_used bits)) bits (all_used-used bits));
}

in_usable-lt :
    (bits : ℕ) (ds : List Descriptor) (j : ℕ) → Below bits ds → in_usable ds j ≡ true → j < bits
in_usable-lt bits [] j b h = absurd (false≢true h)
in_usable-lt bits (d ∷ ds) j b h = ground (arith, in_usable-lt bits ds j, b.0)

-- The region that hosts the bitmap has room for it inside the tracked range.
bitmap_region-within :
    (bytes bits : ℕ) (ds : List Descriptor) {r : Descriptor}
    → Fits ds
    → Below bits ds
    → bitmap_region bytes ds ≡ some r
    → first_page r + (bytes + page_size - 1) / page_size ≤ bits
unfolding bitmap_region
bitmap_region-within bytes bits [] f b h = absurd (none-ne-some _ h)
bitmap_region-within bytes bits (d ∷ ds) {r} f b h =
    ground (arith, b.0, f.0, bitmap_region-within bytes bits ds {r = r} f.1 b.1)

hint-IsValid : {s : Pmm} → IsValid s → IsValid (record s { search_hint = 1 })
hint-IsValid v = record {
  storage = v.storage;
  bytes = v.bytes;
  small = v.small;
  hint = omega arith;
  counted = v.counted;
}

-- `t` is `s` with page 0 in use, if it is tracked.
record ZeroTaken (s t : Pmm) : Type 0 where
  valid : IsValid t
  zero_kept : ZeroReserved t
  same_bits : t.bitmap_bits ≡ s.bitmap_bits
  taken : (j : ℕ) → j < s.bitmap_bits → used t j ≡ (j == 0 || used s j)

reserve_zero-ZeroTaken : {s : Pmm} → IsValid s → ZeroTaken s (reserve_zero s)
unfolding reserve_zero
reserve_zero-ZeroTaken {s} v = elim (Bool-cases (ltb 0 s.bitmap_bits && not (used s 0))) [
  | inl e ↦ rw e (record {
    valid = hint-IsValid (claim-IsValid v 0 (ground arith) (ground arith));
    zero_kept = record { zero_used = λ h. ground (arith, used-claim v 0 (ground arith) 0) };
    same_bits = bits-claim s 0;
    taken = λ j h. used-claim v 0 (ground arith) j;
  })
  | inr e ↦ rw e (record {
    valid = hint-IsValid v;
    zero_kept = record { zero_used = λ h. ground arith };
    same_bits = refl;
    taken = λ j h. ground arith;
  })
]

-- The state after boot: page `j` is free exactly if a usable region holds it, the bitmap does not
-- lie on it and it is not page 0.
pub record Booted (map : List Descriptor) (s : Pmm) : Type 0 where
  pub valid : IsValid s
  pub zero_kept : ZeroReserved s
  pub same_bits : s.bitmap_bits ≡ bits_of map
  pub region : Descriptor
  pub hosts : bitmap_region (bytes_of (bits_of map)) map ≡ some region
  pub free_iff :
      (j : ℕ)
      → j < bits_of map
      → used s j ≡ (
          j == 0
          || ((leb (first_page region) j && ltb j (first_page region + bitmap_pages (bits_of map)))
              || not (in_usable map j)))

boot :
    (map : List Descriptor) (r : Descriptor)
    → Fits map
    → Apart map
    → bitmap_region (bytes_of (bits_of map)) map ≡ some r
    → Booted map (
        reserve_zero (
          claim_loop
            (bitmap_pages (bits_of map))
            (first_page r)
            (release_usable map (all_used (bits_of map)))))
boot map r f a e =
    let below = highest_from-Below 0 map f in
    let freed =
      release_usable-Released map (all_used (bits_of map)) below a
        (all_used-IsValid (bits_of map) (bits-small map))
        (λ j h. all_used-used (bits_of map) j (in_usable-lt (bits_of map) map j below h)) in
    let hosted =
      claim_loop-Reserved (bitmap_pages (bits_of map)) (first_page r) _
        (rw freed.same_bits
          (bitmap_region-within (bytes_of (bits_of map)) (bits_of map) map f below e))
        freed.valid in
    let zeroed = reserve_zero-ZeroTaken hosted.valid in
    record {
      valid = zeroed.valid;
      zero_kept = zeroed.zero_kept;
      same_bits = zeroed.same_bits ∙ hosted.same_bits ∙ freed.same_bits;
      region = r;
      hosts = e;
      free_iff = λ j h. ground (
        arith,
        zeroed.taken j,
        hosted.taken j,
        freed.cleared j,
        all_used-used (bits_of map) j h,
        hosted.same_bits,
        freed.same_bits,
      );
    }

-- If pmm_init returns, over a map whose regions do not wrap or overlap, the free pages are exactly
-- the usable ones outside the bitmap other than page 0, their number is the count, and the
-- invariant holds.
pub pmm_init-Booted :
    (map : List Descriptor) {s : Pmm} → Fits map → Apart map → pmm_init map ≡ ok s → Booted map s
unfolding pmm_init
pmm_init-Booted map {s} f a h = elim (Option-cases (bitmap_region (bytes_of (bits_of map)) map)) [
  | inl e ↦ absurd (cc (rw (e, pmm_init) at h))
  | inr (r, e) ↦ subst (Booted map) (ok-injective (rw (e, pmm_init) at h)) (boot map r f a e)
]
