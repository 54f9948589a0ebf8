-- ===== src/Pmm/Valid.antt =====
-- The invariant of kernel/src/pmm.c: the bitmap covers every page, and `free_pages` counts the
-- clear bits.
use reborn_os.Prelude.{
  ℕ, zero, suc, ◌+◌, ◌*◌, ◌^◌, ◌≤◌, ◌<◌, ◌≡◌, refl, Bool, true, false, ◌||◌, ◌&&◌, not, arith, ltb,
  ◌==◌, if◌then◌else◌, length,
}
use reborn_os.Pmm.Bitmap.{
  Bytes, test-bitmap_set, test-bitmap_clear, bitmap_set-Bytes, bitmap_clear-Bytes,
  length-bitmap_set, length-bitmap_clear,
}
use reborn_os.Pmm.Defs.{Pmm, used, claim, release}

-- How many of the bits below `n` are clear.
unfoldable pub count_free : (ℕ → Bool) → ℕ → ℕ
count_free f zero = 0
count_free f (suc n) = count_free f n + (if f n then 0 else 1)

pub count_free-le : (f : ℕ → Bool) (n : ℕ) → count_free f n ≤ n
unfolding count_free
count_free-le f zero = omega arith
count_free-le f (suc n) = ground (arith, count_free-le f n)

-- Setting one clear bit takes one from the count, if the bit is counted.
pub count_free-set :
    (f g : ℕ → Bool) (b n : ℕ)
    → f b ≡ false
    → ((j : ℕ) → g j ≡ (j == b || f j))
    → count_free f n ≡ count_free g n + (if ltb b n then 1 else 0)
unfolding count_free
count_free-set f g b zero hf hg = ground arith
count_free-set f g b (suc n) hf hg = ground (arith, count_free-set f g b n hf hg, hg n, hg b)

count_free-agree :
    (f g : ℕ → Bool) (n : ℕ) → ((j : ℕ) → g j ≡ f j) → count_free f n ≡ count_free g n
unfolding count_free
count_free-agree f g zero h = refl
count_free-agree f g (suc n) h = ground (arith, count_free-agree f g n h, h n)

pub count_free-zero : (f : ℕ → Bool) (n : ℕ) → ((j : ℕ) → j < n → f j ≡ true) → count_free f n ≡ 0
unfolding count_free
count_free-zero f zero h = refl
count_free-zero f (suc n) h =
    ground (arith, count_free-zero f n (λ j l. h j (omega arith)), h n (omega arith))

pub record IsValid (s : Pmm) : Type 0 where
  pub storage : s.bitmap_bits ≤ 8 * length s.bitmap
  pub bytes : Bytes s.bitmap
  pub small : s.bitmap_bits ≤ 2 ^ 52
  pub hint : s.search_hint ≤ s.bitmap_bits + 1
  pub counted : s.free_pages ≡ count_free (used s) s.bitmap_bits

-- A tracked page 0 is never free: NULL means failure.
pub record ZeroReserved (s : Pmm) : Type 0 where
  pub zero_used : 0 < s.bitmap_bits → used s 0 ≡ true

pub free_pages-le : {s : Pmm} → IsValid s → s.free_pages ≤ s.bitmap_bits
free_pages-le {s} v = omega (arith, count_free-le (used s) s.bitmap_bits)

pub bits-claim : (s : Pmm) (b : ℕ) → (claim s b).bitmap_bits ≡ s.bitmap_bits
unfolding claim
bits-claim s b = refl

pub bits-release : (s : Pmm) (b : ℕ) → (release s b).bitmap_bits ≡ s.bitmap_bits
unfolding release
bits-release s b = refl

module _ {s : Pmm} (v : IsValid s) (b : ℕ) (inside : b < s.bitmap_bits) where
  pub used-claim : (j : ℕ) → used (claim s b) j ≡ (j == b || used s j)
  unfolding claim
  used-claim j = test-bitmap_set s.bitmap v.bytes b (omega arith) j

  pub used-release : (j : ℕ) → used (release s b) j ≡ (not (j == b) && used s j)
  unfolding release
  used-release j = test-bitmap_clear s.bitmap v.bytes b (omega arith) j

  count-claim :
      used s b ≡ false
      → count_free (used s) s.bitmap_bits ≡ count_free (used (claim s b)) s.bitmap_bits + 1
  count-claim free =
      ground (arith, count_free-set (used s) (used (claim s b)) b s.bitmap_bits free used-claim)

  count-release :
      used s b ≡ true
      → count_free (used (release s b)) s.bitmap_bits ≡ count_free (used s) s.bitmap_bits + 1
  count-release taken = ground (
    arith,
    count_free-set (used (release s b)) (used s) b s.bitmap_bits (ground (arith, used-release b))
        (λ j. ground (arith, used-release j)),
  )

  -- A clear bit is counted, so the decrement does not wrap.
  pub free_pages-claim : used s b ≡ false → (claim s b).free_pages + 1 ≡ s.free_pages
  unfolding claim
  free_pages-claim free = omega (arith, count-claim free, v.counted, v.small, free_pages-le v)

  pub free_pages-release : (release s b).free_pages ≡ s.free_pages + 1
  unfolding release
  free_pages-release = omega (arith, free_pages-le v, v.small)

  pub claim-IsValid : used s b ≡ false → IsValid (claim s b)
  claim-IsValid free = record {
    storage = unfold claim in omega (arith, length-bitmap_set s.bitmap b, v.storage);
    bytes = unfold claim in bitmap_set-Bytes s.bitmap v.bytes b (omega arith);
    small = unfold claim in v.small;
    hint = unfold claim in v.hint;
    counted =
        rw (bits-claim s b) (omega (arith, count-claim free, free_pages-claim free, v.counted));
  }

  pub release-IsValid : used s b ≡ true → IsValid (release s b)
  release-IsValid taken = record {
    storage = unfold release in omega (arith, length-bitmap_clear s.bitmap b);
    bytes = unfold release in bitmap_clear-Bytes s.bitmap v.bytes b (omega arith);
    small = unfold release in v.small;
    hint = unfold release in v.hint;
    counted =
        rw (bits-release s b) (omega (arith, count-release taken, free_pages-release, v.counted));
  }
