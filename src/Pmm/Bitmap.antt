-- ===== src/Pmm/Bitmap.antt =====
-- bitmap_set, bitmap_clear and bitmap_test of kernel/src/pmm.c, on the bytes of the bitmap.
use native.Mathlib.Decide.{ℕ_discrete, dec_lt}
use reborn_os.Prelude.{
  ℕ, ◌-◌, ◌/◌, ◌%◌, ◌^◌, ◌<◌, bit_and, bit_or, ◌≡◌, refl, Bool, true, false, ◌||◌, ◌&&◌, not, List,
  arith, zero, suc, replicate, get_or-replicate, ltb, ◌==◌, length, get_or, set, length-set, ap,
  set-out, ltb→lt, ==_ne, get_or-set_self, get_or-set_ne, all_below, all_below_sound,
}

-- `(byte >> k) & 1`
abbrev pub bit_at : ℕ → ℕ → Bool
bit_at byte k = (byte / 2 ^ k) % 2 == 1

unfoldable pub bitmap_test : List ℕ → ℕ → Bool
bitmap_test bm bit = bit_at (get_or bm (bit / 8) 0) (bit % 8)

unfoldable pub bitmap_set : List ℕ → ℕ → List ℕ
bitmap_set bm bit = set bm (bit / 8) (bit_or (get_or bm (bit / 8) 0) (2 ^ (bit % 8)))

-- `(uint8_t)~(1u << k)` is 255 less the bit.
unfoldable pub bitmap_clear : List ℕ → ℕ → List ℕ
bitmap_clear bm bit = set bm (bit / 8) (bit_and (get_or bm (bit / 8) 0) (255 - 2 ^ (bit % 8)))

eqb : Bool → Bool → Bool
eqb true b = b
eqb false b = not b

eqb-eq : (a b : Bool) → eqb a b ≡ true → a ≡ b
unfolding eqb
eqb-eq a b h = ground arith

-- Every byte, every bit set or cleared, every bit read.
set_row : ℕ → ℕ → Bool
set_row b k = all_below 8 λ j. eqb (bit_at (bit_or b (2 ^ k)) j) (j == k || bit_at b j)

clear_row : ℕ → ℕ → Bool
clear_row b k =
    all_below 8 λ j. eqb (bit_at (bit_and b (255 - 2 ^ k)) j) (not (j == k) && bit_at b j)

set_table : all_below 256 (λ b. all_below 8 λ k. set_row b k && ltb (bit_or b (2 ^ k)) 256) ≡ true
unfolding all_below eqb set_row
set_table = refl

clear_table :
    all_below 256 (λ b. all_below 8 λ k. clear_row b k && ltb (bit_and b (255 - 2 ^ k)) 256) ≡ true
unfolding all_below eqb clear_row
clear_table = refl

-- The two tables read at one byte, one bit changed and one bit read.
and_true : (a b : Bool) → (a && b) ≡ true → (a ≡ true) × (b ≡ true)
and_true a b h = ground arith

set_cell : (b k : ℕ) → b < 256 → k < 8 → (set_row b k ≡ true) × (ltb (bit_or b (2 ^ k)) 256 ≡ true)
set_cell b k hb hk = and_true _ _ (all_below_sound 8 _ k (all_below_sound 256 _ b set_table hb) hk)

clear_cell :
    (b k : ℕ)
    → b < 256
    → k < 8
    → (clear_row b k ≡ true) × (ltb (bit_and b (255 - 2 ^ k)) 256 ≡ true)
clear_cell b k hb hk =
    and_true _ _ (all_below_sound 8 _ k (all_below_sound 256 _ b clear_table hb) hk)

bit_at-bit_or :
    (b k j : ℕ) → b < 256 → k < 8 → j < 8 → bit_at (bit_or b (2 ^ k)) j ≡ (j == k || bit_at b j)
unfolding set_row
bit_at-bit_or b k j hb hk hj = eqb-eq _ _ (all_below_sound 8 _ j (set_cell b k hb hk).0 hj)

bit_at-bit_and :
    (b k j : ℕ)
    → b < 256
    → k < 8
    → j < 8
    → bit_at (bit_and b (255 - 2 ^ k)) j ≡ (not (j == k) && bit_at b j)
unfolding clear_row
bit_at-bit_and b k j hb hk hj = eqb-eq _ _ (all_below_sound 8 _ j (clear_cell b k hb hk).0 hj)

-- Every byte of the bitmap is a byte.
pub record Bytes (bm : List ℕ) : Type 0 where
  pub byte : (i : ℕ) → get_or bm i 0 < 256

Bytes-set : {bm : List ℕ} (i v : ℕ) → Bytes bm → v < 256 → Bytes (set bm i v)
Bytes-set {bm} i v h hv = record {
  byte = λ j. elim (ℕ_discrete i j) [
    | yes e ↦ elim (dec_lt i (length bm)) [
      | yes l ↦ rw (← e, get_or-set_self bm i v 0 l) hv
      | no l ↦ rw (set-out bm i v (omega arith)) (h.byte j)
    ]
    | no ne ↦ rw (get_or-set_ne bm i j v 0 ne) (h.byte j)
  ];
}

module _ (bm : List ℕ) (bytes : Bytes bm) (bit : ℕ) (inside : bit / 8 < length bm) where
  -- Setting a bit sets that bit and leaves every other one as it was.
  pub test-bitmap_set : (j : ℕ) → bitmap_test (bitmap_set bm bit) j ≡ (j == bit || bitmap_test bm j)
  unfolding bitmap_test bitmap_set
  test-bitmap_set j = elim (ℕ_discrete (bit / 8) (j / 8)) [
    | yes e ↦
        rw
          (
            ← e,
            get_or-set_self bm (bit / 8) (bit_or (get_or bm (bit / 8) 0) (2 ^ (bit % 8))) 0 inside,
            bit_at-bit_or (get_or bm (bit / 8) 0) (bit % 8) (j % 8) (bytes.byte (bit / 8))
                (omega arith) (omega arith),
          )
          (ap (λ c. c || bit_at (get_or bm (bit / 8) 0) (j % 8)) (ground arith))
    | no ne ↦
        rw
          (get_or-set_ne bm (bit / 8) (j / 8) (bit_or (get_or bm (bit / 8) 0) (2 ^ (bit % 8))) 0 ne)
          (rw (==_ne j bit (λ e. ne (omega arith))) refl)
  ]

  pub test-bitmap_clear :
      (j : ℕ) → bitmap_test (bitmap_clear bm bit) j ≡ (not (j == bit) && bitmap_test bm j)
  unfolding bitmap_test bitmap_clear
  test-bitmap_clear j = elim (ℕ_discrete (bit / 8) (j / 8)) [
    | yes e ↦
        rw
          (
            ← e,
            get_or-set_self bm (bit / 8) (bit_and (get_or bm (bit / 8) 0) (255 - 2 ^ (bit % 8))) 0
                inside,
            bit_at-bit_and (get_or bm (bit / 8) 0) (bit % 8) (j % 8) (bytes.byte (bit / 8))
                (omega arith) (omega arith),
          )
          (ap (λ c. not c && bit_at (get_or bm (bit / 8) 0) (j % 8)) (ground arith))
    | no ne ↦
        rw
          (get_or-set_ne bm (bit / 8) (j / 8)
            (bit_and (get_or bm (bit / 8) 0) (255 - 2 ^ (bit % 8))) 0 ne)
          (rw (==_ne j bit (λ e. ne (omega arith))) refl)
  ]

  pub bitmap_set-Bytes : Bytes (bitmap_set bm bit)
  unfolding bitmap_set
  bitmap_set-Bytes = Bytes-set (bit / 8) _ bytes (
      ltb→lt _ _
        (set_cell (get_or bm (bit / 8) 0) (bit % 8) (bytes.byte (bit / 8)) (omega arith)).1)

  pub bitmap_clear-Bytes : Bytes (bitmap_clear bm bit)
  unfolding bitmap_clear
  bitmap_clear-Bytes = Bytes-set (bit / 8) _ bytes (
      ltb→lt _ _
        (clear_cell (get_or bm (bit / 8) 0) (bit % 8) (bytes.byte (bit / 8)) (omega arith)).1)

pub length-bitmap_set : (bm : List ℕ) (bit : ℕ) → length (bitmap_set bm bit) ≡ length bm
unfolding bitmap_set
length-bitmap_set bm bit = length-set bm (bit / 8) _

pub length-bitmap_clear : (bm : List ℕ) (bit : ℕ) → length (bitmap_clear bm bit) ≡ length bm
unfolding bitmap_clear
length-bitmap_clear bm bit = length-set bm (bit / 8) _

all_ones : all_below 8 (bit_at 255) ≡ true
unfolding all_below
all_ones = refl

-- `memset(bitmap, 0xFF, bytes)` sets every bit.
pub test-replicate : (n j : ℕ) → j / 8 < n → bitmap_test (replicate n 255) j ≡ true
unfolding bitmap_test
test-replicate n j h =
    rw (get_or-replicate {A = ℕ} n (j / 8) 255 0 h)
      (all_below_sound 8 _ (j % 8) all_ones (omega arith))

get_or-replicate-lt : (n i : ℕ) → get_or (replicate n 255) i 0 < 256
get_or-replicate-lt zero i = omega arith
get_or-replicate-lt (suc n) zero = omega arith
get_or-replicate-lt (suc n) (suc i) = get_or-replicate-lt n i

pub replicate-Bytes : (n : ℕ) → Bytes (replicate n 255)
replicate-Bytes n = record { byte = get_or-replicate-lt n }
