-- ===== src/Framebuffer/Pixels.antt =====
-- Which memory the functions of kernel/src/framebuffer.c touch, and what a pixel reads back as.
use native.Mathlib.Decide.{dec_lt}
use reborn_os.Prelude.{
  ℕ, zero, suc, ◌+◌, ◌*◌, ◌%◌, ◌^◌, ◌≤◌, ◌<◌, ◌≡◌, ◌≢◌, ◌⊎◌, inl, inr, refl, sym, ap, ap₂, Bool,
  ==_iff, ◌∙◌, false, ◌||◌, ◌&&◌, leb, ltb, ◌==◌, List, [], ◌∷◌, if◌then◌else◌, arith, Bool-cases,
  get_or, u32,
}
use reborn_os.Framebuffer.Defs.{
  Framebuffer, Pixels, pixel_address, put_pixel, pack_color, clear_row, clear_loop, fb_clear,
  is_set, glyph_row, glyph_loop, fb_putc, fb_puts, fb_read_pixel,
}

-- A screen of 32-bit pixels whose rows fit, in a buffer that does not wrap around the end of memory.
pub record IsScreen (fb : Framebuffer) : Type 0 where
  pub rows_fit : fb.width ≤ fb.pixels_per_scanline
  pub four_bytes : fb.bytes_per_pixel ≡ 4
  pub no_wrap : fb.base + fb.height * fb.pixels_per_scanline * 4 < 2 ^ 64

-- An address outside the buffer.
abbrev pub Outside : Framebuffer → ℕ → Type 0
Outside fb a = (a < fb.base) ⊎ (fb.base + fb.height * fb.pixels_per_scanline * 4 ≤ a)

row_end : (y h p : ℕ) → y < h → y * p + p ≤ h * p
row_end y h p l = grind arith

-- Where a pixel of the screen lies.
pixel_place :
    (fb : Framebuffer) (x y : ℕ)
    → IsScreen fb
    → x < fb.width
    → y < fb.height
    → (pixel_address fb x y ≡ fb.base + y * fb.pixels_per_scanline * 4 + 4 * x)
      × (fb.base + y * fb.pixels_per_scanline * 4 + 4 * x
          < fb.base + fb.height * fb.pixels_per_scanline * 4)
pixel_place fb x y s lx ly =
    let row = row_end y fb.height fb.pixels_per_scanline ly in
    (
      ap (λ b. (fb.base + y * fb.pixels_per_scanline * b) % 2 ^ 64 + 4 * x) s.four_bytes
          ∙ omega (arith, s.no_wrap, s.rows_fit, row),
      omega (arith, s.rows_fit, row),
    )

put_pixel-Outside :
    (fb : Framebuffer) (x y color a : ℕ) (m : Pixels)
    → IsScreen fb
    → Outside fb a
    → put_pixel fb x y color m a ≡ m a
unfolding put_pixel
put_pixel-Outside fb x y color a m s o = elim (Bool-cases (leb fb.width x || leb fb.height y)) [
  | inl e ↦ rw e refl
  | inr e ↦
      (let (place, before) = pixel_place fb x y s (ground arith) (ground arith) in
        rw e (ground (arith, place, before, o)))
]

apart : (p x y x' y' : ℕ) → x < p → x' < p → y < y' → y * p * 4 + 4 * x ≢ y' * p * 4 + 4 * x'
apart p x y x' y' lx lx' l e = absurd (omega (arith, row_end y y' p l))

-- Two pixels at one place are one pixel.
pixel_place-injective :
    (p x y x' y' : ℕ)
    → x < p
    → x' < p
    → y * p * 4 + 4 * x ≡ y' * p * 4 + 4 * x'
    → (x ≡ x') × (y ≡ y')
pixel_place-injective p x y x' y' lx lx' e = elim (dec_lt y y') [
  | yes l ↦ absurd (apart p x y x' y' lx lx' l e)
  | no g ↦ elim (dec_lt y' y) [
    | yes l ↦ absurd (apart p x' y' x y lx' lx l (sym e))
    | no k ↦
        (let same : y ≡ y' = omega arith in
          (let rows : y * p * 4 ≡ y' * p * 4 = ap (λ r. r * p * 4) same in omega arith, same))
  ]
]

distinct :
    (x y x' y' a a' : ℕ)
    → (a' == a) ≡ false
    → (x ≡ x' → y ≡ y' → a' ≡ a)
    → (x == x' && y == y') ≡ false
distinct x y x' y' a a' z differ = elim (Bool-cases (x == x' && y == y')) [
  | inr e ↦ e
  | inl e ↦ absurd (ground (arith, differ (ground arith) (ground arith)))
]

if_not : (p q : Bool) (u v : ℕ) → p ≡ false → (if p && q then u else v) ≡ v
if_not p q u v e = rw e refl

-- A pixel that is written reads back, and the other pixels of the screen keep their color; a pixel
-- that is not on the screen is not written and reads as 0.
pub fb_read_pixel-put_pixel :
    (fb : Framebuffer) (x y x' y' color : ℕ) (m : Pixels)
    → IsScreen fb
    → fb_read_pixel fb x' y' (put_pixel fb x y color m) ≡ (
        if (x == x' && y == y') && (ltb x fb.width && ltb y fb.height)
        then color
        else fb_read_pixel fb x' y' m)
unfolding fb_read_pixel put_pixel
fb_read_pixel-put_pixel fb x y x' y' color m s =
    elim (Bool-cases (leb fb.width x || leb fb.height y)) [
      | inl e ↦ rw e (ground arith)
      | inr e ↦ elim (Bool-cases (leb fb.width x' || leb fb.height y')) [
        | inl e' ↦ rw (e, e') (ground arith)
        | inr e' ↦
            (let (place, b) = pixel_place fb x y s (ground arith) (ground arith) in
              let (place', b') = pixel_place fb x' y' s (ground arith) (ground arith) in
              let one =
                pixel_place-injective fb.pixels_per_scanline x y x' y' (ground (arith, s.rows_fit))
                  (ground (arith, s.rows_fit)) in
              elim (Bool-cases (pixel_address fb x' y' == pixel_address fb x y)) [
                | inl z ↦
                    (let (col, row) = one (
                        omega (
                          arith,
                          place,
                          place',
                          (==_iff (pixel_address fb x' y') (pixel_address fb x y)).0 z,
                        )) in
                      rw (e, e', z) (ground (arith, col, row)))
                | inr z ↦
                    (let differ =
                        λ (p : x ≡ x') (q : y ≡ y'). ap₂ (pixel_address fb) (sym p) (sym q) in
                      rw (e, e', z)
                        (sym (
                          if_not (x == x' && y == y') (ltb x fb.width && ltb y fb.height) color
                            (m (pixel_address fb x' y'))
                            (distinct x y x' y' (pixel_address fb x y) (pixel_address fb x' y') z
                              differ))))
              ])
      ]
    ]

-- The rest of the functions only write pixels.
module _ (fb : Framebuffer) (a : ℕ) (s : IsScreen fb) (o : Outside fb a) where
  clear_row-Outside : (n x y color : ℕ) (m : Pixels) → clear_row n x y fb color m a ≡ m a
  unfolding clear_row
  clear_row-Outside zero x y color m = refl
  clear_row-Outside (suc n) x y color m =
      clear_row-Outside n (x + 1) y color (put_pixel fb x y color m)
      ∙ put_pixel-Outside fb x y color a m s o

  clear_loop-Outside : (n y color : ℕ) (m : Pixels) → clear_loop n y fb color m a ≡ m a
  unfolding clear_loop
  clear_loop-Outside zero y color m = refl
  clear_loop-Outside (suc n) y color m =
      clear_loop-Outside n (y + 1) color (clear_row fb.width 0 y fb color m)
      ∙ clear_row-Outside fb.width 0 y color m

  glyph_row-Outside : (n x y bits fg bg : ℕ) (m : Pixels) → glyph_row n fb x y bits fg bg m a ≡ m a
  unfolding glyph_row
  glyph_row-Outside zero x y bits fg bg m = refl
  glyph_row-Outside (suc n) x y bits fg bg m =
      let color = if is_set bits n == 1 then fg else bg in
      glyph_row-Outside n (u32 (x + 1)) y bits fg bg (put_pixel fb x y color m)
      ∙ put_pixel-Outside fb x y color a m s o

  glyph_loop-Outside :
      (n row x y : ℕ) (glyph : List ℕ) (fg bg : ℕ) (m : Pixels)
      → glyph_loop n row fb x y glyph fg bg m a ≡ m a
  unfolding glyph_loop
  glyph_loop-Outside zero row x y glyph fg bg m = refl
  glyph_loop-Outside (suc n) row x y glyph fg bg m =
      let drawn = glyph_row 8 fb x (u32 (y + row)) (get_or glyph row 0) fg bg m in
      glyph_loop-Outside n (row + 1) x y glyph fg bg drawn
      ∙ glyph_row-Outside 8 x (u32 (y + row)) (get_or glyph row 0) fg bg m

  fb_clear-Outside : (rgb : ℕ) (m : Pixels) → fb_clear fb rgb m a ≡ m a
  unfolding fb_clear
  fb_clear-Outside rgb m = clear_loop-Outside fb.height 0 (pack_color fb rgb) m

  -- On a screen of 32-bit pixels whose rows fit and whose buffer does not wrap around the end of
  -- memory, fb_puts of any text at any position, also one that runs off the screen, writes no
  -- address outside the buffer.
  pub fb_puts-Outside :
      (font : ℕ → List ℕ) (x y : ℕ) (text : List ℕ) (fg_rgb bg_rgb : ℕ) (m : Pixels)
      → fb_puts font fb x y text fg_rgb bg_rgb m a ≡ m a
  unfolding fb_puts fb_putc
  fb_puts-Outside font x y [] fg_rgb bg_rgb m = refl
  fb_puts-Outside font x y (c ∷ text) fg_rgb bg_rgb m =
      fb_puts-Outside font (u32 (x + 8)) y text fg_rgb bg_rgb
        (fb_putc font fb x y c fg_rgb bg_rgb m)
      ∙ glyph_loop-Outside 8 0 x y (font c) (pack_color fb fg_rgb) (pack_color fb bg_rgb) m
