-- ===== src/Framebuffer/Defs.antt =====
-- The functions of kernel/src/framebuffer.c. The memory of the screen is a map from the address of a
-- pixel to its 32 bits.
use Prim.Native.Nat.{bit_or}
use reborn_os.Prelude.{
  ℕ, zero, suc, ◌+◌, ◌*◌, ◌/◌, ◌%◌, ◌^◌, ◌||◌, List, [], ◌∷◌, leb, ◌==◌, if◌then◌else◌, put, get_or,
  u32,
}

-- boot_framebuffer_t
pub record Framebuffer : Type 0 where
  pub base : ℕ
  pub size : ℕ
  pub width : ℕ
  pub height : ℕ
  pub pixels_per_scanline : ℕ
  pub bytes_per_pixel : ℕ
  pub red_shift : ℕ
  pub green_shift : ℕ
  pub blue_shift : ℕ

abbrev pub Pixels : Type 0
Pixels = ℕ → ℕ

unfoldable pub pack_color : Framebuffer → ℕ → ℕ
pack_color fb rgb =
    let r = (rgb / 65536) % 256 in
    let g = (rgb / 256) % 256 in
    let b = rgb % 256 in
    bit_or (bit_or (u32 (r * 2 ^ fb.red_shift)) (u32 (g * 2 ^ fb.green_shift)))
      (u32 (b * 2 ^ fb.blue_shift))

abbrev pub pixel_address : Framebuffer → ℕ → ℕ → ℕ
pixel_address fb x y = (fb.base + y * fb.pixels_per_scanline * fb.bytes_per_pixel) % 2 ^ 64 + 4 * x

unfoldable pub put_pixel : Framebuffer → ℕ → ℕ → ℕ → Pixels → Pixels
put_pixel fb x y color m =
    if leb fb.width x || leb fb.height y then m else put m (pixel_address fb x y) color

-- One row of fb_clear from column `x` on.
unfoldable pub clear_row : ℕ → ℕ → ℕ → Framebuffer → ℕ → Pixels → Pixels
clear_row zero x y fb color m = m
clear_row (suc rounds) x y fb color m =
    clear_row rounds (x + 1) y fb color (put_pixel fb x y color m)

unfoldable pub clear_loop : ℕ → ℕ → Framebuffer → ℕ → Pixels → Pixels
clear_loop zero y fb color m = m
clear_loop (suc rounds) y fb color m =
    clear_loop rounds (y + 1) fb color (clear_row fb.width 0 y fb color m)

unfoldable pub fb_clear : Framebuffer → ℕ → Pixels → Pixels
fb_clear fb rgb m = clear_loop fb.height 0 fb (pack_color fb rgb) m

-- `bits & (0x80 >> col)`
abbrev pub is_set : ℕ → ℕ → ℕ
is_set bits col = (bits / 2 ^ col) % 2

-- One row of a glyph, with the columns left: column `7 - k` tests bit `k`.
unfoldable pub glyph_row : ℕ → Framebuffer → ℕ → ℕ → ℕ → ℕ → ℕ → Pixels → Pixels
glyph_row zero fb x y bits fg bg m = m
glyph_row (suc k) fb x y bits fg bg m =
    glyph_row k fb (u32 (x + 1)) y bits fg bg
      (put_pixel fb x y (if is_set bits k == 1 then fg else bg) m)

-- The rows of a glyph from `row` on.
unfoldable pub glyph_loop : ℕ → ℕ → Framebuffer → ℕ → ℕ → List ℕ → ℕ → ℕ → Pixels → Pixels
glyph_loop zero row fb x y glyph fg bg m = m
glyph_loop (suc rounds) row fb x y glyph fg bg m =
    glyph_loop rounds (row + 1) fb x y glyph fg bg
      (glyph_row 8 fb x (u32 (y + row)) (get_or glyph row 0) fg bg m)

-- `font` is font8x8_get_glyph.
module _ (font : ℕ → List ℕ) (fb : Framebuffer) where
  unfoldable pub fb_putc : ℕ → ℕ → ℕ → ℕ → ℕ → Pixels → Pixels
  fb_putc x y c fg_rgb bg_rgb m =
      glyph_loop 8 0 fb x y (font c) (pack_color fb fg_rgb) (pack_color fb bg_rgb) m

  unfoldable pub fb_puts : ℕ → ℕ → List ℕ → ℕ → ℕ → Pixels → Pixels
  fb_puts x y [] fg_rgb bg_rgb m = m
  fb_puts x y (c ∷ s) fg_rgb bg_rgb m =
      fb_puts (u32 (x + 8)) y s fg_rgb bg_rgb (fb_putc x y c fg_rgb bg_rgb m)

unfoldable pub fb_read_pixel : Framebuffer → ℕ → ℕ → Pixels → ℕ
fb_read_pixel fb x y m = if leb fb.width x || leb fb.height y then 0 else m (pixel_address fb x y)
