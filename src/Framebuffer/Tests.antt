-- ===== src/Framebuffer/Tests.antt =====
-- Runs of kernel/src/framebuffer.c on a screen of 16 by 9 pixels.
use reborn_os.Prelude.{ℕ, ◌≡◌, inl, refl, List, [], ◌∷◌, arith, replicate}
use reborn_os.Framebuffer.Defs.{
  Framebuffer, put_pixel, pack_color, glyph_row, glyph_loop, fb_putc, fb_puts, fb_read_pixel,
}
use reborn_os.Framebuffer.Pixels.{IsScreen, fb_puts-Outside}

abbrev screen : Framebuffer
screen = record {
  base = 0x1000;
  size = 640;
  width = 16;
  height = 9;
  pixels_per_scanline = 18;
  bytes_per_pixel = 4;
  red_shift = 16;
  green_shift = 8;
  blue_shift = 0;
}

screen-IsScreen : IsScreen screen
screen-IsScreen = record { rows_fit = omega arith; four_bytes = refl; no_wrap = omega arith }

-- Every glyph is a box; the text runs off the right edge.
abbrev boxes : ℕ → List ℕ
boxes c = replicate 8 0xFF

fb_puts-Outside_example : fb_puts boxes screen 12 4 (65 ∷ 66 ∷ []) 0xFFFFFF 0 (λ a. 5) 0xFFF ≡ 5
fb_puts-Outside_example =
    fb_puts-Outside screen 0xFFF screen-IsScreen (inl (omega arith)) boxes 12 4 (65 ∷ 66 ∷ [])
      0xFFFFFF 0 (λ a. 5)

drawn :
    fb_read_pixel screen 15 8 (fb_puts boxes screen 12 4 (65 ∷ 66 ∷ []) 0xFFFFFF 0 (λ a. 5))
    ≡ 0xFFFFFF
unfolding fb_read_pixel fb_puts fb_putc glyph_loop glyph_row put_pixel pack_color
drawn = refl
