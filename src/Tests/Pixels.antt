-- ===== src/Tests/Pixels.antt =====
-- A frame buffer of 16 by 16 pixels with 32 bits each, at 1 MiB.
use hueos.Base.{ℕ, ◌+◌, ◌*◌, ◌/◌, ◌<◌, ◌≡◌, ◌≢◌, ◌⊎◌, inr, refl, arith}
use hueos.Framebuffer.{Framebuffer, boot_framebuffer, framebuffer_putchar, framebuffer_draw_char}
use hueos.Framebuffer.Pixels.{IsMapped, shade, pixel}
use hueos.Framebuffer.Bounds.{Keeps, putchar-Keeps}
use hueos.Framebuffer.Glyphs.{IsText, dot_color, draw_char-pixel}

abbrev pub panel : Framebuffer
panel = record (boot_framebuffer (λ a. a)) {
  fb_address = 0x100000;
  fb_width = 16;
  fb_height = 16;
  fb_pitch = 64;
  fb_bpp = 32;
  fb_type = 1;
  text_cols = 2;
  text_rows = 2;
  cursor_x = 1;
  cursor_y = 1;
}

pub panel-IsMapped : IsMapped panel
panel-IsMapped = record {
  present = omega arith;
  known = inr refl;
  lines = omega arith;
  inside = omega arith;
}

pub panel-IsText : IsText panel
panel-IsText = record { columns = refl; lines = refl; narrow = omega arith; short = omega arith }

putchar-Keeps_example : Keeps panel (framebuffer_putchar b'A' panel)
putchar-Keeps_example = putchar-Keeps b'A' panel panel-IsMapped

draw_char-pixel_example :
    (let fb' = framebuffer_draw_char b'A' 1 0 0x1F panel in
      ((x y : ℕ)
        → x < 8
        → y < 8
        → pixel fb' (1 * 8 + x) (0 * 8 + y) ≡ shade panel (dot_color b'A' 0x1F y x))
      × ((x y : ℕ) → x < 16 → (x / 8 ≢ 1) ⊎ (y / 8 ≢ 0) → pixel fb' x y ≡ pixel panel x y)
      × Keeps panel fb')
draw_char-pixel_example =
    draw_char-pixel b'A' 1 0 0x1F panel (omega arith) panel-IsMapped panel-IsText (omega arith)
      (omega arith)
