-- ===== src/Framebuffer/Glyphs.antt =====
-- `framebuffer_draw_char` of kernel/framebuffer.c shows the glyph of the character.
use hueos.Base.{
  ℕ, ◌+◌, ◌-◌, ◌*◌, ◌/◌, ◌%◌, ◌^◌, ◌<◌, ◌≡◌, ◌≢◌, ◌⊎◌, refl, Bool, true, false, ◌||◌, arith, u8,
  u32, ltb, leb, ◌==◌, is_set, if◌then◌else◌, bit_and, bit_and-ones, ◌<<<◌, ◌>>>◌, for_cells,
  holds_below, holds_below-lt, ltb→lt,
}
use hueos.Font.{glyph_row, reverse_bits, font_8x8}
use hueos.Font.Reversal.{bit}
use hueos.Framebuffer.{
  Framebuffer, framebuffer_put_pixel, draw_dot, framebuffer_draw_char, vga_to_rgb,
}
use hueos.Framebuffer.Pixels.{IsMapped, shade, pixel}
use hueos.Framebuffer.Bounds.{Keeps}
use hueos.Framebuffer.Picture.{Drawn, for_cells-Drawn, vga_to_rgb-lt}

-- The test of the inner loop, for every row of a glyph and every column.
dot_test : ℕ → ℕ → Bool
dot_test row x = is_set (bit_and (reverse_bits row) (1 <<< (7 - x)))

same_test : Bool → Bool → Bool
same_test true b = b
same_test false true = false
same_test false false = true

same_test-eq : (a b : Bool) → same_test a b ≡ true → a ≡ b
unfolding same_test
same_test-eq a b h = ground arith

dot_row : ℕ → Bool
dot_row row = holds_below 8 (λ x. same_test (dot_test row x) (bit row x == 1))

dot_table : holds_below 256 dot_row ≡ true
unfolding holds_below reverse_bits dot_test same_test dot_row
dot_table = refl

-- The pixel in column `x` is set exactly when bit `x` of the glyph's row is 1.
dot_test-bit : (row x : ℕ) → row < 256 → x < 8 → dot_test row x ≡ (bit row x == 1)
unfolding dot_row
dot_test-bit row x hr hx = same_test-eq _ _ (
    holds_below-lt 8 (λ x. same_test (dot_test row x) (bit row x == 1)) x
      (holds_below-lt 256 dot_row row dot_table hr) hx)

byte_rows : ℕ → Bool
byte_rows c = holds_below 8 (λ y. ltb (glyph_row c y) 256)

byte_table : holds_below 128 byte_rows ≡ true
unfolding holds_below byte_rows glyph_row font_8x8
byte_table = refl

glyph_row-lt : (c y : ℕ) → c < 128 → y < 8 → glyph_row c y < 256
unfolding byte_rows
glyph_row-lt c y hc hy = ltb→lt _ _ (
    holds_below-lt 8 (λ y. ltb (glyph_row c y) 256) y (holds_below-lt 128 byte_rows c byte_table hc)
      hy)

-- The glyph for a byte: characters above 127 have that of character 0.
abbrev pub glyph_of : ℕ → ℕ
glyph_of c = if ltb 127 (u8 c) then 0 else u8 c

-- The colour of a dot: the lower half of the attribute in the glyph, the upper half behind it.
abbrev pub dot_color : ℕ → ℕ → ℕ → ℕ → ℕ
dot_color c color y x =
    if bit (glyph_row (glyph_of c) y) x == 1
    then vga_to_rgb (color % 16)
    else vga_to_rgb (color / 16)

-- The text grid that belongs to the screen's size.
pub record IsText (fb : Framebuffer) : Type 0 where
  pub columns : fb.text_cols ≡ fb.fb_width / 8
  pub lines : fb.text_rows ≡ fb.fb_height / 8
  pub narrow : fb.fb_width < 2 ^ 32
  pub short : fb.fb_height < 2 ^ 32

module _ (c col row color : ℕ) (fb : Framebuffer) (small : color < 256) where
  draw_dot-put_pixel :
      (y x : ℕ) (s : Framebuffer)
      → y < 8
      → x < 8
      → col * 8 + 8 < 2 ^ 32
      → row * 8 + 8 < 2 ^ 32
      → draw_dot
          (glyph_of c)
          (vga_to_rgb (bit_and color 15))
          (vga_to_rgb (bit_and (color >>> 4) 15))
          (u32 (col * 8))
          (u32 (row * 8))
          y
          x
          s
        ≡ framebuffer_put_pixel (col * 8 + x) (row * 8 + y) (dot_color c color y x) s
  unfolding draw_dot
  draw_dot-put_pixel y x s hy hx wide tall =
      let low : bit_and color 15 ≡ color % 16 = bit_and-ones 4 color in
      let high : bit_and (color >>> 4) 15 ≡ color / 16 =
        omega (arith, bit_and-ones 4 (color / 16)) in
      let ex : u32 (u32 (col * 8) + x) ≡ col * 8 + x = omega arith in
      let ey : u32 (u32 (row * 8) + y) ≡ row * 8 + y = omega arith in
      let dot : is_set (bit_and (reverse_bits (glyph_row (glyph_of c) y)) (1 <<< (7 - x)))
          ≡ (bit (glyph_row (glyph_of c) y) x == 1) =
        unfold dot_test in
        dot_test-bit (glyph_row (glyph_of c) y) x (glyph_row-lt (glyph_of c) y (ground arith) hy)
          hx in
      rw (low, high, ex, ey, dot) refl

  -- Drawing a character in a cell of the text grid shows its glyph there, pixel by pixel: the pixel
  -- in column x of row y has the foreground colour exactly when bit x of row y of the glyph is set.
  -- No pixel outside the cell changes, and no byte outside the frame buffer.
  pub draw_char-pixel :
      IsMapped fb
      → IsText fb
      → col < fb.text_cols
      → row < fb.text_rows
      → let fb' = framebuffer_draw_char c col row color fb in
        ((x y : ℕ)
          → x < 8
          → y < 8
          → pixel fb' (col * 8 + x) (row * 8 + y) ≡ shade fb (dot_color c color y x))
        × ((x y : ℕ)
            → x < fb.fb_width
            → (x / 8 ≢ col) ⊎ (y / 8 ≢ row)
            → pixel fb' x y ≡ pixel fb x y)
        × Keeps fb fb'
  unfolding framebuffer_draw_char
  draw_char-pixel m t hc hr = rw on (
    λ x y hx hy. d.drawn y x hy hx (omega arith),
    λ x y hx away. d.rest x y hx (ground arith),
    d.kept,
  )
    where
      on : (fb.fb_address == 0 || leb fb.text_cols col || leb fb.text_rows row) ≡ false
      on = ground (arith, m.present)

      body : ℕ → ℕ → Framebuffer → Framebuffer
      body =
          draw_dot (glyph_of c) (vga_to_rgb (bit_and color 15))
            (vga_to_rgb (bit_and (color >>> 4) 15)) (u32 (col * 8)) (u32 (row * 8))

      dot_color-lt : (y x : ℕ) → dot_color c color y x < 2 ^ 32
      dot_color-lt y x = ground (arith, vga_to_rgb-lt (color % 16), vga_to_rgb-lt (color / 16))

      d : Drawn fb (col * 8) (row * 8) 8 8 (dot_color c color) 64 (for_cells 8 8 body fb)
      d =
          for_cells-Drawn fb (col * 8) (row * 8) 8 8 (dot_color c color) body
            (λ y x s hy hx.
              draw_dot-put_pixel y x s hy hx (omega (arith, t.columns, t.narrow))
                (omega (arith, t.lines, t.short)))
            m (omega (arith, t.columns)) (omega (arith, t.lines)) dot_color-lt
