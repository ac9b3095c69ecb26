-- ===== src/Framebuffer/Page/Rolling.antt =====
-- `framebuffer_draw_char` and `framebuffer_scroll` of kernel/framebuffer.c on the page that the screen shows.
use hueos.Base.{
  ℕ, suc, ◌+◌, ◌-◌, ◌*◌, ◌/◌, ◌%◌, ◌^◌, ◌≤◌, ◌<◌, ◌≡◌, ◌≢◌, ◌⊎◌, ◌∙◌, inl, inr, refl, sym, ap,
  arith, ◌&&◌, true, Bool-cases, if◌then◌else◌, ltb, ◌==◌, bit_and, ltb→lt, lt→ltb,
}
use hueos.Framebuffer.{
  Framebuffer, background, vga_to_rgb, framebuffer_draw_char, framebuffer_scroll,
}
use hueos.Framebuffer.Pixels.{shade, pixel}
use hueos.Framebuffer.Bounds.{Keeps, Keeps-IsMapped}
use hueos.Framebuffer.Cursor.{draw_char-SameCursor, scroll-SameCursor}
use hueos.Framebuffer.Glyphs.{dot_color, draw_char-pixel}
use hueos.Framebuffer.Scrolling.{scroll-pixel}
use hueos.Framebuffer.Page.{Page, Shows, put, roll, Keeps-IsText, space_dot, moved-Shows}

-- A colour looks the same where the depth is the same, and the background is that of the same colour.
same_shade : {fb fb' : Framebuffer} (v : ℕ) → Keeps fb fb' → shade fb v ≡ shade fb' v
same_shade v k = ap (λ b. if b == 16 then v % 2 ^ 16 else v) (sym k.bpp)

pub same_background :
    {fb fb' : Framebuffer} → Keeps fb fb' → shade fb (background fb) ≡ shade fb' (background fb')
same_background {fb} {fb'} k =
    same_shade (background fb) k
    ∙ ap (λ c. shade fb' (vga_to_rgb (bit_and (c / 2 ^ 4) 0x0f))) (sym k.color)

-- A drawn character is on the page.
pub draw_char-Shows :
    (c col row : ℕ) (fb : Framebuffer) (p : Page)
    → Shows fb p
    → col < fb.text_cols
    → row < fb.text_rows
    → Shows
        (framebuffer_draw_char c col row fb.text_color fb)
        (record p { glyph = put p.glyph row col c; ink = put p.ink row col fb.text_color })
draw_char-Shows c col row fb p h hc hr =
    let d = draw_char-pixel c col row fb.text_color fb h.small h.mapped h.text hc hr in
    let k = d.2 in
    let cursor = draw_char-SameCursor c col row fb.text_color fb in
    record {
      mapped = Keeps-IsMapped k h.mapped;
      text = Keeps-IsText k h.text;
      small = omega (arith, k.color, h.small);
      cells = λ row' col' y x hr' hc' hy hx. elim (Bool-cases (row' == row && col' == col)) [
        | inl here ↦
            let er : row' ≡ row = ground arith in
            let ec : col' ≡ col = ground arith in
            rw (here, er, ec) (d.0 x y hx hy ∙ same_shade (dot_color c fb.text_color y x) k)
        | inr away ↦
            let differ : ((col' * 8 + x) / 8 ≢ col) ⊎ ((row' * 8 + y) / 8 ≢ row) = ground arith in
            rw away (
              d.1 (col' * 8 + x) (row' * 8 + y) (omega (arith, k.cols, h.text.columns)) differ
              ∙ h.cells row' col' y x (omega (arith, k.rows)) (omega (arith, k.cols)) hy hx
              ∙ same_shade (dot_color (p.glyph row' col') (p.ink row' col') y x) k)
      ];
      margin = λ x y hx from below.
          d.1 x y (omega (arith, k.width)) (inr (λ e. absurd (omega (arith, k.rows))))
          ∙ h.margin x y (omega (arith, k.width)) (omega (arith, k.rows)) (omega (arith, k.height))
          ∙ same_background k;
      column = cursor.0 ∙ h.column;
      line = cursor.1 ∙ h.line;
    }

-- What the scroll leaves in a place: what stood eight lines below, or the background.
module _ (fb : Framebuffer) (p : Page) (h : Shows fb p) (tall : 0 < fb.text_rows) where
  scrolled :
      (x y : ℕ)
      → x < fb.fb_width
      → y < fb.fb_height
      → pixel (framebuffer_scroll fb) x y
        ≡ (if ltb (y + 8) fb.fb_height then pixel fb x (y + 8) else shade fb (background fb))
  scrolled = (scroll-pixel fb h.mapped (omega (arith, h.text.lines)) h.text.short).0

  kept : Keeps fb (framebuffer_scroll fb)
  kept = (scroll-pixel fb h.mapped (omega (arith, h.text.lines)) h.text.short).1

  -- From the last row on there is only background.
  scrolled_low :
      (x y : ℕ)
      → x < fb.fb_width
      → y < fb.fb_height
      → fb.text_rows * 8 ≤ y + 8
      → pixel (framebuffer_scroll fb) x y ≡ shade fb (background fb)
  scrolled_low x y hx hy low = elim (Bool-cases (ltb (y + 8) fb.fb_height)) [
    | inl up ↦
        scrolled x y hx hy ∙ rw up (h.margin x (y + 8) hx low (ltb→lt (y + 8) fb.fb_height up))
    | inr off ↦ scrolled x y hx hy ∙ rw off refl
  ]

  scrolled_cell :
      (row col y x : ℕ)
      → row < fb.text_rows
      → col < fb.text_cols
      → y < 8
      → x < 8
      → let q = roll fb.text_rows fb.text_color p in
        pixel (framebuffer_scroll fb) (col * 8 + x) (row * 8 + y)
        ≡ shade fb (dot_color (q.glyph row col) (q.ink row col) y x)
  scrolled_cell row col y x hr hc hy hx =
      let wide : col * 8 + x < fb.fb_width = omega (arith, h.text.columns) in
      let high : row * 8 + y < fb.fb_height = omega (arith, h.text.lines) in
      elim (Bool-cases (ltb (suc row) fb.text_rows)) [
        | inl more ↦
            let next = ltb→lt (suc row) fb.text_rows more in
            let below : row * 8 + y + 8 ≡ suc row * 8 + y = omega arith in
            let on : ltb (suc row * 8 + y) fb.fb_height ≡ true =
              lt→ltb (suc row * 8 + y) fb.fb_height (omega (arith, h.text.lines)) in
            scrolled (col * 8 + x) (row * 8 + y) wide high
            ∙ rw (more, below, on) (h.cells (suc row) col y x next hc hy hx)
        | inr last ↦
            scrolled_low (col * 8 + x) (row * 8 + y) wide high (ground arith)
            ∙ rw (last, space_dot fb.text_color y x h.small hy) refl
      ]

  rolled :
      Shows (framebuffer_scroll fb) (record (roll fb.text_rows fb.text_color p) { row = p.row })
  rolled =
      let cursor = scroll-SameCursor fb in
      let q = roll fb.text_rows fb.text_color p in
      record {
        mapped = Keeps-IsMapped kept h.mapped;
        text = Keeps-IsText kept h.text;
        small = omega (arith, kept.color, h.small);
        cells = λ row col y x hr hc hy hx.
            scrolled_cell row col y x (omega (arith, kept.rows)) (omega (arith, kept.cols)) hy hx
            ∙ same_shade (dot_color (q.glyph row col) (q.ink row col) y x) kept;
        margin = λ x y hx from below.
            scrolled_low x y (omega (arith, kept.width)) (omega (arith, kept.height))
              (omega (arith, kept.rows))
            ∙ same_background kept;
        column = cursor.0 ∙ h.column;
        line = cursor.1 ∙ h.line;
      }

  pub scroll-Shows :
      (y : ℕ)
      → y ≡ fb.text_rows - 1
      → Shows (record (framebuffer_scroll fb) { cursor_y = y }) (roll fb.text_rows fb.text_color p)
  scroll-Shows y last =
      moved-Shows (framebuffer_scroll fb)
        (record (roll fb.text_rows fb.text_color p) { row = p.row })
        (framebuffer_scroll fb).cursor_x y p.col (fb.text_rows - 1) rolled rolled.column last
