-- ===== src/Framebuffer/Page.antt =====
-- The text of kernel/framebuffer.c as a grid of characters, and what it means that the screen shows it.
pub mod Rolling
pub mod Typing
pub mod Start
use hueos.Base.{
  ℕ, suc, ◌+◌, ◌-◌, ◌*◌, ◌/◌, ◌%◌, ◌^◌, ◌≤◌, ◌<◌, ◌≡◌, ◌≢◌, ◌⊎◌, ◌∙◌, inl, inr, refl, sym, ap,
  arith, ◌&&◌, Bool-cases, if◌then◌else◌, ltb, leb, ◌==◌, ==_iff, bit_and, bit_and-ones, ◌>>>◌,
  holds_below, holds_below-lt, true, false, Bytes, [], ◌∷◌,
}
use hueos.Font.{glyph_row, font_8x8}
use hueos.Font.Reversal.{bit}
use hueos.Framebuffer.{Framebuffer, background, vga_to_rgb, framebuffer_scroll}
use hueos.Framebuffer.Pixels.{IsMapped, shade, pixel}
use hueos.Framebuffer.Bounds.{Keeps, Keeps-IsMapped, cursor-Keeps}
use hueos.Framebuffer.Glyphs.{IsText, glyph_of, dot_color}
use hueos.Framebuffer.Scrolling.{scroll-pixel}

-- A character and its colours for each row and column, and the place of the next character.
pub record Page : Type 0 where
  pub glyph : ℕ → ℕ → ℕ
  pub ink : ℕ → ℕ → ℕ
  pub row : ℕ
  pub col : ℕ

abbrev pub empty_page : ℕ → Page
empty_page color = record { glyph = λ row col. b' '; ink = λ row col. color; row = 0; col = 0 }

-- A new value at one place of a grid.
abbrev pub put : (ℕ → ℕ → ℕ) → ℕ → ℕ → ℕ → ℕ → ℕ → ℕ
put cells row col v row' col' = if row' == row && col' == col then v else cells row' col'

-- All rows move up by one, and the last one of `rows` becomes empty.
abbrev pub roll : ℕ → ℕ → Page → Page
roll rows color p = record p {
  glyph = λ row col. if ltb (suc row) rows then p.glyph (suc row) col else b' ';
  ink = λ row col. if ltb (suc row) rows then p.ink (suc row) col else color;
  row = rows - 1;
}

-- What a character does at its place.
abbrev pub strike : ℕ → ℕ → Page → Page
strike color c p =
    if c == b'\n'
    then record p { row = suc p.row; col = 0 }
    else if c == 13
    then record p { col = 0 }
    else if c == 9
    then record p { col = (p.col + 8) / 8 * 8 }
    else if c == 8
    then record p { col = p.col - 1 }
    else record p {
      glyph = put p.glyph p.row p.col c;
      ink = put p.ink p.row p.col color;
      col = suc p.col;
    }

-- Beyond the last column a new row begins, and beyond the last row the page rolls.
abbrev pub new_row : ℕ → Page → Page
new_row cols p = if leb cols p.col then record p { row = suc p.row; col = 0 } else p

abbrev pub new_page : ℕ → ℕ → Page → Page
new_page rows color p = if leb rows p.row then roll rows color p else p

-- One character typed on a page of `rows` and `cols`.
unfoldable pub type_char : ℕ → ℕ → ℕ → ℕ → Page → Page
type_char rows cols color c p = new_page rows color (new_row cols (strike color c p))

unfoldable pub type_all : ℕ → ℕ → ℕ → Bytes → Page → Page
type_all rows cols color [] p = p
type_all rows cols color (c ∷ cs) p = type_all rows cols color cs (type_char rows cols color c p)

-- Every cell shows its character in its colours, the lines below the last row have the background colour, and the
-- cursor stands where the next character goes.
pub record Shows (fb : Framebuffer) (p : Page) : Type 0 where
  pub mapped : IsMapped fb
  pub text : IsText fb
  pub small : fb.text_color < 256
  pub cells :
      (row col y x : ℕ)
      → row < fb.text_rows
      → col < fb.text_cols
      → y < 8
      → x < 8
      → pixel fb (col * 8 + x) (row * 8 + y)
        ≡ shade fb (dot_color (p.glyph row col) (p.ink row col) y x)
  pub margin :
      (x y : ℕ)
      → x < fb.fb_width
      → fb.text_rows * 8 ≤ y
      → y < fb.fb_height
      → pixel fb x y ≡ shade fb (background fb)
  pub column : fb.cursor_x ≡ p.col
  pub line : fb.cursor_y ≡ p.row

pub Keeps-IsText : {fb fb' : Framebuffer} → Keeps fb fb' → IsText fb → IsText fb'
Keeps-IsText k t = record {
  columns = k.cols ∙ t.columns ∙ ap (λ w. w / 8) (sym k.width);
  lines = k.rows ∙ t.lines ∙ ap (λ h. h / 8) (sym k.height);
  narrow = omega (arith, k.width, t.narrow);
  short = omega (arith, k.height, t.short);
}

empty_rows : holds_below 8 (λ y. glyph_row b' ' y == 0) ≡ true
unfolding holds_below glyph_row font_8x8
empty_rows = refl

-- A space is the background alone, and the background is the upper half of the colour.
pub space_dot :
    (color y x : ℕ)
    → color < 256
    → y < 8
    → dot_color b' ' color y x ≡ vga_to_rgb (bit_and (color >>> 4) 0x0f)
space_dot color y x small hy =
    let row : glyph_row b' ' y ≡ 0 =
      (==_iff (glyph_row b' ' y) 0).0
        (holds_below-lt 8 (λ y. glyph_row b' ' y == 0) y empty_rows hy) in
    let half : bit_and (color >>> 4) 15 ≡ color / 16 = omega (arith, bit_and-ones 4 (color / 16)) in
    let none : (0 / 2 ^ x % 2 == 1) ≡ false = let z : 0 / 2 ^ x ≡ 0 = grind arith in rw z refl in
    rw (row, half, none) refl

-- An empty screen.
pub blank-Shows :
    (fb : Framebuffer)
    → IsMapped fb
    → IsText fb
    → fb.text_color < 256
    → ((x y : ℕ) → x < fb.fb_width → y < fb.fb_height → pixel fb x y ≡ shade fb (background fb))
    → fb.cursor_x ≡ 0
    → fb.cursor_y ≡ 0
    → Shows fb (empty_page fb.text_color)
blank-Shows fb m t small empty col row = record {
  mapped = m;
  text = t;
  small = small;
  cells = λ row col y x hr hc hy hx.
      rw (space_dot fb.text_color y x small hy)
        (empty (col * 8 + x) (row * 8 + y) (omega (arith, t.columns)) (omega (arith, t.lines)));
  margin = λ x y hx from below. empty x y hx below;
  column = col;
  line = row;
}

-- Only the cursor moves.
pub moved-Shows :
    (fb : Framebuffer) (p : Page) (x y col row : ℕ)
    → Shows fb p
    → x ≡ col
    → y ≡ row
    → Shows (record fb { cursor_x = x; cursor_y = y }) (record p { col = col; row = row })
unfolding pixel
moved-Shows fb p x y col row h ex ey =
    let k = cursor-Keeps fb x y in
    record {
      mapped = Keeps-IsMapped k h.mapped;
      text = Keeps-IsText k h.text;
      small = h.small;
      cells = h.cells;
      margin = h.margin;
      column = ex;
      line = ey;
    }
