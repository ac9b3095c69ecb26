-- ===== src/Framebuffer/Page/Typing.antt =====
-- `framebuffer_putchar` and `framebuffer_writestring` of kernel/framebuffer.c type on the page that the screen shows.
use hueos.Base.{
  ℕ, suc, ◌+◌, ◌-◌, ◌*◌, ◌/◌, ◌^◌, ◌<◌, ◌≡◌, ◌∙◌, inl, inr, refl, arith, true, false, Bool-cases,
  ltb, leb, ◌==◌, bit_and, u32, sub32, Bytes, [], ◌∷◌, some, bit_and-field,
}
use mathlib.Core.Path.{subst₂, subst}
use hueos.Framebuffer.{
  Framebuffer, framebuffer_draw_char, advance, wrap_line, wrap_screen, framebuffer_putchar, put_all,
  framebuffer_writestring, framebuffer_clear,
}
use hueos.Framebuffer.Pixels.{IsMapped}
use hueos.Framebuffer.Bounds.{
  Keeps, Keeps-IsMapped, Keeps-trans, advance-Keeps, wrap_line-Keeps, putchar-Keeps,
}
use hueos.Framebuffer.Cursor.{IsPlaced, advance-Nearly, putchar-IsPlaced}
use hueos.Framebuffer.Glyphs.{IsText}
use hueos.Framebuffer.Picture.{clear-pixel}
use hueos.Framebuffer.Page.{
  Page, Shows, put, strike, new_row, new_page, type_char, type_all, empty_page, Keeps-IsText,
  blank-Shows, moved-Shows,
}
use hueos.Framebuffer.Page.Rolling.{same_background, draw_char-Shows, scroll-Shows}

draw_at-Shows :
    (c cx cy col row : ℕ) (fb : Framebuffer) (p : Page)
    → cx ≡ col
    → cy ≡ row
    → Shows fb p
    → col < fb.text_cols
    → row < fb.text_rows
    → Shows
        (framebuffer_draw_char c cx cy fb.text_color fb)
        (record p { glyph = put p.glyph row col c; ink = put p.ink row col fb.text_color })
draw_at-Shows c cx cy col row fb p ex ey h hc hr =
    rw (ex, ey) (draw_char-Shows c col row fb p h hc hr)

-- A character that is drawn, and the cursor behind it.
drawn-Shows :
    (c : ℕ) (fb : Framebuffer) (p : Page)
    → Shows fb p
    → IsPlaced fb
    → let drawn = framebuffer_draw_char c fb.cursor_x fb.cursor_y fb.text_color fb in
      Shows
        (record drawn { cursor_x = u32 (drawn.cursor_x + 1) })
        (record p {
          glyph = put p.glyph p.row p.col c;
          ink = put p.ink p.row p.col fb.text_color;
          col = suc p.col;
        })
drawn-Shows c fb p h placed =
    let left = placed.column in
    let low = placed.row in
    let wide = placed.narrow in
    let ex = h.column in
    let ey = h.line in
    let drawn : Framebuffer = framebuffer_draw_char c fb.cursor_x fb.cursor_y fb.text_color fb in
    let d =
      draw_at-Shows c fb.cursor_x fb.cursor_y p.col p.row fb p ex ey h (omega arith)
        (omega arith) in
    let at = d.column in
    moved-Shows drawn _ (u32 (drawn.cursor_x + 1)) drawn.cursor_y (suc p.col) p.row d (omega arith)
      d.line

-- The character by itself.
advance-Shows :
    (c : ℕ) (fb : Framebuffer) (p : Page)
    → Shows fb p
    → IsPlaced fb
    → Shows (advance c fb) (strike fb.text_color c p)
unfolding advance
advance-Shows c fb p h placed =
    let ex = h.column in
    let ey = h.line in
    let wide = placed.narrow in
    let left = placed.column in
    let low = placed.row in
    let tall = placed.short in
    elim (Bool-cases (c == b'\n')) [
      | inl e ↦ rw e (moved-Shows fb p 0 (u32 (fb.cursor_y + 1)) 0 (suc p.row) h refl (omega arith))
      | inr e ↦ elim (Bool-cases (c == 13)) [
        | inl f ↦ rw (e, f) (moved-Shows fb p 0 fb.cursor_y 0 p.row h refl ey)
        | inr f ↦ elim (Bool-cases (c == 9)) [
          | inl g ↦
              rw (e, f, g)
                (moved-Shows fb p (bit_and (u32 (fb.cursor_x + 8)) 0xfffffff8) fb.cursor_y
                  ((p.col + 8) / 8 * 8) p.row h
                  (omega (arith, bit_and-field 3 29 (u32 (fb.cursor_x + 8)))) ey)
          | inr g ↦ elim (Bool-cases (c == 8)) [
            | inl b ↦ elim (Bool-cases (ltb 0 fb.cursor_x)) [
              | inl some_left ↦
                  rw (e, f, g, b, some_left)
                    (moved-Shows fb p (fb.cursor_x - 1) fb.cursor_y (p.col - 1) p.row h
                      (omega arith) ey)
              | inr none_left ↦
                  rw (e, f, g, b, none_left)
                    (moved-Shows fb p fb.cursor_x fb.cursor_y (p.col - 1) p.row h (ground arith) ey)
            ]
            | inr b ↦ rw (e, f, g, b) (drawn-Shows c fb p h placed)
          ]
        ]
      ]
    ]

wrap_line-Shows :
    (fb : Framebuffer) (p : Page)
    → fb.cursor_y + 1 < 2 ^ 32
    → Shows fb p
    → Shows (wrap_line fb) (new_row fb.text_cols p)
unfolding wrap_line
wrap_line-Shows fb p short h =
    let ex = h.column in
    let ey = h.line in
    elim (Bool-cases (leb fb.text_cols p.col)) [
      | inl e ↦
          let same : leb fb.text_cols fb.cursor_x ≡ true = ground arith in
          rw (e, same)
            (moved-Shows fb p 0 (u32 (fb.cursor_y + 1)) 0 (suc p.row) h refl (omega arith))
      | inr e ↦ let same : leb fb.text_cols fb.cursor_x ≡ false = ground arith in rw (e, same) h
    ]

wrap_screen-Shows :
    (fb : Framebuffer) (p : Page)
    → 0 < fb.text_rows
    → fb.text_rows < 2 ^ 32
    → Shows fb p
    → Shows (wrap_screen fb) (new_page fb.text_rows fb.text_color p)
unfolding wrap_screen
wrap_screen-Shows fb p tall short h =
    let ey = h.line in
    elim (Bool-cases (leb fb.text_rows p.row)) [
      | inl e ↦
          let same : leb fb.text_rows fb.cursor_y ≡ true = ground arith in
          rw (e, same) (scroll-Shows fb p h tall (sub32 fb.text_rows 1) (omega arith))
      | inr e ↦ let same : leb fb.text_rows fb.cursor_y ≡ false = ground arith in rw (e, same) h
    ]

pub putchar-Shows :
    (c : ℕ) (fb : Framebuffer) (p : Page)
    → IsPlaced fb
    → Shows fb p
    → Shows (framebuffer_putchar c fb) (type_char fb.text_rows fb.text_cols fb.text_color c p)
unfolding framebuffer_putchar type_char
putchar-Shows c fb p placed h =
    let there : (fb.fb_address == 0) ≡ false = ground (arith, h.mapped.present) in
    rw there (
      subst₂
        (λ rows color.
          Shows (wrap_screen wrapped) (new_page rows color (new_row fb.text_cols struck)))
        w.rows w.color
        (wrap_screen-Shows wrapped _ (omega (arith, placed.row, w.rows))
          (omega (arith, placed.short, w.rows)) row))
  where
    struck : Page
    struck = strike fb.text_color c p

    wrapped : Framebuffer
    wrapped = wrap_line (advance c fb)

    a : Keeps fb (advance c fb)
    a = advance-Keeps c fb h.mapped

    w : Keeps fb wrapped
    w = Keeps-trans a (wrap_line-Keeps (advance c fb))

    near : (advance c fb).cursor_y + 1 < 2 ^ 32
    near = elim (advance-Nearly c fb placed) [
      | inl low ↦ omega (arith, placed.short)
      | inr (low, _) ↦ omega (arith, placed.short)
    ]

    row : Shows wrapped (new_row fb.text_cols struck)
    row =
        subst (λ cols. Shows wrapped (new_row cols struck)) a.cols
          (wrap_line-Shows (advance c fb) struck near (advance-Shows c fb p h placed))

put_all-Shows :
    (text : Bytes) (fb : Framebuffer) (p : Page)
    → IsPlaced fb
    → Shows fb p
    → Shows (put_all text fb) (type_all fb.text_rows fb.text_cols fb.text_color text p)
unfolding put_all type_all
put_all-Shows [] fb p placed h = h
put_all-Shows (c ∷ text) fb p placed h =
    let k = putchar-Keeps c fb h.mapped in
    let next : Page = type_char fb.text_rows fb.text_cols fb.text_color c p in
    let rest =
      put_all-Shows text (framebuffer_putchar c fb) next (putchar-IsPlaced c fb h.mapped placed)
        (putchar-Shows c fb p placed h) in
    let s : Framebuffer = put_all text (framebuffer_putchar c fb) in
    subst (λ color. Shows s (type_all fb.text_rows fb.text_cols color text next)) k.color
      (subst₂
        (λ rows cols. Shows s (type_all rows cols (framebuffer_putchar c fb).text_color text next))
        k.rows k.cols rest)

pub cleared-Shows :
    (fb : Framebuffer)
    → IsMapped fb
    → IsText fb
    → fb.text_color < 256
    → Shows (framebuffer_clear fb) (empty_page (framebuffer_clear fb).text_color)
cleared-Shows fb m t small =
    let c = clear-pixel fb m in
    let k = c.3 in
    blank-Shows (framebuffer_clear fb) (Keeps-IsMapped k m) (Keeps-IsText k t)
      (omega (arith, k.color, small))
      (λ x y hx hy. c.0 x y (omega (arith, k.width)) (omega (arith, k.height)) ∙ same_background k)
      c.1 c.2

pub cleared-IsPlaced :
    (fb : Framebuffer)
    → IsMapped fb
    → IsText fb
    → 0 < fb.text_cols
    → 0 < fb.text_rows
    → IsPlaced (framebuffer_clear fb)
cleared-IsPlaced fb m t wide tall =
    let c = clear-pixel fb m in
    let k = c.3 in
    record {
      column = omega (arith, c.1, k.cols);
      row = omega (arith, c.2, k.rows);
      narrow = omega (arith, k.cols, t.columns, t.narrow);
      short = omega (arith, k.rows, t.lines, t.short);
    }

-- On a frame buffer in memory whose text grid is as large as fits, of at least one row and column, and with a colour
-- of a byte: from `framebuffer_clear` on, the pixels of the screen show everything that is written, as if it had been
-- typed on an empty page of that grid in that colour: in each cell the glyph of its character, with line feed,
-- carriage return, tab and backspace, a new row behind the last column, and the page rolling up by a row behind the
-- last row. The cursor stands where the next character goes, and the lines below the last row have the background
-- colour.
pub framebuffer_writestring-Shows :
    (text : Bytes) (fb : Framebuffer)
    → IsMapped fb
    → IsText fb
    → fb.text_color < 256
    → 0 < fb.text_cols
    → 0 < fb.text_rows
    → Shows
        (framebuffer_writestring (some text) (framebuffer_clear fb))
        (type_all fb.text_rows fb.text_cols fb.text_color text (empty_page fb.text_color))
unfolding framebuffer_writestring
framebuffer_writestring-Shows text fb m t small wide tall =
    let k = (clear-pixel fb m).3 in
    let clean : Framebuffer = framebuffer_clear fb in
    let there : (clean.fb_address == 0) ≡ false = ground (arith, (Keeps-IsMapped k m).present) in
    let shown =
      put_all-Shows text clean (empty_page clean.text_color) (cleared-IsPlaced fb m t wide tall)
        (cleared-Shows fb m t small) in
    rw there (
      subst
        (λ color.
          Shows (put_all text clean)
            (type_all fb.text_rows fb.text_cols color text (empty_page color)))
        k.color
        (subst₂
          (λ rows cols.
            Shows (put_all text clean)
              (type_all rows cols clean.text_color text (empty_page clean.text_color)))
          k.rows k.cols shown))
