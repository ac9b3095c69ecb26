-- ===== src/Framebuffer/Cursor.antt =====
-- The cursor of kernel/framebuffer.c stays on the screen.
use hueos.Base.{
  ℕ, ◌+◌, ◌-◌, ◌^◌, ◌≤◌, ◌<◌, ◌≡◌, ◌⊎◌, inl, inr, refl, ◌||◌, arith, leb, ◌==◌, Bool-cases,
  for_cells_inv,
}
use hueos.Framebuffer.{
  Framebuffer, framebuffer_put_pixel, draw_dot, framebuffer_draw_char, copy_pixel,
  framebuffer_scroll, advance, wrap_line, wrap_screen, framebuffer_putchar,
}
use hueos.Framebuffer.Pixels.{IsMapped}
use hueos.Framebuffer.Bounds.{Keeps, advance-Keeps, wrap_line-Keeps, putchar-Keeps}

abbrev pub SameCursor : Framebuffer → Framebuffer → Type 0
SameCursor fb fb' = (fb'.cursor_x ≡ fb.cursor_x) × (fb'.cursor_y ≡ fb.cursor_y)

put_pixel-SameCursor :
    (x y color : ℕ) (a fb : Framebuffer)
    → SameCursor a fb
    → SameCursor a (framebuffer_put_pixel x y color fb)
unfolding framebuffer_put_pixel
put_pixel-SameCursor x y color a fb h = ground arith

pub draw_char-SameCursor :
    (c col row color : ℕ) (fb : Framebuffer)
    → SameCursor fb (framebuffer_draw_char c col row color fb)
unfolding framebuffer_draw_char draw_dot
draw_char-SameCursor c col row color fb =
    elim (Bool-cases (fb.fb_address == 0 || leb fb.text_cols col || leb fb.text_rows row)) [
      | inl off ↦ rw off (refl, refl)
      | inr on ↦ rw on (
          for_cells_inv (λ _ s. SameCursor fb s) 8 8 _ fb
            (λ y x s hy hx h. put_pixel-SameCursor _ _ _ fb s h) (refl, refl))
    ]

copy_pixel-SameCursor :
    (y x : ℕ) (a fb : Framebuffer) → SameCursor a fb → SameCursor a (copy_pixel y x fb)
unfolding copy_pixel
copy_pixel-SameCursor y x a fb h = ground arith

pub scroll-SameCursor : (fb : Framebuffer) → SameCursor fb (framebuffer_scroll fb)
unfolding framebuffer_scroll
scroll-SameCursor fb = elim (Bool-cases (fb.fb_address == 0)) [
  | inl off ↦ rw off (refl, refl)
  | inr on ↦ rw on (
      for_cells_inv (λ _ s. SameCursor fb s) _ fb.fb_width _ _
        (λ y x s hy hx h. put_pixel-SameCursor _ _ _ fb s h)
        (for_cells_inv (λ _ s. SameCursor fb s) (fb.fb_height - 8) fb.fb_width copy_pixel fb
          (λ y x s hy hx h. copy_pixel-SameCursor y x fb s h) (refl, refl)))
]

-- The cursor stands on a character cell of a screen that has one.
pub record IsPlaced (fb : Framebuffer) : Type 0 where
  pub column : fb.cursor_x < fb.text_cols
  pub row : fb.cursor_y < fb.text_rows
  pub narrow : fb.text_cols + 8 < 2 ^ 32
  pub short : fb.text_rows + 1 < 2 ^ 32

-- Before the wraps the row may be one too far, but then the column is 0.
abbrev pub Nearly : ℕ → Framebuffer → Type 0
Nearly rows fb = (fb.cursor_y < rows) ⊎ ((fb.cursor_y ≤ rows) × (fb.cursor_x ≡ 0))

pub advance-Nearly : (c : ℕ) (fb : Framebuffer) → IsPlaced fb → Nearly fb.text_rows (advance c fb)
unfolding advance
advance-Nearly c fb p =
    ground (arith, draw_char-SameCursor c fb.cursor_x fb.cursor_y fb.text_color fb)

wrap_line-within :
    (rows : ℕ) (fb : Framebuffer)
    → 0 < fb.text_cols
    → rows + 1 < 2 ^ 32
    → Nearly rows fb
    → ((wrap_line fb).cursor_x < fb.text_cols) × ((wrap_line fb).cursor_y ≤ rows)
unfolding wrap_line
wrap_line-within rows fb wide short n = ground arith

wrap_screen-within :
    (fb : Framebuffer)
    → 0 < fb.text_rows
    → fb.text_rows < 2 ^ 32
    → fb.cursor_y ≤ fb.text_rows
    → ((wrap_screen fb).cursor_x ≡ fb.cursor_x) × ((wrap_screen fb).cursor_y < fb.text_rows)
unfolding wrap_screen
wrap_screen-within fb tall short le = ground (arith, scroll-SameCursor fb)

-- Whatever character is written, the cursor is on the screen afterwards.
pub putchar-IsPlaced :
    (c : ℕ) (fb : Framebuffer) → IsMapped fb → IsPlaced fb → IsPlaced (framebuffer_putchar c fb)
putchar-IsPlaced c fb m p = rw on (record {
  column = omega (arith, final.0, line.0, a.cols, end.cols);
  row = omega (arith, final.1, a.rows, w.rows, end.rows);
  narrow = omega (arith, p.narrow, end.cols);
  short = omega (arith, p.short, end.rows);
})
  where
    a : Keeps fb (advance c fb)
    a = advance-Keeps c fb m

    w : Keeps (advance c fb) (wrap_line (advance c fb))
    w = wrap_line-Keeps (advance c fb)

    on : framebuffer_putchar c fb ≡ wrap_screen (wrap_line (advance c fb))
    on = unfold framebuffer_putchar in ground (arith, m.present)

    end : Keeps fb (wrap_screen (wrap_line (advance c fb)))
    end = rw on at (putchar-Keeps c fb m)

    line :
        ((wrap_line (advance c fb)).cursor_x < (advance c fb).text_cols)
        × ((wrap_line (advance c fb)).cursor_y ≤ fb.text_rows)
    line =
        wrap_line-within fb.text_rows (advance c fb) (omega (arith, p.column, a.cols)) p.short
          (advance-Nearly c fb p)

    final :
        ((wrap_screen (wrap_line (advance c fb))).cursor_x ≡ (wrap_line (advance c fb)).cursor_x)
        × ((wrap_screen (wrap_line (advance c fb))).cursor_y < (wrap_line (advance c fb)).text_rows)
    final =
        wrap_screen-within (wrap_line (advance c fb)) (omega (arith, p.row, a.rows, w.rows))
          (omega (arith, p.short, a.rows, w.rows)) (omega (arith, line.1, a.rows, w.rows))
