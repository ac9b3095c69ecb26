-- ===== src/Framebuffer/Picture.antt =====
-- What clearing, scrolling and drawing in kernel/framebuffer.c leave on the screen, pixel by pixel.
use hueos.Base.{
  ℕ, zero, suc, ◌+◌, ◌-◌, ◌*◌, ◌^◌, ◌≤◌, ◌<◌, ◌≡◌, ◌⊎◌, refl, ◌∙◌, false, ◌&&◌, List, [], ◌∷◌,
  arith, ◌==◌, if◌then◌else◌, bit_and, get_or, for_cells, for_cells_inv, cell_lt, cell_apart,
}
use mathlib.Core.Path.{subst₂}
use native.Mathlib.Nat.{zero-add}
use hueos.Framebuffer.{
  Framebuffer, framebuffer_put_pixel, framebuffer_clear, background, palette, vga_to_rgb,
}
use hueos.Framebuffer.Pixels.{IsMapped, shade, pixel, pixel-put_pixel}
use hueos.Framebuffer.Bounds.{
  Keeps, Keeps-refl, Keeps-trans, Keeps-IsMapped, put_pixel-Keeps, cursor-Keeps,
}

-- A loop over a rectangle whose body draws one pixel, in a colour that depends on the place.
module _ (fb : Framebuffer) (px py rows cols : ℕ) (color : ℕ → ℕ → ℕ) where
  -- The first `k` pixels of the rectangle are drawn, and nothing else is.
  pub record Drawn (k : ℕ) (s : Framebuffer) : Type 0 where
    pub kept : Keeps fb s
    pub drawn :
        (y x : ℕ)
        → y < rows
        → x < cols
        → y * cols + x < k
        → pixel s (px + x) (py + y) ≡ shade fb (color y x)
    pub rest :
        (x y : ℕ)
        → x < fb.fb_width
        → ((x < px) ⊎ (px + cols ≤ x)) ⊎ ((y < py) ⊎ (py + rows ≤ y))
        → pixel s x y ≡ pixel fb x y

  put_pixel-Drawn :
      (y x : ℕ) (s : Framebuffer)
      → IsMapped fb
      → px + cols ≤ fb.fb_width
      → py + rows ≤ fb.fb_height
      → color y x < 2 ^ 32
      → y < rows
      → x < cols
      → Drawn (y * cols + x) s
      → Drawn (suc (y * cols + x)) (framebuffer_put_pixel (px + x) (py + y) (color y x) s)
  put_pixel-Drawn y x s m wide tall hc hy hx d = record {
    kept = Keeps-trans d.kept (put_pixel-Keeps s (px + x) (py + y) (color y x) n);
    drawn = λ y' x' hy' hx' below.
        now (px + x') (py + y') (omega arith)
        ∙ ground (arith, d.kept.bpp, d.drawn y' x', cell_apart y x y' x' cols hx hx');
    rest = λ x' y' hx' out. now x' y' hx' ∙ ground (arith, d.rest x' y');
  }
    where
      n : IsMapped s
      n = Keeps-IsMapped d.kept m

      now :
          (x' y' : ℕ)
          → x' < fb.fb_width
          → pixel (framebuffer_put_pixel (px + x) (py + y) (color y x) s) x' y'
            ≡ (if x' == px + x && y' == py + y then shade s (color y x) else pixel s x' y')
      now x' y' hx' =
          pixel-put_pixel s (px + x) (py + y) x' y' (color y x) n (omega (arith, d.kept.width))
            (omega (arith, d.kept.height)) (omega (arith, d.kept.width)) hc

  pub for_cells-Drawn :
      (body : ℕ → ℕ → Framebuffer → Framebuffer)
      → ((y x : ℕ) (s : Framebuffer)
          → y < rows
          → x < cols
          → body y x s ≡ framebuffer_put_pixel (px + x) (py + y) (color y x) s)
      → IsMapped fb
      → px + cols ≤ fb.fb_width
      → py + rows ≤ fb.fb_height
      → ((y x : ℕ) → color y x < 2 ^ 32)
      → Drawn (rows * cols) (for_cells rows cols body fb)
  for_cells-Drawn body each m wide tall hc =
      for_cells_inv Drawn rows cols body fb
        (λ y x s hy hx d.
          rw (each y x s hy hx) (put_pixel-Drawn y x s m wide tall (hc y x) hy hx d))
        (record {
          kept = Keeps-refl fb;
          drawn = λ y x hy hx below. absurd (omega arith);
          rest = λ x y hx out. refl;
        })

  -- The same by the place on the screen.
  pub Drawn-pixel :
      {s : Framebuffer} (x y : ℕ)
      → Drawn (rows * cols) s
      → px ≤ x
      → x < px + cols
      → py ≤ y
      → y < py + rows
      → pixel s x y ≡ shade fb (color (y - py) (x - px))
  Drawn-pixel {s} x y d lx ux ly uy =
      let ex : px + (x - px) ≡ x = omega arith in
      let ey : py + (y - py) ≡ y = omega arith in
      subst₂ (λ a b. pixel s a b ≡ shade fb (color (y - py) (x - px))) ex ey
        (d.drawn (y - py) (x - px) (omega arith) (omega arith)
          (cell_lt (y - py) (x - px) rows cols (omega arith) (omega arith)))

-- The cursor does not show in the pixels.
pixel_cursor :
    (fb : Framebuffer) (a b x y : ℕ)
    → pixel (record fb { cursor_x = a; cursor_y = b }) x y ≡ pixel fb x y
unfolding pixel
pixel_cursor fb a b x y = refl

abbrev Below : ℕ → List ℕ → Type 0
Below n [] = Unit {0}
Below n (x ∷ xs) = (x < n) × Below n xs

get_or-lt : (n : ℕ) (xs : List ℕ) (i : ℕ) → 0 < n → Below n xs → get_or xs i 0 < n
get_or-lt n [] i pos b = pos
get_or-lt n (x ∷ xs) zero pos b = b.0
get_or-lt n (x ∷ xs) (suc i) pos b = get_or-lt n xs i pos b.1

pub vga_to_rgb-lt : (c : ℕ) → vga_to_rgb c < 2 ^ 32
unfolding vga_to_rgb
vga_to_rgb-lt c = get_or-lt (2 ^ 32) palette (bit_and c 15) (omega arith) (omega arith)

-- After `framebuffer_clear` every pixel of the screen has the background colour, the cursor is at
-- the top left, and no byte outside the frame buffer has changed.
pub clear-pixel :
    (fb : Framebuffer)
    → IsMapped fb
    → let fb' = framebuffer_clear fb in
      ((x y : ℕ) → x < fb.fb_width → y < fb.fb_height → pixel fb' x y ≡ shade fb (background fb))
      × (fb'.cursor_x ≡ 0)
      × (fb'.cursor_y ≡ 0)
      × Keeps fb fb'
unfolding framebuffer_clear
clear-pixel fb m =
    let there : (fb.fb_address == 0) ≡ false = ground (arith, m.present) in
    rw there (
      λ x y hx hy.
          pixel_cursor cleared 0 0 x y
          ∙ Drawn-pixel fb 0 0 fb.fb_height fb.fb_width (λ y x. background fb) x y d (omega arith)
              (omega arith) (omega arith) (omega arith),
      refl,
      refl,
      Keeps-trans d.kept (cursor-Keeps cleared 0 0),
    )
  where
    cleared : Framebuffer
    cleared =
        for_cells fb.fb_height fb.fb_width (λ y x. framebuffer_put_pixel x y (background fb)) fb

    d :
        Drawn fb 0 0 fb.fb_height fb.fb_width
          (λ y x. background fb)
          (fb.fb_height * fb.fb_width)
          cleared
    d =
        for_cells-Drawn fb 0 0 fb.fb_height fb.fb_width (λ y x. background fb)
          (λ y x. framebuffer_put_pixel x y (background fb))
          (λ y x s hy hx. rw (zero-add, zero-add) refl) m (omega arith) (omega arith)
          (λ y x. vga_to_rgb-lt _)
