-- ===== src/Framebuffer/Scrolling.antt =====
-- `framebuffer_scroll` of kernel/framebuffer.c moves the picture up by one line of text.
use hueos.Base.{
  ℕ, suc, ◌+◌, ◌-◌, ◌*◌, ◌^◌, ◌≤◌, ◌<◌, ◌≡◌, inl, inr, refl, ap, ◌∙◌, false, ◌&&◌, arith, u16,
  sub32, ltb, ◌==◌, if◌then◌else◌, Bool-cases, store, load-lt, for_cells, for_cells_inv, cell_lt,
  cell_apart,
}
use native.Mathlib.Nat.{zero-add}
use hueos.Framebuffer.{
  Framebuffer, framebuffer_put_pixel, copy_pixel, framebuffer_scroll, background,
}
use hueos.Framebuffer.Pixels.{IsMapped, depth, spot, shade, pixel, pixel-store}
use hueos.Framebuffer.Bounds.{
  Keeps, Keeps-refl, Keeps-trans, Keeps-IsMapped, copy_pixel-store, store-Keeps,
}
use hueos.Framebuffer.Picture.{Drawn, Drawn-pixel, for_cells-Drawn, vga_to_rgb-lt}

-- The first `k` pixels have been moved up, and the others are where they were.
record Moved (fb : Framebuffer) (k : ℕ) (s : Framebuffer) : Type 0 where
  kept : Keeps fb s
  moved :
      (x y : ℕ)
      → x < fb.fb_width
      → y + 8 < fb.fb_height
      → y * fb.fb_width + x < k
      → pixel s x y ≡ pixel fb x (y + 8)
  still :
      (x y : ℕ)
      → x < fb.fb_width
      → y < fb.fb_height
      → k ≤ y * fb.fb_width + x
      → pixel s x y ≡ pixel fb x y

copy_pixel-Moved :
    (fb : Framebuffer) (y x : ℕ) (s : Framebuffer)
    → IsMapped fb
    → y + 8 < fb.fb_height
    → x < fb.fb_width
    → Moved fb (y * fb.fb_width + x) s
    → Moved fb (suc (y * fb.fb_width + x)) (copy_pixel y x s)
copy_pixel-Moved fb y x s m hy hx d = rw (copy_pixel-store s x y n here.0 here.1) (record {
  kept =
      Keeps-trans d.kept (store-Keeps s x y (pixel s x (y + 8)) n here.0 (omega (arith, here.1)));
  moved = λ x' y' hx' hy' below.
      now x' y' hx'
      ∙ ground (arith, source, d.moved x' y', cell_apart y x y' x' fb.fb_width hx hx');
  still = λ x' y' hx' hy' from. now x' y' hx' ∙ ground (arith, d.still x' y');
})
  where
    n : IsMapped s
    n = Keeps-IsMapped d.kept m

    here : (x < s.fb_width) × (y + 8 < s.fb_height)
    here = omega (arith, d.kept.width, d.kept.height)

    later : y * fb.fb_width + x ≤ (y + 8) * fb.fb_width + x
    later = grind arith

    source : pixel s x (y + 8) ≡ pixel fb x (y + 8)
    source = d.still x (y + 8) hx hy later

    now :
        (x' y' : ℕ)
        → x' < fb.fb_width
        → pixel (record s { ram = store (depth s) s.ram (spot s x y) (pixel s x (y + 8)) }) x' y'
          ≡ (if x' == x && y' == y then pixel s x (y + 8) else pixel s x' y')
    now x' y' hx' =
        pixel-store s x y x' y' (pixel s x (y + 8)) n here.0 (omega (arith, d.kept.width))
          (unfold pixel in load-lt (depth s) s.ram (spot s x (y + 8)))

-- Scrolling moves every pixel up by the eight lines of a line of text, gives the eight lowest lines
-- the background colour, and changes no byte outside the frame buffer.
pub scroll-pixel :
    (fb : Framebuffer)
    → IsMapped fb
    → 8 ≤ fb.fb_height
    → fb.fb_height < 2 ^ 32
    → let fb' = framebuffer_scroll fb in
      ((x y : ℕ)
        → x < fb.fb_width
        → y < fb.fb_height
        → pixel fb' x y
          ≡ (if ltb (y + 8) fb.fb_height then pixel fb x (y + 8) else shade fb (background fb)))
      × Keeps fb fb'
unfolding framebuffer_scroll
scroll-pixel fb m tall short =
    rw (there, last, eight)
      (
        λ x y hx hy. elim (Bool-cases (ltb (y + 8) fb.fb_height)) [
          | inl up ↦ rw up (
              d.rest x y (omega (arith, c.kept.width)) (inr (inl (ground arith)))
              ∙ c.moved x y hx (ground arith)
                  (cell_lt y x (fb.fb_height - 8) fb.fb_width (ground arith) hx))
          | inr low ↦ rw low (
              Drawn-pixel moved 0 (fb.fb_height - 8) 8 fb.fb_width (λ y x. background fb) x y d
                (omega arith) (omega arith) (ground arith) (omega arith)
              ∙ ap (λ b. if b == 16 then u16 (background fb) else background fb) c.kept.bpp)
        ],
        Keeps-trans c.kept d.kept,
      )
  where
    moved : Framebuffer
    moved = for_cells (fb.fb_height - 8) fb.fb_width copy_pixel fb

    there : (fb.fb_address == 0) ≡ false
    there = ground (arith, m.present)

    last : sub32 fb.fb_height 8 ≡ fb.fb_height - 8
    last = omega arith

    eight : fb.fb_height - (fb.fb_height - 8) ≡ 8
    eight = omega arith

    c : Moved fb ((fb.fb_height - 8) * fb.fb_width) moved
    c =
        for_cells_inv (Moved fb) (fb.fb_height - 8) fb.fb_width copy_pixel fb
          (λ y x s hy hx. copy_pixel-Moved fb y x s m (omega arith) hx)
          (record {
            kept = Keeps-refl fb;
            moved = λ x y hx hy below. absurd (omega arith);
            still = λ x y hx hy from. refl;
          })

    d :
        Drawn moved 0
          (fb.fb_height - 8)
          8
          fb.fb_width
          (λ y x. background fb)
          (8 * fb.fb_width)
          (for_cells 8 fb.fb_width
            (λ y x. framebuffer_put_pixel x (fb.fb_height - 8 + y) (background fb))
            moved)
    d =
        for_cells-Drawn moved 0 (fb.fb_height - 8) 8 fb.fb_width (λ y x. background fb)
          (λ y x. framebuffer_put_pixel x (fb.fb_height - 8 + y) (background fb))
          (λ y x s hy hx. rw (zero-add x) refl) (Keeps-IsMapped c.kept m)
          (omega (arith, c.kept.width)) (omega (arith, c.kept.height)) (λ y x. vga_to_rgb-lt _)
