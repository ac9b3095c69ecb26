-- ===== src/Framebuffer/Bounds.antt =====
-- kernel/framebuffer.c writes only inside the frame buffer, and keeps the cursor on the screen.
use hueos.Base.{
  ℕ, ◌+◌, ◌-◌, ◌*◌, ◌≤◌, ◌<◌, ◌≡◌, ◌⊎◌, inl, inr, refl, ◌∙◌, Bool, true, false, ◌||◌, ◌&&◌, arith,
  sub32, ltb, leb, ◌==◌, if◌then◌else◌, Bool-cases, store, store-outside, for_cells, for_cells_inv,
}
use hueos.Framebuffer.{
  Framebuffer, framebuffer_put_pixel, draw_dot, framebuffer_draw_char, copy_pixel,
  framebuffer_scroll, advance, wrap_line, wrap_screen, framebuffer_putchar, background,
}
use hueos.Framebuffer.Pixels.{
  IsMapped, depth, spot, shade, pixel, spot-le, pixel_address-eq, put_pixel-store,
}

-- Between the two states only the cursor and bytes of the frame buffer may differ.
pub record Keeps (fb fb' : Framebuffer) : Type 0 where
  pub address : fb'.fb_address ≡ fb.fb_address
  pub width : fb'.fb_width ≡ fb.fb_width
  pub height : fb'.fb_height ≡ fb.fb_height
  pub pitch : fb'.fb_pitch ≡ fb.fb_pitch
  pub bpp : fb'.fb_bpp ≡ fb.fb_bpp
  pub cols : fb'.text_cols ≡ fb.text_cols
  pub rows : fb'.text_rows ≡ fb.text_rows
  pub color : fb'.text_color ≡ fb.text_color
  pub kind : fb'.fb_type ≡ fb.fb_type
  pub outside :
      (j : ℕ)
      → (j < fb.fb_address) ⊎ (fb.fb_address + fb.fb_height * fb.fb_pitch ≤ j)
      → fb'.ram j ≡ fb.ram j

pub Keeps-refl : (fb : Framebuffer) → Keeps fb fb
Keeps-refl fb = record {
  address = refl;
  width = refl;
  height = refl;
  pitch = refl;
  bpp = refl;
  cols = refl;
  rows = refl;
  color = refl;
  kind = refl;
  outside = λ j out. refl;
}

pub Keeps-trans : {a b c : Framebuffer} → Keeps a b → Keeps b c → Keeps a c
Keeps-trans p q = record {
  address = q.address ∙ p.address;
  width = q.width ∙ p.width;
  height = q.height ∙ p.height;
  pitch = q.pitch ∙ p.pitch;
  bpp = q.bpp ∙ p.bpp;
  cols = q.cols ∙ p.cols;
  rows = q.rows ∙ p.rows;
  color = q.color ∙ p.color;
  kind = q.kind ∙ p.kind;
  outside = λ j out. q.outside j (rw (p.address, p.height, p.pitch) out) ∙ p.outside j out;
}

pub Keeps-IsMapped : {fb fb' : Framebuffer} → Keeps fb fb' → IsMapped fb → IsMapped fb'
Keeps-IsMapped {fb} {fb'} k m = record {
  present = rw k.address m.present;
  known = rw k.bpp m.known;
  lines = rw (k.bpp, k.width, k.pitch) m.lines;
  inside = rw (k.address, k.height, k.pitch) m.inside;
}

-- A store of a pixel's bytes.
pub store-Keeps :
    (fb : Framebuffer) (x y v : ℕ)
    → IsMapped fb
    → x < fb.fb_width
    → y < fb.fb_height
    → Keeps fb (record fb { ram = store (depth fb) fb.ram (spot fb x y) v })
store-Keeps fb x y v m hx hy = record {
  address = refl;
  width = refl;
  height = refl;
  pitch = refl;
  bpp = refl;
  cols = refl;
  rows = refl;
  color = refl;
  kind = refl;
  outside = λ j out. store-outside (depth fb) fb.ram (spot fb x y) v j (
      let within = spot-le (depth fb) x y fb.fb_width fb.fb_height fb.fb_pitch m.lines hx hy in
      grind arith);
}

-- Off the screen, or with no frame buffer, nothing is drawn.
put_pixel_off :
    (fb : Framebuffer) (x y color : ℕ)
    → (fb.fb_width ≤ x) ⊎ (fb.fb_height ≤ y)
    → framebuffer_put_pixel x y color fb ≡ fb
unfolding framebuffer_put_pixel
put_pixel_off fb x y color off = ground arith

pub put_pixel-Keeps :
    (fb : Framebuffer) (x y color : ℕ) → IsMapped fb → Keeps fb (framebuffer_put_pixel x y color fb)
put_pixel-Keeps fb x y color m = elim (Bool-cases (ltb x fb.fb_width && ltb y fb.fb_height)) [
  | inl on ↦
      rw (put_pixel-store fb x y color m (ground arith) (ground arith))
        (store-Keeps fb x y (shade fb color) m (ground arith) (ground arith))
  | inr off ↦ rw (put_pixel_off fb x y color (ground arith)) (Keeps-refl fb)
]

-- `copy_pixel` within the screen is one store too.
pub copy_pixel-store :
    (fb : Framebuffer) (x y : ℕ)
    → IsMapped fb
    → x < fb.fb_width
    → y + 8 < fb.fb_height
    → copy_pixel y x fb
      ≡ record fb { ram = store (depth fb) fb.ram (spot fb x y) (pixel fb x (y + 8)) }
unfolding copy_pixel pixel
copy_pixel-store fb x y m hx hy = ground (
  arith,
  m.known,
  pixel_address-eq fb x y m hx (omega arith),
  pixel_address-eq fb x (y + 8) m hx hy,
)

-- What each cell's step keeps, a loop over cells keeps.
for_cells-Keeps :
    (rows cols : ℕ) (body : ℕ → ℕ → Framebuffer → Framebuffer) (fb : Framebuffer)
    → IsMapped fb
    → ((y x : ℕ) (s : Framebuffer)
        → y < rows
        → x < cols
        → Keeps fb s
        → IsMapped s
        → Keeps s (body y x s))
    → Keeps fb (for_cells rows cols body fb)
for_cells-Keeps rows cols body fb m each =
    for_cells_inv (λ _ s. Keeps fb s) rows cols body fb
      (λ y x s hy hx k. Keeps-trans k (each y x s hy hx k (Keeps-IsMapped k m))) (Keeps-refl fb)

scroll-Keeps : (fb : Framebuffer) → IsMapped fb → Keeps fb (framebuffer_scroll fb)
unfolding framebuffer_scroll
scroll-Keeps fb m =
    let moved : Framebuffer = for_cells (fb.fb_height - 8) fb.fb_width copy_pixel fb in
    let kept : Keeps fb moved =
      for_cells-Keeps (fb.fb_height - 8) fb.fb_width copy_pixel fb m (λ y x s hy hx k n.
        rw (copy_pixel-store s x y n (omega (arith, k.width)) (omega (arith, k.height)))
          (store-Keeps s x y _ n (omega (arith, k.width)) (omega (arith, k.height)))) in
    let last : ℕ = sub32 fb.fb_height 8 in
    let there : (fb.fb_address == 0) ≡ false = ground (arith, m.present) in
    rw there (
      Keeps-trans kept (
        for_cells-Keeps (fb.fb_height - last) fb.fb_width
          (λ y x. framebuffer_put_pixel x (last + y) (background fb)) moved (Keeps-IsMapped kept m)
          (λ y x s hy hx k n. put_pixel-Keeps s x (last + y) (background fb) n)))

draw_char-Keeps :
    (c col row color : ℕ) (fb : Framebuffer)
    → IsMapped fb
    → Keeps fb (framebuffer_draw_char c col row color fb)
unfolding framebuffer_draw_char
draw_char-Keeps c col row color fb m =
    elim (Bool-cases (fb.fb_address == 0 || leb fb.text_cols col || leb fb.text_rows row)) [
      | inl off ↦ rw off (Keeps-refl fb)
      | inr on ↦ rw on (
          for_cells-Keeps 8 8 _ fb m
            (λ y x s hy hx k n. unfold draw_dot in put_pixel-Keeps s _ _ _ n))
    ]

-- Only the cursor moves.
pub cursor-Keeps :
    (fb : Framebuffer) (x y : ℕ) → Keeps fb (record fb { cursor_x = x; cursor_y = y })
cursor-Keeps fb x y = record {
  address = refl;
  width = refl;
  height = refl;
  pitch = refl;
  bpp = refl;
  cols = refl;
  rows = refl;
  color = refl;
  kind = refl;
  outside = λ j out. refl;
}

if-Keeps :
    (b : Bool) (fb x y : Framebuffer) → Keeps fb x → Keeps fb y → Keeps fb (if b then x else y)
if-Keeps true fb x y p q = p
if-Keeps false fb x y p q = q

pub advance-Keeps : (c : ℕ) (fb : Framebuffer) → IsMapped fb → Keeps fb (advance c fb)
unfolding advance
advance-Keeps c fb m =
    let drawn : Framebuffer = framebuffer_draw_char c fb.cursor_x fb.cursor_y fb.text_color fb in
    let k : Keeps fb drawn = draw_char-Keeps c fb.cursor_x fb.cursor_y fb.text_color fb m in
    if-Keeps (c == 10) fb _ _ (cursor-Keeps fb _ _) (
      if-Keeps (c == 13) fb _ _ (cursor-Keeps fb _ _) (
        if-Keeps (c == 9) fb _ _ (cursor-Keeps fb _ _) (
          if-Keeps (c == 8) fb _ _
            (if-Keeps (ltb 0 fb.cursor_x) fb _ _ (cursor-Keeps fb _ _) (Keeps-refl fb))
            (Keeps-trans k (cursor-Keeps drawn _ _)))))

pub wrap_line-Keeps : (fb : Framebuffer) → Keeps fb (wrap_line fb)
unfolding wrap_line
wrap_line-Keeps fb = if-Keeps _ fb _ _ (cursor-Keeps fb _ _) (Keeps-refl fb)

wrap_screen-Keeps : (fb : Framebuffer) → IsMapped fb → Keeps fb (wrap_screen fb)
unfolding wrap_screen
wrap_screen-Keeps fb m =
    if-Keeps _ fb _ _ (Keeps-trans (scroll-Keeps fb m) (cursor-Keeps (framebuffer_scroll fb) _ _))
      (Keeps-refl fb)

-- On a frame buffer in memory below 2^32, whose lines do not overlap, whatever character is written: no byte outside the
-- frame buffer changes, and of the other variables only the cursor moves.
pub putchar-Keeps : (c : ℕ) (fb : Framebuffer) → IsMapped fb → Keeps fb (framebuffer_putchar c fb)
unfolding framebuffer_putchar
putchar-Keeps c fb m =
    let a : Keeps fb (advance c fb) = advance-Keeps c fb m in
    let w : Keeps fb (wrap_line (advance c fb)) = Keeps-trans a (wrap_line-Keeps (advance c fb)) in
    if-Keeps (fb.fb_address == 0) fb _ _ (Keeps-refl fb)
      (Keeps-trans w (wrap_screen-Keeps (wrap_line (advance c fb)) (Keeps-IsMapped w m)))
