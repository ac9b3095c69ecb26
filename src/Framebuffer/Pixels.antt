-- ===== src/Framebuffer/Pixels.antt =====
-- The pixels of kernel/framebuffer.c as a grid: what one store does to each of them.
use hueos.Base.{
  ℕ, ◌+◌, ◌*◌, ◌^◌, ◌≤◌, ◌<◌, ◌≡◌, ◌≢◌, ◌⊎◌, inl, inr, ap, ◌&&◌, arith, u16, ◌==◌, if◌then◌else◌,
  Bool-cases, dec_lt, load, store, load-store_self, load-store_apart,
}
use hueos.Framebuffer.{Framebuffer, pixel_address, framebuffer_put_pixel}

-- Bytes in a pixel.
abbrev pub depth : Framebuffer → ℕ
depth fb = if fb.fb_bpp == 16 then 2 else 4

-- The frame buffer is there, its lines do not overlap, and all of it lies below 2^32.
pub record IsMapped (fb : Framebuffer) : Type 0 where
  pub present : 0 < fb.fb_address
  pub known : (fb.fb_bpp ≡ 16) ⊎ (fb.fb_bpp ≡ 32)
  pub lines : fb.fb_width * depth fb ≤ fb.fb_pitch
  pub inside : fb.fb_address + fb.fb_height * fb.fb_pitch ≤ 2 ^ 32

depth_pos : (fb : Framebuffer) → 0 < depth fb
depth_pos fb = ground arith

-- Where a pixel stands, with no wrap.
abbrev pub spot : Framebuffer → ℕ → ℕ → ℕ
spot fb x y = fb.fb_address + y * fb.fb_pitch + x * depth fb

-- The value that a pixel shows.
unfoldable pub pixel : Framebuffer → ℕ → ℕ → ℕ
pixel fb x y = load (depth fb) fb.ram (spot fb x y)

-- A colour as the buffer holds it.
abbrev pub shade : Framebuffer → ℕ → ℕ
shade fb color = if fb.fb_bpp == 16 then u16 color else color

-- A pixel lies within the buffer.
pub spot-le : (b x y w h p : ℕ) → w * b ≤ p → x < w → y < h → y * p + x * b + b ≤ h * p
spot-le b x y w h p lines hx hy =
    let line : (x + 1) * b ≤ w * b = grind arith in
    let rows : (y + 1) * p ≤ h * p = grind arith in omega arith

-- Two pixels of a buffer do not overlap.
spot_apart :
    (b x y x' y' w p : ℕ)
    → w * b ≤ p
    → x < w
    → x' < w
    → (x ≢ x') ⊎ (y ≢ y')
    → (y' * p + x' * b + b ≤ y * p + x * b) ⊎ (y * p + x * b + b ≤ y' * p + x' * b)
spot_apart b x y x' y' w p lines hx hx' differ = elim (dec_lt y y') [
  | yes lt ↦ inr (omega (arith, spot-le b x y w y' p lines hx lt))
  | no ge ↦ elim (dec_lt y' y) [
    | yes gt ↦ inl (omega (arith, spot-le b x' y' w y p lines hx' gt))
    | no le ↦
        let same : y * p ≡ y' * p = ap (λ t. t * p) (omega arith) in
        elim (dec_lt x x') [
          | yes lt ↦ inr (let next : (x + 1) * b ≤ x' * b = grind arith in omega arith)
          | no ge' ↦
              let lt : x' < x = omega arith in
              let next : (x' + 1) * b ≤ x * b = grind arith in inl (omega arith)
        ]
  ]
]

-- A pixel on the screen is addressed with no wrap.
pub pixel_address-eq :
    (fb : Framebuffer) (x y : ℕ)
    → IsMapped fb
    → x < fb.fb_width
    → y < fb.fb_height
    → pixel_address fb (depth fb) x y ≡ spot fb x y
pixel_address-eq fb x y m hx hy = omega (
  arith,
  m.inside,
  m.present,
  depth_pos fb,
  spot-le (depth fb) x y fb.fb_width fb.fb_height fb.fb_pitch m.lines hx hy,
)

-- Storing a pixel's worth of bytes changes that pixel alone.
pub pixel-store :
    (fb : Framebuffer) (x y x' y' v : ℕ)
    → IsMapped fb
    → x < fb.fb_width
    → x' < fb.fb_width
    → v < 256 ^ depth fb
    → pixel (record fb { ram = store (depth fb) fb.ram (spot fb x y) v }) x' y'
      ≡ (if x' == x && y' == y then v else pixel fb x' y')
unfolding pixel
pixel-store fb x y x' y' v m hx hx' fits = elim (Bool-cases (x' == x && y' == y)) [
  | inl here ↦
      let ex : x' ≡ x = ground arith in
      let ey : y' ≡ y = ground arith in
      rw (here, ex, ey) (load-store_self (depth fb) fb.ram (spot fb x y) v fits)
  | inr away ↦
      let differ : (x ≢ x') ⊎ (y ≢ y') = ground arith in
      let apart = spot_apart (depth fb) x y x' y' fb.fb_width fb.fb_pitch m.lines hx hx' differ in
      rw away (
        load-store_apart (depth fb) (depth fb) fb.ram (spot fb x y) (spot fb x' y') v (omega arith))
]

-- `framebuffer_put_pixel` on the screen is one store.
pub put_pixel-store :
    (fb : Framebuffer) (x y color : ℕ)
    → IsMapped fb
    → x < fb.fb_width
    → y < fb.fb_height
    → framebuffer_put_pixel x y color fb
      ≡ record fb { ram = store (depth fb) fb.ram (spot fb x y) (shade fb color) }
unfolding framebuffer_put_pixel
put_pixel-store fb x y color m hx hy =
    ground (arith, m.present, m.known, pixel_address-eq fb x y m hx hy)

-- Drawing a pixel on the screen gives it the colour, in the precision of the mode, and leaves every
-- other pixel as it is.
pub pixel-put_pixel :
    (fb : Framebuffer) (x y x' y' color : ℕ)
    → IsMapped fb
    → x < fb.fb_width
    → y < fb.fb_height
    → x' < fb.fb_width
    → color < 2 ^ 32
    → pixel (framebuffer_put_pixel x y color fb) x' y'
      ≡ (if x' == x && y' == y then shade fb color else pixel fb x' y')
pixel-put_pixel fb x y x' y' color m hx hy hx' hc =
    let fits : shade fb color < 256 ^ depth fb = ground arith in
    rw (put_pixel-store fb x y color m hx hy)
      (pixel-store fb x y x' y' (shade fb color) m hx hx' fits)
