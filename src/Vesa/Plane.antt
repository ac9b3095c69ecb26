-- ===== src/Vesa/Plane.antt =====
-- What the font copying of kernel/vesa.c leaves in the font plane.
use hueos.Base.{
  ℕ, suc, ◌+◌, ◌-◌, ◌*◌, ◌≤◌, ◌<◌, ◌≡◌, ◌≢◌, ◌∙◌, refl, sym, ap, true, false, arith, Ram, u8, ltb,
  ◌==◌, ==_iff, unequal, if◌then◌else◌, for_cells, for_cells_inv, dec_lt, ℕ_discrete, holds_below,
  holds_below-lt, ltb→lt, lt→ltb, ltb-false,
}
use hueos.Font.{glyph_row, reverse_bits, font_8x8}
use hueos.Font.Reversal.{bit, bit-reverse_bits}
use hueos.Vesa.{put_row, copy_font}

-- Where row `row` of character `ch` stands.
abbrev pub plane_address : ℕ → ℕ → ℕ
plane_address ch row = 0xA0000 + ch * 32 + row

-- The byte for a row of the screen's leftmost-first order.
abbrev mirrored : ℕ → ℕ → ℕ
mirrored ch row = u8 (reverse_bits (glyph_row ch row))

apart :
    (first c r y x : ℕ)
    → c * 8 + r ≢ y * 8 + x
    → r < 8
    → x < 8
    → (plane_address (first + c) r == plane_address (first + y) x) ≡ false
apart first c r y x ne hr hx =
    unequal (plane_address (first + c) r) (plane_address (first + y) x) (λ e. ne (omega arith))

module _ (glyph : ℕ → ℕ) (first : ℕ) (ram : Ram) where
  -- What the loop has done after `n` rows.
  Copied : ℕ → Ram → Type 0
  Copied n ram' =
      ((c r : ℕ)
        → c < 128
        → r < 8
        → c * 8 + r < n
        → ram' (plane_address (first + c) r) ≡ mirrored (glyph c) r)
      × ((a : ℕ) → ((c r : ℕ) → c < 128 → r < 8 → a ≢ plane_address (first + c) r) → ram' a ≡ ram a)

  copied : Copied (128 * 8) (for_cells 128 8 (put_row glyph first) ram)
  unfolding Copied put_row
  copied =
      for_cells_inv Copied 128 8 (put_row glyph first) ram step
        ((λ c r hc hr lt. absurd (omega arith)), (λ a out. refl))
    where
      step :
          (y x : ℕ) (u : Ram)
          → y < 128
          → x < 8
          → Copied (y * 8 + x) u
          → Copied (suc (y * 8 + x)) (put_row glyph first y x u)
      step y x u hy hx (done, rest) = (
        (λ c r hc hr lt. elim (ℕ_discrete (c * 8 + r) (y * 8 + x)) [
          | yes same ↦
              let cy : c ≡ y = omega arith in
              let rx : r ≡ x = omega arith in
              rw
                (
                  cy,
                  rx,
                  (==_iff (plane_address (first + y) x) (plane_address (first + y) x)).1 refl,
                )
                refl
          | no ne ↦ rw (apart first c r y x (omega arith) hr hx) (done c r hc hr (omega arith))
        ]),
        (λ a out. rw (unequal a (plane_address (first + y) x) (out y x hy hx)) (rest a out)),
      )

small_table : holds_below 256 (λ b. ltb (reverse_bits b) 256) ≡ true
unfolding holds_below reverse_bits
small_table = refl

glyph_table : holds_below 128 (λ c. holds_below 8 (λ r. ltb (glyph_row c r) 256)) ≡ true
unfolding holds_below glyph_row font_8x8
glyph_table = refl

glyph_row-lt : (c r : ℕ) → c < 128 → r < 8 → glyph_row c r < 256
glyph_row-lt c r hc hr =
    ltb→lt _ _ (holds_below-lt 8 _ r (holds_below-lt 128 _ c glyph_table hc) hr)

mirrored-bit :
    (c r i : ℕ) → c < 128 → r < 8 → i < 8 → bit (mirrored c r) (7 - i) ≡ bit (glyph_row c r) i
mirrored-bit c r i hc hr hi =
    let b : glyph_row c r < 256 = glyph_row-lt c r hc hr in
    let small : reverse_bits (glyph_row c r) < 256 =
      ltb→lt _ _ (holds_below-lt 256 _ (glyph_row c r) small_table b) in
    let same : mirrored c r ≡ reverse_bits (glyph_row c r) = omega arith in
    ap (λ v. bit v (7 - i)) same ∙ bit-reverse_bits (glyph_row c r) i b hi

low_half :
    (ram : Ram) (ch row : ℕ)
    → ch < 128
    → row < 8
    → copy_font ram (plane_address ch row) ≡ mirrored ch row
unfolding copy_font Copied
low_half ram ch row hc hr =
    let first : Ram = for_cells 128 8 (put_row (λ ch. ch) 0) ram in
    let at_0 : plane_address (0 + ch) row ≡ plane_address ch row = omega arith in
    (copied (λ _. 0) 128 first).1 (plane_address ch row) (λ c r p q. omega arith)
    ∙ ap first (sym at_0)
    ∙ (copied (λ ch. ch) 0 ram).0 ch row hc hr (omega arith)

high_half :
    (ram : Ram) (ch row : ℕ)
    → 128 ≤ ch
    → ch < 256
    → row < 8
    → copy_font ram (plane_address ch row) ≡ mirrored 0 row
unfolding copy_font Copied
high_half ram ch row high hc hr =
    let first : Ram = for_cells 128 8 (put_row (λ ch. ch) 0) ram in
    let split : 128 + (ch - 128) ≡ ch = omega arith in
    ap (λ c. copy_font ram (plane_address c row)) (sym split)
    ∙ (copied (λ _. 0) 128 first).0 (ch - 128) row (omega arith) hr (omega arith)

-- The plane shows the font: pixel `i` from the left, bit 7 - i of the byte, is pixel `i` of the glyph of the
-- character, and of the blank glyph 0 from character 128 on.
pub copy_font-pixel :
    (ram : Ram) (ch row i : ℕ)
    → ch < 256
    → row < 8
    → i < 8
    → bit (copy_font ram (plane_address ch row)) (7 - i)
      ≡ bit (glyph_row (if ltb ch 128 then ch else 0) row) i
copy_font-pixel ram ch row i hc hr hi = elim (dec_lt ch 128) [
  | yes low ↦
      rw (lt→ltb ch 128 low)
        (ap (λ v. bit v (7 - i)) (low_half ram ch row low hr) ∙ mirrored-bit ch row i low hr hi)
  | no high ↦ rw (ltb-false ch 128 (omega arith)) (
      ap (λ v. bit v (7 - i)) (high_half ram ch row (omega arith) hc hr)
      ∙ mirrored-bit 0 row i (omega arith) hr hi)
]

-- No byte outside the rows of the 256 characters changes.
pub copy_font-outside :
    (ram : Ram) (a : ℕ)
    → ((ch row : ℕ) → ch < 256 → row < 8 → a ≢ plane_address ch row)
    → copy_font ram a ≡ ram a
unfolding copy_font Copied
copy_font-outside ram a out =
    (copied (λ _. 0) 128 (for_cells 128 8 (put_row (λ ch. ch) 0) ram)).1 a
      (λ c r hc hr. out (128 + c) r (omega arith) hr)
    ∙ (copied (λ ch. ch) 0 ram).1 a (λ c r hc hr e. out c r (omega arith) hr (omega arith))
