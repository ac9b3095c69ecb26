-- ===== src/Font.antt =====
-- kernel/font8x8.h: the glyphs, eight rows of eight pixels for each of 128 characters. The lowest
-- bit of a row is its leftmost pixel. `reverse_bits` is that of kernel/vesa.c.
pub mod Reversal
use hueos.Base.{ℕ, ◌∷◌, [], List, Bytes, bit_and, bit_or, get_or, u8, ◌<<<◌, ◌>>>◌}

abbrev pub Glyph : Type 0
Glyph = Bytes

unfoldable pub font_8x8 : List Glyph
font_8x8 =
    (0x00 ∷ 0x00 ∷ 0x00 ∷ 0x00 ∷ 0x00 ∷ 0x00 ∷ 0x00 ∷ 0x00 ∷ [])
    ∷ (0x00 ∷ 0x00 ∷ 0x00 ∷ 0x00 ∷ 0x00 ∷ 0x00 ∷ 0x00 ∷ 0x00 ∷ [])
    ∷ (0x00 ∷ 0x00 ∷ 0x00 ∷ 0x00 ∷ 0x00 ∷ 0x00 ∷ 0x00 ∷ 0x00 ∷ [])
    ∷ (0x00 ∷ 0x00 ∷ 0x00 ∷ 0x00 ∷ 0x00 ∷ 0x00 ∷ 0x00 ∷ 0x00 ∷ [])
    ∷ (0x00 ∷ 0x00 ∷ 0x00 ∷ 0x00 ∷ 0x00 ∷ 0x00 ∷ 0x00 ∷ 0x00 ∷ [])
    ∷ (0x00 ∷ 0x00 ∷ 0x00 ∷ 0x00 ∷ 0x00 ∷ 0x00 ∷ 0x00 ∷ 0x00 ∷ [])
    ∷ (0x00 ∷ 0x00 ∷ 0x00 ∷ 0x00 ∷ 0x00 ∷ 0x00 ∷ 0x00 ∷ 0x00 ∷ [])
    ∷ (0x00 ∷ 0x00 ∷ 0x00 ∷ 0x00 ∷ 0x00 ∷ 0x00 ∷ 0x00 ∷ 0x00 ∷ [])
    ∷ (0x00 ∷ 0x00 ∷ 0x00 ∷ 0x00 ∷ 0x00 ∷ 0x00 ∷ 0x00 ∷ 0x00 ∷ [])
    ∷ (0x00 ∷ 0x00 ∷ 0x00 ∷ 0x00 ∷ 0x00 ∷ 0x00 ∷ 0x00 ∷ 0x00 ∷ [])
    ∷ (0x00 ∷ 0x00 ∷ 0x00 ∷ 0x00 ∷ 0x00 ∷ 0x00 ∷ 0x00 ∷ 0x00 ∷ [])
    ∷ (0x00 ∷ 0x00 ∷ 0x00 ∷ 0x00 ∷ 0x00 ∷ 0x00 ∷ 0x00 ∷ 0x00 ∷ [])
    ∷ (0x00 ∷ 0x00 ∷ 0x00 ∷ 0x00 ∷ 0x00 ∷ 0x00 ∷ 0x00 ∷ 0x00 ∷ [])
    ∷ (0x00 ∷ 0x00 ∷ 0x00 ∷ 0x00 ∷ 0x00 ∷ 0x00 ∷ 0x00 ∷ 0x00 ∷ [])
    ∷ (0x00 ∷ 0x00 ∷ 0x00 ∷ 0x00 ∷ 0x00 ∷ 0x00 ∷ 0x00 ∷ 0x00 ∷ [])
    ∷ (0x00 ∷ 0x00 ∷ 0x00 ∷ 0x00 ∷ 0x00 ∷ 0x00 ∷ 0x00 ∷ 0x00 ∷ [])
    ∷ (0x00 ∷ 0x00 ∷ 0x00 ∷ 0x00 ∷ 0x00 ∷ 0x00 ∷ 0x00 ∷ 0x00 ∷ [])
    ∷ (0x00 ∷ 0x00 ∷ 0x00 ∷ 0x00 ∷ 0x00 ∷ 0x00 ∷ 0x00 ∷ 0x00 ∷ [])
    ∷ (0x00 ∷ 0x00 ∷ 0x00 ∷ 0x00 ∷ 0x00 ∷ 0x00 ∷ 0x00 ∷ 0x00 ∷ [])
    ∷ (0x00 ∷ 0x00 ∷ 0x00 ∷ 0x00 ∷ 0x00 ∷ 0x00 ∷ 0x00 ∷ 0x00 ∷ [])
    ∷ (0x00 ∷ 0x00 ∷ 0x00 ∷ 0x00 ∷ 0x00 ∷ 0x00 ∷ 0x00 ∷ 0x00 ∷ [])
    ∷ (0x00 ∷ 0x00 ∷ 0x00 ∷ 0x00 ∷ 0x00 ∷ 0x00 ∷ 0x00 ∷ 0x00 ∷ [])
    ∷ (0x00 ∷ 0x00 ∷ 0x00 ∷ 0x00 ∷ 0x00 ∷ 0x00 ∷ 0x00 ∷ 0x00 ∷ [])
    ∷ (0x00 ∷ 0x00 ∷ 0x00 ∷ 0x00 ∷ 0x00 ∷ 0x00 ∷ 0x00 ∷ 0x00 ∷ [])
    ∷ (0x00 ∷ 0x00 ∷ 0x00 ∷ 0x00 ∷ 0x00 ∷ 0x00 ∷ 0x00 ∷ 0x00 ∷ [])
    ∷ (0x00 ∷ 0x00 ∷ 0x00 ∷ 0x00 ∷ 0x00 ∷ 0x00 ∷ 0x00 ∷ 0x00 ∷ [])
    ∷ (0x00 ∷ 0x00 ∷ 0x00 ∷ 0x00 ∷ 0x00 ∷ 0x00 ∷ 0x00 ∷ 0x00 ∷ [])
    ∷ (0x00 ∷ 0x00 ∷ 0x00 ∷ 0x00 ∷ 0x00 ∷ 0x00 ∷ 0x00 ∷ 0x00 ∷ [])
    ∷ (0x00 ∷ 0x00 ∷ 0x00 ∷ 0x00 ∷ 0x00 ∷ 0x00 ∷ 0x00 ∷ 0x00 ∷ [])
    ∷ (0x00 ∷ 0x00 ∷ 0x00 ∷ 0x00 ∷ 0x00 ∷ 0x00 ∷ 0x00 ∷ 0x00 ∷ [])
    ∷ (0x00 ∷ 0x00 ∷ 0x00 ∷ 0x00 ∷ 0x00 ∷ 0x00 ∷ 0x00 ∷ 0x00 ∷ [])
    ∷ (0x00 ∷ 0x00 ∷ 0x00 ∷ 0x00 ∷ 0x00 ∷ 0x00 ∷ 0x00 ∷ 0x00 ∷ [])
    ∷ (0x00 ∷ 0x00 ∷ 0x00 ∷ 0x00 ∷ 0x00 ∷ 0x00 ∷ 0x00 ∷ 0x00 ∷ [])
    ∷ (0x18 ∷ 0x3c ∷ 0x3c ∷ 0x18 ∷ 0x18 ∷ 0x00 ∷ 0x18 ∷ 0x00 ∷ [])
    ∷ (0x36 ∷ 0x36 ∷ 0x00 ∷ 0x00 ∷ 0x00 ∷ 0x00 ∷ 0x00 ∷ 0x00 ∷ [])
    ∷ (0x36 ∷ 0x36 ∷ 0x7f ∷ 0x36 ∷ 0x7f ∷ 0x36 ∷ 0x36 ∷ 0x00 ∷ [])
    ∷ (0x0c ∷ 0x3e ∷ 0x03 ∷ 0x1e ∷ 0x30 ∷ 0x1f ∷ 0x0c ∷ 0x00 ∷ [])
    ∷ (0x00 ∷ 0x63 ∷ 0x33 ∷ 0x18 ∷ 0x0c ∷ 0x66 ∷ 0x63 ∷ 0x00 ∷ [])
    ∷ (0x1c ∷ 0x36 ∷ 0x1c ∷ 0x6e ∷ 0x3b ∷ 0x33 ∷ 0x6e ∷ 0x00 ∷ [])
    ∷ (0x06 ∷ 0x06 ∷ 0x03 ∷ 0x00 ∷ 0x00 ∷ 0x00 ∷ 0x00 ∷ 0x00 ∷ [])
    ∷ (0x18 ∷ 0x0c ∷ 0x06 ∷ 0x06 ∷ 0x06 ∷ 0x0c ∷ 0x18 ∷ 0x00 ∷ [])
    ∷ (0x06 ∷ 0x0c ∷ 0x18 ∷ 0x18 ∷ 0x18 ∷ 0x0c ∷ 0x06 ∷ 0x00 ∷ [])
    ∷ (0x00 ∷ 0x66 ∷ 0x3c ∷ 0xff ∷ 0x3c ∷ 0x66 ∷ 0x00 ∷ 0x00 ∷ [])
    ∷ (0x00 ∷ 0x0c ∷ 0x0c ∷ 0x3f ∷ 0x0c ∷ 0x0c ∷ 0x00 ∷ 0x00 ∷ [])
    ∷ (0x00 ∷ 0x00 ∷ 0x00 ∷ 0x00 ∷ 0x00 ∷ 0x0c ∷ 0x0c ∷ 0x06 ∷ [])
    ∷ (0x00 ∷ 0x00 ∷ 0x00 ∷ 0x3f ∷ 0x00 ∷ 0x00 ∷ 0x00 ∷ 0x00 ∷ [])
    ∷ (0x00 ∷ 0x00 ∷ 0x00 ∷ 0x00 ∷ 0x00 ∷ 0x0c ∷ 0x0c ∷ 0x00 ∷ [])
    ∷ (0x60 ∷ 0x30 ∷ 0x18 ∷ 0x0c ∷ 0x06 ∷ 0x03 ∷ 0x01 ∷ 0x00 ∷ [])
    ∷ (0x3e ∷ 0x63 ∷ 0x73 ∷ 0x7b ∷ 0x6f ∷ 0x67 ∷ 0x3e ∷ 0x00 ∷ [])
    ∷ (0x0c ∷ 0x0e ∷ 0x0c ∷ 0x0c ∷ 0x0c ∷ 0x0c ∷ 0x3f ∷ 0x00 ∷ [])
    ∷ (0x1e ∷ 0x33 ∷ 0x30 ∷ 0x1c ∷ 0x06 ∷ 0x33 ∷ 0x3f ∷ 0x00 ∷ [])
    ∷ (0x1e ∷ 0x33 ∷ 0x30 ∷ 0x1c ∷ 0x30 ∷ 0x33 ∷ 0x1e ∷ 0x00 ∷ [])
    ∷ (0x38 ∷ 0x3c ∷ 0x36 ∷ 0x33 ∷ 0x7f ∷ 0x30 ∷ 0x78 ∷ 0x00 ∷ [])
    ∷ (0x3f ∷ 0x03 ∷ 0x1f ∷ 0x30 ∷ 0x30 ∷ 0x33 ∷ 0x1e ∷ 0x00 ∷ [])
    ∷ (0x1c ∷ 0x06 ∷ 0x03 ∷ 0x1f ∷ 0x33 ∷ 0x33 ∷ 0x1e ∷ 0x00 ∷ [])
    ∷ (0x3f ∷ 0x33 ∷ 0x30 ∷ 0x18 ∷ 0x0c ∷ 0x0c ∷ 0x0c ∷ 0x00 ∷ [])
    ∷ (0x1e ∷ 0x33 ∷ 0x33 ∷ 0x1e ∷ 0x33 ∷ 0x33 ∷ 0x1e ∷ 0x00 ∷ [])
    ∷ (0x1e ∷ 0x33 ∷ 0x33 ∷ 0x3e ∷ 0x30 ∷ 0x18 ∷ 0x0e ∷ 0x00 ∷ [])
    ∷ (0x00 ∷ 0x0c ∷ 0x0c ∷ 0x00 ∷ 0x00 ∷ 0x0c ∷ 0x0c ∷ 0x00 ∷ [])
    ∷ (0x00 ∷ 0x0c ∷ 0x0c ∷ 0x00 ∷ 0x00 ∷ 0x0c ∷ 0x0c ∷ 0x06 ∷ [])
    ∷ (0x18 ∷ 0x0c ∷ 0x06 ∷ 0x03 ∷ 0x06 ∷ 0x0c ∷ 0x18 ∷ 0x00 ∷ [])
    ∷ (0x00 ∷ 0x00 ∷ 0x3f ∷ 0x00 ∷ 0x00 ∷ 0x3f ∷ 0x00 ∷ 0x00 ∷ [])
    ∷ (0x06 ∷ 0x0c ∷ 0x18 ∷ 0x30 ∷ 0x18 ∷ 0x0c ∷ 0x06 ∷ 0x00 ∷ [])
    ∷ (0x1e ∷ 0x33 ∷ 0x30 ∷ 0x18 ∷ 0x0c ∷ 0x00 ∷ 0x0c ∷ 0x00 ∷ [])
    ∷ (0x3e ∷ 0x63 ∷ 0x7b ∷ 0x7b ∷ 0x7b ∷ 0x03 ∷ 0x1e ∷ 0x00 ∷ [])
    ∷ (0x0c ∷ 0x1e ∷ 0x33 ∷ 0x33 ∷ 0x3f ∷ 0x33 ∷ 0x33 ∷ 0x00 ∷ [])
    ∷ (0x3f ∷ 0x66 ∷ 0x66 ∷ 0x3e ∷ 0x66 ∷ 0x66 ∷ 0x3f ∷ 0x00 ∷ [])
    ∷ (0x3c ∷ 0x66 ∷ 0x03 ∷ 0x03 ∷ 0x03 ∷ 0x66 ∷ 0x3c ∷ 0x00 ∷ [])
    ∷ (0x1f ∷ 0x36 ∷ 0x66 ∷ 0x66 ∷ 0x66 ∷ 0x36 ∷ 0x1f ∷ 0x00 ∷ [])
    ∷ (0x7f ∷ 0x46 ∷ 0x16 ∷ 0x1e ∷ 0x16 ∷ 0x46 ∷ 0x7f ∷ 0x00 ∷ [])
    ∷ (0x7f ∷ 0x46 ∷ 0x16 ∷ 0x1e ∷ 0x16 ∷ 0x06 ∷ 0x0f ∷ 0x00 ∷ [])
    ∷ (0x3c ∷ 0x66 ∷ 0x03 ∷ 0x03 ∷ 0x73 ∷ 0x66 ∷ 0x7c ∷ 0x00 ∷ [])
    ∷ (0x33 ∷ 0x33 ∷ 0x33 ∷ 0x3f ∷ 0x33 ∷ 0x33 ∷ 0x33 ∷ 0x00 ∷ [])
    ∷ (0x1e ∷ 0x0c ∷ 0x0c ∷ 0x0c ∷ 0x0c ∷ 0x0c ∷ 0x1e ∷ 0x00 ∷ [])
    ∷ (0x78 ∷ 0x30 ∷ 0x30 ∷ 0x30 ∷ 0x33 ∷ 0x33 ∷ 0x1e ∷ 0x00 ∷ [])
    ∷ (0x67 ∷ 0x66 ∷ 0x36 ∷ 0x1e ∷ 0x36 ∷ 0x66 ∷ 0x67 ∷ 0x00 ∷ [])
    ∷ (0x0f ∷ 0x06 ∷ 0x06 ∷ 0x06 ∷ 0x46 ∷ 0x66 ∷ 0x7f ∷ 0x00 ∷ [])
    ∷ (0x63 ∷ 0x77 ∷ 0x7f ∷ 0x7f ∷ 0x6b ∷ 0x63 ∷ 0x63 ∷ 0x00 ∷ [])
    ∷ (0x63 ∷ 0x67 ∷ 0x6f ∷ 0x7b ∷ 0x73 ∷ 0x63 ∷ 0x63 ∷ 0x00 ∷ [])
    ∷ (0x1c ∷ 0x36 ∷ 0x63 ∷ 0x63 ∷ 0x63 ∷ 0x36 ∷ 0x1c ∷ 0x00 ∷ [])
    ∷ (0x3f ∷ 0x66 ∷ 0x66 ∷ 0x3e ∷ 0x06 ∷ 0x06 ∷ 0x0f ∷ 0x00 ∷ [])
    ∷ (0x1e ∷ 0x33 ∷ 0x33 ∷ 0x33 ∷ 0x3b ∷ 0x1e ∷ 0x38 ∷ 0x00 ∷ [])
    ∷ (0x3f ∷ 0x66 ∷ 0x66 ∷ 0x3e ∷ 0x36 ∷ 0x66 ∷ 0x67 ∷ 0x00 ∷ [])
    ∷ (0x1e ∷ 0x33 ∷ 0x07 ∷ 0x0e ∷ 0x38 ∷ 0x33 ∷ 0x1e ∷ 0x00 ∷ [])
    ∷ (0x3f ∷ 0x2d ∷ 0x0c ∷ 0x0c ∷ 0x0c ∷ 0x0c ∷ 0x1e ∷ 0x00 ∷ [])
    ∷ (0x33 ∷ 0x33 ∷ 0x33 ∷ 0x33 ∷ 0x33 ∷ 0x33 ∷ 0x3f ∷ 0x00 ∷ [])
    ∷ (0x33 ∷ 0x33 ∷ 0x33 ∷ 0x33 ∷ 0x33 ∷ 0x1e ∷ 0x0c ∷ 0x00 ∷ [])
    ∷ (0x63 ∷ 0x63 ∷ 0x63 ∷ 0x6b ∷ 0x7f ∷ 0x77 ∷ 0x63 ∷ 0x00 ∷ [])
    ∷ (0x63 ∷ 0x63 ∷ 0x36 ∷ 0x1c ∷ 0x1c ∷ 0x36 ∷ 0x63 ∷ 0x00 ∷ [])
    ∷ (0x33 ∷ 0x33 ∷ 0x33 ∷ 0x1e ∷ 0x0c ∷ 0x0c ∷ 0x1e ∷ 0x00 ∷ [])
    ∷ (0x7f ∷ 0x63 ∷ 0x31 ∷ 0x18 ∷ 0x4c ∷ 0x66 ∷ 0x7f ∷ 0x00 ∷ [])
    ∷ (0x1e ∷ 0x06 ∷ 0x06 ∷ 0x06 ∷ 0x06 ∷ 0x06 ∷ 0x1e ∷ 0x00 ∷ [])
    ∷ (0x03 ∷ 0x06 ∷ 0x0c ∷ 0x18 ∷ 0x30 ∷ 0x60 ∷ 0x40 ∷ 0x00 ∷ [])
    ∷ (0x1e ∷ 0x18 ∷ 0x18 ∷ 0x18 ∷ 0x18 ∷ 0x18 ∷ 0x1e ∷ 0x00 ∷ [])
    ∷ (0x08 ∷ 0x1c ∷ 0x36 ∷ 0x63 ∷ 0x00 ∷ 0x00 ∷ 0x00 ∷ 0x00 ∷ [])
    ∷ (0x00 ∷ 0x00 ∷ 0x00 ∷ 0x00 ∷ 0x00 ∷ 0x00 ∷ 0x00 ∷ 0xff ∷ [])
    ∷ (0x0c ∷ 0x0c ∷ 0x18 ∷ 0x00 ∷ 0x00 ∷ 0x00 ∷ 0x00 ∷ 0x00 ∷ [])
    ∷ (0x00 ∷ 0x00 ∷ 0x1e ∷ 0x30 ∷ 0x3e ∷ 0x33 ∷ 0x6e ∷ 0x00 ∷ [])
    ∷ (0x07 ∷ 0x06 ∷ 0x06 ∷ 0x3e ∷ 0x66 ∷ 0x66 ∷ 0x3b ∷ 0x00 ∷ [])
    ∷ (0x00 ∷ 0x00 ∷ 0x1e ∷ 0x33 ∷ 0x03 ∷ 0x33 ∷ 0x1e ∷ 0x00 ∷ [])
    ∷ (0x38 ∷ 0x30 ∷ 0x30 ∷ 0x3e ∷ 0x33 ∷ 0x33 ∷ 0x6e ∷ 0x00 ∷ [])
    ∷ (0x00 ∷ 0x00 ∷ 0x1e ∷ 0x33 ∷ 0x3f ∷ 0x03 ∷ 0x1e ∷ 0x00 ∷ [])
    ∷ (0x1c ∷ 0x36 ∷ 0x06 ∷ 0x0f ∷ 0x06 ∷ 0x06 ∷ 0x0f ∷ 0x00 ∷ [])
    ∷ (0x00 ∷ 0x00 ∷ 0x6e ∷ 0x33 ∷ 0x33 ∷ 0x3e ∷ 0x30 ∷ 0x1f ∷ [])
    ∷ (0x07 ∷ 0x06 ∷ 0x36 ∷ 0x6e ∷ 0x66 ∷ 0x66 ∷ 0x67 ∷ 0x00 ∷ [])
    ∷ (0x0c ∷ 0x00 ∷ 0x0e ∷ 0x0c ∷ 0x0c ∷ 0x0c ∷ 0x1e ∷ 0x00 ∷ [])
    ∷ (0x30 ∷ 0x00 ∷ 0x30 ∷ 0x30 ∷ 0x30 ∷ 0x33 ∷ 0x33 ∷ 0x1e ∷ [])
    ∷ (0x07 ∷ 0x06 ∷ 0x66 ∷ 0x36 ∷ 0x1e ∷ 0x36 ∷ 0x67 ∷ 0x00 ∷ [])
    ∷ (0x0e ∷ 0x0c ∷ 0x0c ∷ 0x0c ∷ 0x0c ∷ 0x0c ∷ 0x1e ∷ 0x00 ∷ [])
    ∷ (0x00 ∷ 0x00 ∷ 0x33 ∷ 0x7f ∷ 0x7f ∷ 0x6b ∷ 0x63 ∷ 0x00 ∷ [])
    ∷ (0x00 ∷ 0x00 ∷ 0x1f ∷ 0x33 ∷ 0x33 ∷ 0x33 ∷ 0x33 ∷ 0x00 ∷ [])
    ∷ (0x00 ∷ 0x00 ∷ 0x1e ∷ 0x33 ∷ 0x33 ∷ 0x33 ∷ 0x1e ∷ 0x00 ∷ [])
    ∷ (0x00 ∷ 0x00 ∷ 0x3b ∷ 0x66 ∷ 0x66 ∷ 0x3e ∷ 0x06 ∷ 0x0f ∷ [])
    ∷ (0x00 ∷ 0x00 ∷ 0x6e ∷ 0x33 ∷ 0x33 ∷ 0x3e ∷ 0x30 ∷ 0x78 ∷ [])
    ∷ (0x00 ∷ 0x00 ∷ 0x3b ∷ 0x6e ∷ 0x66 ∷ 0x06 ∷ 0x0f ∷ 0x00 ∷ [])
    ∷ (0x00 ∷ 0x00 ∷ 0x3e ∷ 0x03 ∷ 0x1e ∷ 0x30 ∷ 0x1f ∷ 0x00 ∷ [])
    ∷ (0x08 ∷ 0x0c ∷ 0x3e ∷ 0x0c ∷ 0x0c ∷ 0x2c ∷ 0x18 ∷ 0x00 ∷ [])
    ∷ (0x00 ∷ 0x00 ∷ 0x33 ∷ 0x33 ∷ 0x33 ∷ 0x33 ∷ 0x6e ∷ 0x00 ∷ [])
    ∷ (0x00 ∷ 0x00 ∷ 0x33 ∷ 0x33 ∷ 0x33 ∷ 0x1e ∷ 0x0c ∷ 0x00 ∷ [])
    ∷ (0x00 ∷ 0x00 ∷ 0x63 ∷ 0x6b ∷ 0x7f ∷ 0x7f ∷ 0x36 ∷ 0x00 ∷ [])
    ∷ (0x00 ∷ 0x00 ∷ 0x63 ∷ 0x36 ∷ 0x1c ∷ 0x36 ∷ 0x63 ∷ 0x00 ∷ [])
    ∷ (0x00 ∷ 0x00 ∷ 0x33 ∷ 0x33 ∷ 0x33 ∷ 0x3e ∷ 0x30 ∷ 0x1f ∷ [])
    ∷ (0x00 ∷ 0x00 ∷ 0x3f ∷ 0x19 ∷ 0x0c ∷ 0x26 ∷ 0x3f ∷ 0x00 ∷ [])
    ∷ (0x38 ∷ 0x0c ∷ 0x0c ∷ 0x07 ∷ 0x0c ∷ 0x0c ∷ 0x38 ∷ 0x00 ∷ [])
    ∷ (0x18 ∷ 0x18 ∷ 0x18 ∷ 0x00 ∷ 0x18 ∷ 0x18 ∷ 0x18 ∷ 0x00 ∷ [])
    ∷ (0x07 ∷ 0x0c ∷ 0x0c ∷ 0x38 ∷ 0x0c ∷ 0x0c ∷ 0x07 ∷ 0x00 ∷ [])
    ∷ (0x6e ∷ 0x3b ∷ 0x00 ∷ 0x00 ∷ 0x00 ∷ 0x00 ∷ 0x00 ∷ 0x00 ∷ [])
    ∷ (0x00 ∷ 0x00 ∷ 0x00 ∷ 0x00 ∷ 0x00 ∷ 0x00 ∷ 0x00 ∷ 0x00 ∷ [])
    ∷ []

-- `font_8x8[c][row]`
unfoldable pub glyph_row : ℕ → ℕ → ℕ
glyph_row c row = get_or (get_or font_8x8 c []) row 0

unfoldable pub reverse_bits : ℕ → ℕ
reverse_bits b =
    let b₁ = u8 (bit_or (bit_and b 0xf0 >>> 4) (bit_and b 0x0f <<< 4)) in
    let b₂ = u8 (bit_or (bit_and b₁ 0xcc >>> 2) (bit_and b₁ 0x33 <<< 2)) in
    u8 (bit_or (bit_and b₂ 0xaa >>> 1) (bit_and b₂ 0x55 <<< 1))
