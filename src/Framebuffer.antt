-- ===== src/Framebuffer.antt =====
-- kernel/framebuffer.c: text drawn pixel by pixel into a linear frame buffer in memory.
pub mod Pixels
pub mod Glyphs
pub mod Scrolling
pub mod Picture
pub mod Cursor
pub mod Bounds
pub mod Page
use hueos.Base.{
  ℕ, zero, suc, ◌+◌, ◌-◌, ◌*◌, ◌/◌, ◌%◌, ◌≡◌, Bool, true, false, ◌||◌, ◌&&◌, not, [], ◌∷◌, ◌++◌,
  List, Option, none, some, Bytes, bit_and, u8, u16, u32, sub32, ◌<<<◌, ◌>>>◌, ltb, leb, ◌==◌,
  is_set, if◌then◌else◌, get_or, for_up, for_cells, Ram, load, store, codes,
}
use hueos.Io.{Trace, serial_text, to_serial}
use hueos.Multiboot.{MultibootInfo}
use hueos.Numbers.{append_number, hex_word}
use hueos.Font.{glyph_row, reverse_bits}

-- The static variables, with `fb_` for the frame buffer; and the memory that the pixels stand in.
-- The address 0 is the null pointer.
pub record Framebuffer : Type 0 where
  pub fb_address : ℕ
  pub fb_width : ℕ
  pub fb_height : ℕ
  pub fb_pitch : ℕ
  pub fb_bpp : ℕ
  pub fb_type : ℕ
  pub text_cols : ℕ
  pub text_rows : ℕ
  pub cursor_x : ℕ
  pub cursor_y : ℕ
  pub text_color : ℕ
  pub ram : Ram

abbrev pub font_width : ℕ
font_width = 8

abbrev pub font_height : ℕ
font_height = 8

-- The variables as the program starts.
abbrev pub boot_framebuffer : Ram → Framebuffer
boot_framebuffer ram = record {
  fb_address = 0;
  fb_width = 0;
  fb_height = 0;
  fb_pitch = 0;
  fb_bpp = 0;
  fb_type = 0;
  text_cols = 80;
  text_rows = 25;
  cursor_x = 0;
  cursor_y = 0;
  text_color = 0x07;
  ram = ram;
}

unfoldable pub framebuffer_is_active : Framebuffer → Bool
framebuffer_is_active fb = not (fb.fb_address == 0) && fb.fb_type == 1

-- The two values that go through the pointers.
unfoldable pub framebuffer_get_dimensions : Framebuffer → ℕ × ℕ
framebuffer_get_dimensions fb = (fb.text_cols, fb.text_rows)

-- `fb_address + y * fb_pitch + x * bytes`: a pointer of 32 bits.
abbrev pub pixel_address : Framebuffer → ℕ → ℕ → ℕ → ℕ
pixel_address fb bytes x y = u32 (fb.fb_address + u32 (y * fb.fb_pitch) + u32 (x * bytes))

unfoldable pub framebuffer_put_pixel : ℕ → ℕ → ℕ → Framebuffer → Framebuffer
framebuffer_put_pixel x y color fb =
    if fb.fb_address == 0 || leb fb.fb_width x || leb fb.fb_height y
    then fb
    else if fb.fb_bpp == 16
    then record fb { ram = store 2 fb.ram (pixel_address fb 2 x y) (u16 color) }
    else if fb.fb_bpp == 32
    then record fb { ram = store 4 fb.ram (pixel_address fb 4 x y) color }
    else fb

-- The static table of `vga_to_rgb`.
abbrev pub palette : List ℕ
palette =
    0x0000 ∷ 0x0015 ∷ 0x0540 ∷ 0x0555 ∷ 0xa800 ∷ 0xa815 ∷ 0xaa80 ∷ 0xad55 ∷ 0x5555 ∷ 0x557f ∷ 0x57e0
    ∷ 0x57ff ∷ 0xfd00 ∷ 0xfd1f ∷ 0xffe0 ∷ 0xffff ∷ []

unfoldable pub vga_to_rgb : ℕ → ℕ
vga_to_rgb vga_color = get_or palette (bit_and vga_color 0x0f) 0

-- The body of the inner loop of `framebuffer_draw_char`.
unfoldable pub draw_dot : ℕ → ℕ → ℕ → ℕ → ℕ → ℕ → ℕ → Framebuffer → Framebuffer
draw_dot char_index fg_color bg_color px py y x fb =
    let font_row = reverse_bits (glyph_row char_index y) in
    let pixel_color = if is_set (bit_and font_row (1 <<< (7 - x))) then fg_color else bg_color in
    framebuffer_put_pixel (u32 (px + x)) (u32 (py + y)) pixel_color fb

unfoldable pub framebuffer_draw_char : ℕ → ℕ → ℕ → ℕ → Framebuffer → Framebuffer
framebuffer_draw_char c col row color fb =
    let char_index = if ltb 127 (u8 c) then 0 else u8 c in
    let fg_color = vga_to_rgb (bit_and color 0x0f) in
    let bg_color = vga_to_rgb (bit_and (color >>> 4) 0x0f) in
    let px = u32 (col * font_width) in
    let py = u32 (row * font_height) in
    if fb.fb_address == 0 || leb fb.text_cols col || leb fb.text_rows row
    then fb
    else for_cells font_height font_width (draw_dot char_index fg_color bg_color px py) fb

abbrev pub background : Framebuffer → ℕ
background fb = vga_to_rgb (bit_and (fb.text_color >>> 4) 0x0f)

-- The body of the copying loop of `framebuffer_scroll`: to line `y` from the line eight below.
unfoldable pub copy_pixel : ℕ → ℕ → Framebuffer → Framebuffer
copy_pixel y x fb =
    if fb.fb_bpp == 16
    then record fb {
      ram =
          store 2 fb.ram (pixel_address fb 2 x y)
            (load 2 fb.ram (pixel_address fb 2 x (y + font_height)));
    }
    else if fb.fb_bpp == 32
    then record fb {
      ram =
          store 4 fb.ram (pixel_address fb 4 x y)
            (load 4 fb.ram (pixel_address fb 4 x (y + font_height)));
    }
    else fb

-- The source counts the line that it reads, from FONT_HEIGHT on; here it is the one written.
unfoldable pub framebuffer_scroll : Framebuffer → Framebuffer
framebuffer_scroll fb =
    let bg_color = background fb in
    let moved = for_cells (fb.fb_height - font_height) fb.fb_width copy_pixel fb in
    let last = sub32 fb.fb_height font_height in
    if fb.fb_address == 0
    then fb
    else for_cells (fb.fb_height - last) fb.fb_width
        (λ y x. framebuffer_put_pixel x (last + y) bg_color) moved

unfoldable pub framebuffer_clear : Framebuffer → Framebuffer
framebuffer_clear fb =
    let cleared =
      for_cells fb.fb_height fb.fb_width (λ y x. framebuffer_put_pixel x y (background fb)) fb in
    if fb.fb_address == 0 then fb else record cleared { cursor_x = 0; cursor_y = 0 }

-- What `framebuffer_putchar` does by the character, before it wraps and scrolls.
unfoldable pub advance : ℕ → Framebuffer → Framebuffer
advance c fb =
    if c == b'\n'
    then record fb { cursor_x = 0; cursor_y = u32 (fb.cursor_y + 1) }
    else if c == 13
    then record fb { cursor_x = 0 }
    else if c == 9
    then record fb { cursor_x = bit_and (u32 (fb.cursor_x + 8)) 0xfffffff8 }
    else if c == 8
    then (if ltb 0 fb.cursor_x then record fb { cursor_x = fb.cursor_x - 1 } else fb)
    else let drawn = framebuffer_draw_char c fb.cursor_x fb.cursor_y fb.text_color fb in
      record drawn { cursor_x = u32 (drawn.cursor_x + 1) }

unfoldable pub wrap_line : Framebuffer → Framebuffer
wrap_line fb =
    if leb fb.text_cols fb.cursor_x
    then record fb { cursor_x = 0; cursor_y = u32 (fb.cursor_y + 1) }
    else fb

unfoldable pub wrap_screen : Framebuffer → Framebuffer
wrap_screen fb =
    if leb fb.text_rows fb.cursor_y
    then record (framebuffer_scroll fb) { cursor_y = sub32 fb.text_rows 1 }
    else fb

unfoldable pub framebuffer_putchar : ℕ → Framebuffer → Framebuffer
framebuffer_putchar c fb = if fb.fb_address == 0 then fb else wrap_screen (wrap_line (advance c fb))

put_all : Bytes → Framebuffer → Framebuffer
put_all [] fb = fb
put_all (c ∷ s) fb = put_all s (framebuffer_putchar c fb)

-- The bytes before the terminating NUL; the null pointer is `none`.
unfoldable pub framebuffer_writestring : Option Bytes → Framebuffer → Framebuffer
unfolding put_all
framebuffer_writestring none fb = fb
framebuffer_writestring (some s) fb = if fb.fb_address == 0 then fb else put_all s fb

unfoldable pub framebuffer_set_color : ℕ → Framebuffer → Framebuffer
framebuffer_set_color color fb = record fb { text_color = color }

-- What `framebuffer_init` does once the mode is known to be a graphics mode.
unfoldable pub set_up : MultibootInfo → Framebuffer × Trace → Framebuffer × Trace
set_up mbi (fb, t) =
    let address = u32 mbi.framebuffer_addr in
    let cols = u32 mbi.framebuffer_width / font_width in
    let rows = u32 mbi.framebuffer_height / font_height in
    let fb' : Framebuffer = record fb {
      fb_address = address;
      fb_width = u32 mbi.framebuffer_width;
      fb_height = u32 mbi.framebuffer_height;
      fb_pitch = u32 mbi.framebuffer_pitch;
      fb_bpp = u8 mbi.framebuffer_bpp;
      text_cols = cols;
      text_rows = rows;
    } in
    let size = append_number rows (append_number cols [] ++ b'x' ∷ []) ++ b'\n' ∷ [] in
    (
      framebuffer_clear fb',
      serial_text size
          ∷ to_serial "Framebuffer: Text mode " (
              serial_text (hex_word address ++ b'\n' ∷ [])
              ∷ to_serial "Framebuffer: Address = 0x"
                  (to_serial "Framebuffer: Graphics mode initialized\n" t)),
    )

-- The null pointer is `none`.
unfoldable pub framebuffer_init : Option MultibootInfo → Framebuffer × Trace → Framebuffer × Trace
framebuffer_init none (fb, t) = (fb, to_serial "Framebuffer: No multiboot framebuffer info\n" t)
framebuffer_init (some mbi) (fb, t) =
    if is_set (bit_and mbi.flags (1 <<< 12))
    then (if mbi.framebuffer_type == 1
        then set_up mbi (record fb { fb_type = mbi.framebuffer_type }, t)
        else (
          record fb { fb_type = mbi.framebuffer_type; fb_address = 0 },
          to_serial "Framebuffer: Text mode detected, using VGA driver\n" t,
        ))
    else (fb, to_serial "Framebuffer: No multiboot framebuffer info\n" t)
