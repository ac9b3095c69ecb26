-- ===== src/Vesa/Setup.antt =====
-- `detect_screen_size`, `init_vesa` and `init_vesa_with_mbi` of kernel/vesa.c. `size_t` has 32 bits.
pub mod Keeping
pub mod Dimensions
pub mod Memory
pub mod Blank
pub mod Mode
pub mod Texts
use hueos.Base.{
  ℕ, zero, suc, ◌+◌, ◌*◌, ◌/◌, ◌^◌, ◌∷◌, [], ◌++◌, Bool, true, false, ◌&&◌, ◌||◌, if◌then◌else◌,
  ltb, leb, ◌==◌, bit_and, bit_or, u16, u32, u8, ◌<<<◌, is_set, Option, none, some, Bytes,
}
use hueos.Io.{Trace, Device, serial_text, to_serial}
use hueos.Multiboot.{MultibootInfo}
use hueos.Numbers.{append_number, hex_word}
use hueos.Terminal.{terminal_set_dimensions}
use hueos.Vesa.{Video, say, get_register, load_8x8_font, set_80x50_mode}
use hueos.Vesa.Modes.{parse_resolution}

-- `serial_write` of a buffer, up to its NUL.
abbrev pub say_bytes : Bytes → Video → Video
say_bytes text s = record s { trace = serial_text text ∷ s.trace }

-- The validation of both functions.
abbrev pub reasonable : ℕ → ℕ → Bool
reasonable width height = leb 40 width && leb width 200 && leb 20 height && leb height 100

-- `WIDTHxHEIGHT` and a newline.
unfoldable pub dimensions_text : ℕ → ℕ → Bytes
unfolding append_number
dimensions_text width height =
    append_number height (append_number width [] ++ b'x' ∷ []) ++ b'\n' ∷ []

-- A number and a newline, at the start of `flags_buf`.
unfoldable pub number_line : ℕ → Bytes
unfolding append_number
number_line val = append_number val [] ++ b'\n' ∷ []

abbrev pub resize : ℕ → ℕ → Video → Video
resize width height s = record s { term = terminal_set_dimensions width height s.term }

-- The size in pixels over that of a character; each of the listed heights but 400 is divided by 16, like the rest.
unfoldable pub text_height : ℕ → ℕ
text_height height =
    if height == 400
    then height / 8
    else if height == 480
    then height / 16
    else if height == 600
    then height / 16
    else if height == 688
    then height / 16
    else if height == 800
    then height / 16
    else height / 16

module _ (dev : Device) where
  -- The width and the height that the CRTC registers give.
  unfoldable pub read_screen_size : Trace → ℕ × ℕ × Trace
  read_screen_size t =
      let (vde_low, t) = get_register dev 0x3D4 0x12 t in
      let (overflow, t) = get_register dev 0x3D4 0x07 t in
      let vertical_display_end =
        u16 (bit_or (bit_or vde_low (bit_and overflow 0x02 <<< 7)) (bit_and overflow 0x40 <<< 3)) in
      let (hde, t) = get_register dev 0x3D4 0x01 t in
      let (scan, t) = get_register dev 0x3D4 0x09 t in
      let char_height = u8 (bit_and scan 0x1F) + 1 in
      (hde + 1, (vertical_display_end + 1) / char_height, t)

  unfoldable pub detect_screen_size : Video → Video
  unfolding read_screen_size terminal_set_dimensions dimensions_text
  detect_screen_size s =
      let (width, height, t) = read_screen_size s.trace in
      let s = record s { trace = t } in
      if reasonable width height
      then say_bytes (dimensions_text width height)
          (say "VESA: Detected screen dimensions: " (resize width height s))
      else resize 80 25 (say "VESA: Could not detect valid screen dimensions, using 80x25\n" s)

  unfoldable pub init_vesa : Option Bytes → Video → Video
  unfolding parse_resolution detect_screen_size
  init_vesa cmdline s =
      let (found, s') =
        parse_resolution dev cmdline (say "VESA: Initializing video mode support\n" s) in
      let detected = detect_screen_size s' in if found then s' else detected

  -- The size in characters for the two accepted types of frame buffer; type 2 counts characters already.
  unfoldable pub multiboot_size : MultibootInfo → ℕ × ℕ
  unfolding text_height
  multiboot_size mbi =
      if mbi.framebuffer_type == 1
      then (mbi.framebuffer_width / 8, text_height mbi.framebuffer_height)
      else (mbi.framebuffer_width, mbi.framebuffer_height)

  -- The debug lines on the frame buffer.
  unfoldable pub say_framebuffer : MultibootInfo → Video → Video
  unfolding number_line
  say_framebuffer mbi s =
      let s =
        say "VESA: Framebuffer type = " (say "VESA: Multiboot framebuffer info available\n" s) in
      let s = say_bytes (u8 (b'0' + mbi.framebuffer_type) ∷ b'\n' ∷ []) s in
      let s =
        say_bytes (number_line mbi.framebuffer_width)
          (say "VESA: Framebuffer width (pixels) = " s) in
      say_bytes (number_line mbi.framebuffer_height) (say "VESA: Framebuffer height (pixels) = " s)

  -- From the calculation of the size on. The last argument is where the function goes on if the size is refused.
  unfoldable pub use_multiboot_size : MultibootInfo → (Video → Video) → Video → Video
  unfolding multiboot_size terminal_set_dimensions load_8x8_font dimensions_text
  use_multiboot_size mbi fall_back s =
      let t =
        if mbi.framebuffer_type == 1
        then to_serial "VESA: Calculating text dimensions from graphics mode\n" s.trace
        else s.trace in
      let s = record s { trace = t } in
      let (width, height) = multiboot_size mbi in
      let resized = resize width height s in
      let loaded = if (width == 80) && (height == 50) then load_8x8_font dev resized else resized in
      if reasonable width height
      then say_bytes (dimensions_text width height)
          (say "VESA: Set dimensions from multiboot: " loaded)
      else fall_back s

  -- What is done with a frame buffer that the boot loader reports.
  unfoldable pub use_framebuffer : MultibootInfo → (Video → Video) → Video → Video
  unfolding say_framebuffer
  use_framebuffer mbi fall_back s =
      let s = say_framebuffer mbi s in
      if mbi.framebuffer_type == 2
      then use_multiboot_size mbi fall_back (say "VESA: Text mode detected from multiboot\n" s)
      else if mbi.framebuffer_type == 1
      then (let s = say "VESA: Graphics mode detected from multiboot\n" s in
          if (mbi.framebuffer_width == 640) && (mbi.framebuffer_height == 400)
          then set_80x50_mode dev
              (say "VESA: Detected 640x400 - switching to VGA 80x50 text mode\n" s)
          else use_multiboot_size mbi fall_back
              (say "VESA: Graphics framebuffer will be used for text rendering\n" s))
      else fall_back s

  -- `mbi && (mbi->flags & (1 << 12))`
  unfoldable pub multiboot_or : Option MultibootInfo → (Video → Video) → Video → Video
  multiboot_or none fall_back s = fall_back s
  multiboot_or (some mbi) fall_back s =
      if is_set (bit_and mbi.flags (2 ^ 12)) then use_framebuffer mbi fall_back s else fall_back s

  abbrev pub flags_of : Option MultibootInfo → ℕ
  flags_of none = 0
  flags_of (some mbi) = mbi.flags

  -- NULL for the command line or for the information is `none`.
  unfoldable pub init_vesa_with_mbi : Option Bytes → Option MultibootInfo → Video → Video
  unfolding parse_resolution init_vesa multiboot_or hex_word
  init_vesa_with_mbi cmdline mbi s =
      let s = say "VESA: Multiboot flags = 0x" (say "VESA: Initializing video mode support\n" s) in
      let s = say_bytes (hex_word (flags_of mbi) ++ b'\n' ∷ []) s in
      let (found, s') = parse_resolution dev cmdline s in
      let other = multiboot_or mbi (init_vesa cmdline) s' in
      if found then say "VESA: Resolution set from command line\n" s' else other
