-- ===== src/Vesa.antt =====
-- kernel/vesa.c: the 8x8 font, the text modes and the command line. The state is the terminal, whose dimensions are
-- set here, the memory that holds the font plane, and the port accesses.
pub mod Plane
pub mod Registers
pub mod Modes
pub mod Setup
use hueos.Base.{
  ℕ, zero, suc, ◌+◌, ◌*◌, ◌∷◌, [], List, Bool, true, false, ◌&&◌, ◌||◌, if◌then◌else◌, ltb, leb,
  ◌==◌, bit_and, bit_or, u8, get_or, for_cells, for_up, Option, none, some, Ram, update, Bytes,
  codes,
}
use Prim.Native.String.{String}
use hueos.Io.{Trace, Device, outb, inb, to_serial, to_terminal, serial_text, terminal_text}
use hueos.Font.{glyph_row, reverse_bits}
use hueos.Terminal.{Terminal, terminal_set_dimensions}

pub record Video : Type 0 where
  pub term : Terminal
  pub ram : Ram
  pub trace : Trace

-- `serial_write` of a literal.
abbrev pub say : String → Video → Video
say text s = record s { trace = to_serial text s.trace }

-- `outb(index, register); outb(data, value);`
abbrev pub set_register : ℕ → ℕ → ℕ → Trace → Trace
set_register index register value t = outb (index + 1) value (outb index register t)

-- `vga_write_regs`
unfoldable pub vga_write_regs : Bytes → ℕ → ℕ → ℕ → Trace → Trace
unfolding for_up
vga_write_regs regs count port_index port_data t =
    for_up count 0 (λ i t. outb port_data (get_or regs i 0) (outb port_index i t)) t

-- One byte of the font at 0xA0000: 32 bytes to a character, of which 8 are used.
unfoldable pub put_row : (ℕ → ℕ) → ℕ → ℕ → ℕ → Ram → Ram
unfolding reverse_bits glyph_row
put_row glyph first ch row ram =
    update ram (0xA0000 + (first + ch) * 32 + row) (u8 (reverse_bits (glyph_row (glyph ch) row)))

-- The two copying loops: 128 characters, then the blank for 128 to 255.
unfoldable pub copy_font : Ram → Ram
copy_font ram = for_cells 128 8 (put_row (λ _. 0) 128) (for_cells 128 8 (put_row (λ ch. ch) 0) ram)

module _ (dev : Device) where
  -- `outb(index, register)` and the read of its value.
  abbrev pub get_register : ℕ → ℕ → Trace → ℕ × Trace
  get_register index register t = inb dev (index + 1) (outb index register t)

  unfoldable pub load_8x8_font : Video → Video
  unfolding copy_font
  load_8x8_font s =
      let t = to_serial "VESA: Loading 8x8 font\n" s.trace in
      let (old_map_mask, t) = get_register 0x3C4 0x02 t in
      let (old_gc_mode, t) = get_register 0x3CE 0x05 t in
      let (old_gc_misc, t) = get_register 0x3CE 0x06 t in
      let t = set_register 0x3C4 0x04 0x07 (set_register 0x3C4 0x02 0x04 t) in
      let t = set_register 0x3CE 0x06 0x00 (set_register 0x3CE 0x05 0x00 t) in
      let t = set_register 0x3C4 0x02 old_map_mask t in
      let t = set_register 0x3CE 0x06 old_gc_misc (set_register 0x3CE 0x05 old_gc_mode t) in
      let t = to_serial "VESA: 8x8 font loaded\n" (set_register 0x3C4 0x04 0x03 t) in
      record s { ram = copy_font s.ram; trace = t }

  unfoldable pub set_132_column_mode : ℕ → Video → Video
  unfolding terminal_set_dimensions
  set_132_column_mode height s =
      let s = say "VESA: Attempting to set 132-column mode...\n" s in
      let s = say "VESA: Warning - 132-column requires SVGA hardware\n" s in
      let s = say "VESA: Using software dimensions only\n" s in
      record s { term = terminal_set_dimensions 132 height s.term }

  -- The rest of `set_80x50_mode`, after the font.
  unfoldable pub set_80x50_registers : Trace → Trace
  set_80x50_registers t =
      let (maxscan, t) = get_register 0x3D4 0x09 t in
      let t = outb 0x3D5 (bit_or (bit_and maxscan 0xE0) 0x07) t in
      let t = set_register 0x3D4 0x0B 0x07 (set_register 0x3D4 0x0A 0x06 t) in
      let t = set_register 0x3D4 0x06 0xBF t in
      let (overflow, t) = get_register 0x3D4 0x07 t in
      let t = outb 0x3D5 (bit_or (bit_or (bit_or (bit_and overflow 0x10) 0x01) 0x02) 0x20) t in
      let t = set_register 0x3D4 0x15 0x8F (set_register 0x3D4 0x12 0x8F t) in
      let t = set_register 0x3D4 0x10 0x9C (set_register 0x3D4 0x16 0xB9 t) in
      let t = set_register 0x3D4 0x18 0xFF (set_register 0x3D4 0x11 0x8E t) in
      to_serial "VESA: 80x50 mode set (400-line, 8-pixel font)\n" t

  unfoldable pub set_80x50_mode : Video → Video
  unfolding load_8x8_font set_80x50_registers
  set_80x50_mode s =
      let t = to_serial "VESA: Switching to 80x50 text mode\n" s.trace in
      let (crtc11, t) = get_register 0x3D4 0x11 t in
      let t = outb 0x3D5 (bit_and crtc11 0x7F) t in
      let (misc, t) = inb dev 0x3CC t in
      let s = load_8x8_font (record s { trace = outb 0x3C2 (bit_or misc 0x01) t }) in
      record s { trace = set_80x50_registers s.trace }

pub record TextMode : Type 0 where
  pub name : Bytes
  pub width : ℕ
  pub height : ℕ
  pub vesa_mode : ℕ

abbrev mode : String → ℕ → ℕ → ℕ → TextMode
mode name width height vesa_mode = record {
  name = codes name;
  width = width;
  height = height;
  vesa_mode = vesa_mode;
}

-- Without the last entry, whose name is NULL.
abbrev pub text_modes : List TextMode
text_modes =
    mode "80x25" 80 25 0x03
    ∷ mode "80x50" 80 50 0x01
    ∷ mode "100x37" 100 37 0x6A
    ∷ mode "132x25" 132 25 0x109
    ∷ mode "132x43" 132 43 0x10A
    ∷ mode "132x50" 132 50 0x10B
    ∷ []

unfoldable pub print_modes : List TextMode → Trace → Trace
print_modes [] t = t
print_modes (m ∷ ms) t =
    let t = to_terminal "\n" (terminal_text m.name ∷ to_terminal "  - " t) in
    print_modes ms (to_serial "\n" (serial_text m.name ∷ to_serial "  - " t))

unfoldable pub print_available_modes : Trace → Trace
unfolding print_modes
print_available_modes t =
    let t = to_serial "Available text modes:\n" (to_terminal "Available text modes:\n" t) in
    let t = print_modes text_modes t in
    let t =
      to_terminal "\nTo use a specific mode, add to GRUB command line: res=WIDTHxHEIGHT\n" t in
    let t = to_terminal "Example: res=132x43\n\n" t in
    to_serial "\nTo use a specific mode, add to GRUB command line: res=WIDTHxHEIGHT\n" t
