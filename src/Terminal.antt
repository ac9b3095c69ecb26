-- ===== src/Terminal.antt =====
-- kernel/terminal.c: the VGA text mode terminal, which passes characters on to the frame buffer when
-- that is active.
pub mod Scrolling
pub mod Paper
pub mod Bounds
pub mod Writing
use hueos.Base.{
  ℕ, zero, suc, ◌+◌, ◌*◌, Bool, [], ◌∷◌, Bytes, bit_or, u8, u16, u32, sub32, ◌<<<◌, ltb, leb, ◌==◌,
  if◌then◌else◌, for_cells, for_up, Ram, update,
}
use hueos.Framebuffer.{
  Framebuffer, framebuffer_is_active, framebuffer_set_color, framebuffer_clear, framebuffer_putchar,
}

-- The static variables and the text memory at 0xB8000, a cell of 16 bits for each index.
pub record Terminal : Type 0 where
  pub vga_memory : ℕ → ℕ
  pub vga_width : ℕ
  pub vga_height : ℕ
  pub terminal_row : ℕ
  pub terminal_column : ℕ
  pub terminal_color : ℕ

-- The terminal and the frame buffer that it defers to.
pub record Console : Type 0 where
  pub fb : Framebuffer
  pub term : Terminal

-- The variables as the program starts.
abbrev pub boot_terminal : (ℕ → ℕ) → Terminal
boot_terminal mem = record {
  vga_memory = mem;
  vga_width = 80;
  vga_height = 25;
  terminal_row = 0;
  terminal_column = 0;
  terminal_color = 0;
}

pub data VgaColor : Type 0 where
  black blue green cyan red magenta brown light_grey dark_grey light_blue light_green light_cyan :
      VgaColor
  light_red light_magenta light_brown white : VgaColor

abbrev pub color_code : VgaColor → ℕ
color_code black = 0
color_code blue = 1
color_code green = 2
color_code cyan = 3
color_code red = 4
color_code magenta = 5
color_code brown = 6
color_code light_grey = 7
color_code dark_grey = 8
color_code light_blue = 9
color_code light_green = 10
color_code light_cyan = 11
color_code light_red = 12
color_code light_magenta = 13
color_code light_brown = 14
color_code white = 15

unfoldable pub vga_entry_color : VgaColor → VgaColor → ℕ
vga_entry_color fg bg = u8 (bit_or (color_code fg) (color_code bg <<< 4))

unfoldable pub vga_entry : ℕ → ℕ → ℕ
vga_entry uc color = u16 (bit_or (u8 uc) (color <<< 8))

-- `VGA_MEMORY[index] = entry`
abbrev pub put_cell : ℕ → ℕ → Terminal → Terminal
put_cell index entry t = record t { vga_memory = update t.vga_memory index entry }

-- `y * VGA_WIDTH + x`, in 32 bits.
abbrev pub cell_index : Terminal → ℕ → ℕ → ℕ
cell_index t x y = u32 (y * t.vga_width + x)

unfoldable pub terminal_setcolor : ℕ → Terminal → Terminal
terminal_setcolor color t = record t { terminal_color = color }

unfoldable pub terminal_putentryat : ℕ → ℕ → ℕ → ℕ → Terminal → Terminal
terminal_putentryat c color x y t = put_cell (cell_index t x y) (vga_entry c color) t

-- The bodies of the loops of `terminal_scroll`.
unfoldable pub copy_cell : ℕ → ℕ → Terminal → Terminal
copy_cell y x t = put_cell (cell_index t x y) (t.vga_memory (cell_index t x (y + 1))) t

unfoldable pub blank_cell : ℕ → ℕ → Terminal → Terminal
blank_cell y x t = put_cell (cell_index t x y) (vga_entry b' ' t.terminal_color) t

unfoldable pub terminal_scroll : Terminal → Terminal
terminal_scroll t =
    let moved = for_cells (sub32 t.vga_height 1) t.vga_width copy_cell t in
    for_up t.vga_width 0 (blank_cell (sub32 t.vga_height 1)) moved

-- The end of a line, by a newline or by the last column.
unfoldable pub next_row : Terminal → Terminal
next_row t =
    let t' : Terminal = record t { terminal_column = 0; terminal_row = u32 (t.terminal_row + 1) } in
    if t'.terminal_row == t'.vga_height
    then terminal_scroll (record t' { terminal_row = sub32 t'.vga_height 1 })
    else t'

-- The part of `terminal_putchar` for text mode.
unfoldable pub putchar_vga : ℕ → Terminal → Terminal
putchar_vga c t =
    let put = terminal_putentryat c t.terminal_color t.terminal_column t.terminal_row t in
    let moved : Terminal = record put { terminal_column = u32 (put.terminal_column + 1) } in
    if c == b'\n'
    then next_row t
    else if moved.terminal_column == moved.vga_width
    then next_row moved
    else moved

unfoldable pub terminal_putchar : ℕ → Console → Console
terminal_putchar c s =
    if framebuffer_is_active s.fb
    then record s { fb = framebuffer_putchar c s.fb }
    else record s { term = putchar_vga c s.term }

-- `terminal_write`: the list is `data[0 … size)`.
unfoldable pub terminal_write : Bytes → Console → Console
terminal_write [] s = s
terminal_write (c ∷ cs) s = terminal_write cs (terminal_putchar c s)

-- The bytes of memory before the first NUL.
unfoldable pub before_nul : Bytes → Bytes
before_nul [] = []
before_nul (c ∷ cs) = let rest = before_nul cs in if c == 0 then [] else c ∷ rest

unfoldable pub terminal_writestring : Bytes → Console → Console
unfolding before_nul
terminal_writestring text s = terminal_write (before_nul text) s

-- The text mode part of `terminal_initialize`.
unfoldable pub clear_vga : Terminal → Terminal
clear_vga t = for_cells t.vga_height t.vga_width blank_cell t

unfoldable pub terminal_initialize : Console → Console
terminal_initialize s =
    let color = vga_entry_color light_grey black in
    let t : Terminal = record s.term {
      terminal_row = 0;
      terminal_column = 0;
      terminal_color = color;
    } in
    if framebuffer_is_active s.fb
    then record s { fb = framebuffer_clear (framebuffer_set_color color s.fb); term = t }
    else record s { term = clear_vga t }

unfoldable pub terminal_set_dimensions : ℕ → ℕ → Terminal → Terminal
terminal_set_dimensions width height t =
    let last = sub32 height 1 in
    let row = if leb height t.terminal_row then last else t.terminal_row in
    let sized : Terminal = record t {
      vga_width = width;
      vga_height = height;
      terminal_row = row;
    } in
    if leb width t.terminal_column
    then record sized {
      terminal_column = 0;
      terminal_row = if ltb row last then u32 (row + 1) else row;
    }
    else sized

-- The two values that go through the pointers.
unfoldable pub terminal_get_dimensions : Terminal → ℕ × ℕ
terminal_get_dimensions t = (t.vga_width, t.vga_height)
