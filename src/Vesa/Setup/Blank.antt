-- ===== src/Vesa/Setup/Blank.antt =====
-- The set-up of kernel/vesa.c does not touch the cells of the terminal, nor a cursor at the top left.
use hueos.Base.{ℕ, ◌≡◌, arith, leb, false, Option, Bytes}
use hueos.Io.{Device}
use hueos.Multiboot.{MultibootInfo}
use hueos.Terminal.{Terminal, terminal_set_dimensions}
use hueos.Vesa.{Video}
use hueos.Vesa.Setup.{init_vesa_with_mbi}
use hueos.Vesa.Setup.Keeping.{IsAccepted, init_vesa_with_mbi-KeptBy}

-- A terminal of an accepted size with these cells and this colour, and nothing written to it.
pub record IsFresh (cells : ℕ → ℕ) (color : ℕ) (t : Terminal) : Type 0 where
  pub memory : t.vga_memory ≡ cells
  pub row : t.terminal_row ≡ 0
  pub column : t.terminal_column ≡ 0
  pub ink : t.terminal_color ≡ color
  pub accepted : IsAccepted t.vga_width t.vga_height

set_dimensions-IsFresh :
    (cells : ℕ → ℕ) (color width height : ℕ) (t : Terminal)
    → IsAccepted width height
    → IsFresh cells color t
    → IsFresh cells color (terminal_set_dimensions width height t)
unfolding terminal_set_dimensions
set_dimensions-IsFresh cells color width height t ok h =
    let row : leb height t.terminal_row ≡ false = ground (arith, ok.low, h.row) in
    let column : leb width t.terminal_column ≡ false = ground (arith, ok.narrow, h.column) in
    rw (row, column)
      (record { memory = h.memory; row = h.row; column = h.column; ink = h.ink; accepted = ok })

pub init_vesa_with_mbi-IsFresh :
    (dev : Device) (cmdline : Option Bytes) (mbi : Option MultibootInfo) (s : Video) (cells : ℕ → ℕ)
    (color : ℕ)
    → IsFresh cells color s.term
    → IsFresh cells color (init_vesa_with_mbi dev cmdline mbi s).term
init_vesa_with_mbi-IsFresh dev cmdline mbi s cells color h =
    init_vesa_with_mbi-KeptBy dev (λ v. IsFresh cells color v.term) (λ v t g. g) (λ v t g. g)
      (λ w h v ok g. set_dimensions-IsFresh cells color w h v.term ok g) cmdline mbi s h
