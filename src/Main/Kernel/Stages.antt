-- ===== src/Main/Kernel/Stages.antt =====
-- The size of the screen through the first steps of `kernel_main` in kernel/main.c.
use hueos.Base.{ℕ, ◌<◌, arith, Bool-cases, inl, inr, Option, some, Bytes, for_cells_inv}
use hueos.Io.{Device}
use hueos.Multiboot.{MultibootInfo}
use hueos.Framebuffer.{framebuffer_is_active}
use hueos.Terminal.{Terminal, Console, terminal_initialize, clear_vga, blank_cell}
use hueos.Hyperv.{Registers}
use hueos.Gdt.{Addresses}
use hueos.Vesa.Setup.Dimensions.{Fits, init_vesa_with_mbi-Fits}
use hueos.Main.Kernel.{Kernel, set_up_output}

-- A change of the cells, the cursor and the colour alone.
moved-Fits :
    (t : Terminal) (mem : ℕ → ℕ) (r c color : ℕ)
    → r < t.vga_height
    → c < t.vga_width
    → Fits t
    → Fits (record t {
      vga_memory = mem;
      terminal_row = r;
      terminal_column = c;
      terminal_color = color;
    })
moved-Fits t mem r c color low left h = record {
  inside = record {
    sized = record {
      wide = h.inside.sized.wide;
      tall = h.inside.sized.tall;
      area = h.inside.sized.area;
      height = h.inside.sized.height;
    };
    row = low;
    column = left;
  };
  narrow = h.narrow;
  wide = h.wide;
  low = h.low;
  high = h.high;
}

blank_cell-Fits : (y x : ℕ) (t : Terminal) → Fits t → Fits (blank_cell y x t)
unfolding blank_cell
blank_cell-Fits y x t h =
    moved-Fits t _ t.terminal_row t.terminal_column t.terminal_color h.inside.row h.inside.column h

clear_vga-Fits : (t : Terminal) → Fits t → Fits (clear_vga t)
unfolding clear_vga
clear_vga-Fits t h =
    for_cells_inv (λ _ u. Fits u) t.vga_height t.vga_width blank_cell t
      (λ y x u p q g. blank_cell-Fits y x u g) h

terminal_initialize-Fits : (c : Console) → Fits c.term → Fits (terminal_initialize c).term
unfolding terminal_initialize
terminal_initialize-Fits c h = elim (Bool-cases (framebuffer_is_active c.fb)) [
  | inl e ↦ rw e (moved-Fits c.term c.term.vga_memory 0 0 _ (omega arith) (omega arith) h)
  | inr e ↦
      rw e
        (clear_vga-Fits _ (moved-Fits c.term c.term.vga_memory 0 0 _ (omega arith) (omega arith) h))
]

pub set_up_output-Fits :
    (dev : Device) (cpuid : ℕ → Registers) (addr : Addresses) (stack : Bytes) (fuel : ℕ)
    (mbi : MultibootInfo) (cmdline : Option Bytes) (k : Kernel)
    → Fits k.console.term
    → Fits ((set_up_output dev cpuid addr stack fuel mbi cmdline k).console.term)
unfolding set_up_output
set_up_output-Fits dev cpuid addr stack fuel mbi cmdline k h =
    init_vesa_with_mbi-Fits dev _ (some mbi) _ (terminal_initialize-Fits _ h)
