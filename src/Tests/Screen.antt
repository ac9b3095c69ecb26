-- ===== src/Tests/Screen.antt =====
-- The text terminal on a screen of 2 rows and 3 columns.
use hueos.Base.{◌≡◌, refl, arith, codes, false}
use hueos.Framebuffer.{boot_framebuffer, framebuffer_is_active}
use hueos.Terminal.{
  Terminal, Console, boot_terminal, terminal_writestring, terminal_initialize, putchar_vga,
  vga_entry_color, light_grey, black, before_nul,
}
use hueos.Terminal.Scrolling.{IsSized}
use hueos.Terminal.Bounds.{IsInside, Safe, putchar_vga-Safe}
use hueos.Terminal.Paper.{Shows}
use hueos.Terminal.Writing.{type_all, new_paper, writestring-Shows}

abbrev small : Terminal
small = record (boot_terminal (λ _. 0x720)) { vga_width = 3; vga_height = 2; terminal_color = 7 }

abbrev console : Console
console = record { fb = boot_framebuffer (λ _. 0); term = small }

small-IsSized : IsSized small
small-IsSized = record {
  wide = omega arith;
  tall = omega arith;
  area = omega arith;
  height = omega arith;
}

console_off : framebuffer_is_active console.fb ≡ false
unfolding framebuffer_is_active
console_off = refl

writestring-Shows_example :
    Shows (terminal_writestring (codes "ab\ncdef") (terminal_initialize console)).term (
      type_all 3
        (vga_entry_color light_grey black)
        (before_nul (codes "ab\ncdef"))
        (new_paper (vga_entry_color light_grey black)))
writestring-Shows_example = writestring-Shows (codes "ab\ncdef") console console_off small-IsSized

abbrev last_cell : Terminal
last_cell = record small { terminal_row = 1; terminal_column = 2 }

last_cell-IsInside : IsInside last_cell
last_cell-IsInside = record {
  sized = record {
    wide = omega arith;
    tall = omega arith;
    area = omega arith;
    height = omega arith;
  };
  row = omega arith;
  column = omega arith;
}

putchar_vga-Safe_example : Safe last_cell (putchar_vga b'x' last_cell)
putchar_vga-Safe_example = putchar_vga-Safe b'x' last_cell last_cell-IsInside
