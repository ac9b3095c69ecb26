-- ===== src/Main/Kernel/Lines.antt =====
-- What the screen shows of the text that `kernel_main` of kernel/main.c writes to the terminal, in text mode.
use hueos.Base.{
  ℕ, ◌+◌, ◌*◌, ◌^◌, ◌≤◌, ◌<◌, ◌≡◌, ◌≢◌, ◌⊎◌, ◌∙◌, refl, sym, ap, arith, inl, inr, [], ◌∷◌, ◌++◌,
  Option, some, Bytes, Bool-cases, is_set, bit_and, false, ◌==◌, cell_lt,
}
use mathlib.Core.Path.{subst, subst₂}
use hueos.Io.{Device, Trace, to_serial}
use hueos.Multiboot.{MultibootInfo}
use hueos.Hyperv.{Registers}
use hueos.Gdt.{Addresses}
use hueos.Terminal.{
  Terminal, Console, terminal_write, terminal_initialize, vga_entry, vga_entry_color,
}
use hueos.Terminal.Paper.{Paper, Shows, type_char}
use hueos.Terminal.Writing.{type_all, new_paper, write-Shows, initialize-blank}
use hueos.Serial.{init_serial}
use hueos.Framebuffer.{Framebuffer, framebuffer_init, framebuffer_is_active}
use hueos.Vesa.Setup.Dimensions.{Fits}
use hueos.Vesa.Setup.Blank.{IsFresh, init_vesa_with_mbi-IsFresh}
use hueos.Main.Kernel.{Kernel, screen, set_up_output}
use hueos.Main.Kernel.Printed.{printed, screen-printed}

-- The terminal is in text mode, has this width and colour, and shows the last lines of the paper.
pub record Rolls (width color : ℕ) (p : Paper) (s : Console) : Type 0 where
  pub idle : framebuffer_is_active s.fb ≡ false
  pub wide : s.term.vga_width ≡ width
  pub ink : s.term.terminal_color ≡ color
  pub shown : Shows s.term p

write-Rolls :
    {width color : ℕ} (text : Bytes) (s : Console) (p : Paper)
    → Rolls width color p s
    → Rolls width color (type_all width color text p) (terminal_write text s)
write-Rolls {width} {color} text s p r =
    let (shown, fb, (wide, _, ink)) = write-Shows text s p r.idle r.shown in
    record {
      idle = ap framebuffer_is_active fb ∙ r.idle;
      wide = wide ∙ r.wide;
      ink = ink ∙ r.ink;
      shown =
          subst₂ (λ width color. Shows (terminal_write text s).term (type_all width color text p))
            r.wide r.ink shown;
    }

type_all-++ :
    (width color : ℕ) (a b : Bytes) (p : Paper)
    → type_all width color (a ++ b) p ≡ type_all width color b (type_all width color a p)
type_all-++ width color [] b p = refl
type_all-++ width color (c ∷ a) b p = type_all-++ width color a b (type_char width color c p)

pub screen-Rolls :
    (width color : ℕ) (s : Console) (p : Paper)
    → Rolls width color p s
    → (t : Trace) → Rolls width color (type_all width color (printed t) p) (screen t s)
screen-Rolls width color s p r =
    screen-printed (λ text c. Rolls width color (type_all width color text p) c) s r
      (λ before text c h.
        subst (λ q. Rolls width color q (terminal_write text c))
          (sym (type_all-++ width color before text p)) (write-Rolls text c _ h))

-- Enough cells of a new terminal are blank.
fresh-Shows :
    (cells : ℕ → ℕ) (color n : ℕ) (t : Terminal)
    → IsFresh cells color t
    → ((i : ℕ) → i < n → cells i ≡ vga_entry b' ' color)
    → t.vga_height * t.vga_width ≤ n
    → Shows t (new_paper color)
fresh-Shows cells color n t f blanks enough =
    let h = t.vga_height in
    let w = t.vga_width in
    let area : h * w ≤ 100 * 200 = grind (arith, f.accepted.wide, f.accepted.high) in
    record {
      prints = record {
        sized = record {
          wide = omega (arith, f.accepted.narrow);
          tall = omega (arith, f.accepted.low);
          area = omega arith;
          height = omega (arith, f.accepted.high);
        };
        row = omega (arith, f.row, f.accepted.low);
        same = λ y x hy hx.
            ap (λ m. m (y * w + x)) f.memory
            ∙ blanks (y * w + x) (omega (arith, cell_lt y x h w hy hx));
        fresh = λ y x later. ap (vga_entry b' ') (sym f.ink);
      };
      column = f.column;
      inside = omega (arith, f.accepted.narrow);
    }

-- The boot loader has set no graphics mode.
abbrev pub IsTextMode : MultibootInfo → Type 0
IsTextMode mbi = (is_set (bit_and mbi.flags (2 ^ 12)) ≡ false) ⊎ (mbi.framebuffer_type ≢ 1)

framebuffer_init-idle :
    (mbi : MultibootInfo) (fb : Framebuffer) (t : Trace)
    → IsTextMode mbi
    → fb.fb_address ≡ 0
    → framebuffer_is_active (framebuffer_init (some mbi) (fb, t)).0 ≡ false
unfolding framebuffer_init framebuffer_is_active
framebuffer_init-idle mbi fb t mode null = elim (Bool-cases (is_set (bit_and mbi.flags (2 ^ 12)))) [
  | inl e ↦
      let kind : (mbi.framebuffer_type == 1) ≡ false = ground (arith, mode) in rw (e, kind) refl
  | inr e ↦ rw e (rw null refl)
]

-- After the first steps the screen is blank, if it has no more cells than were cleared.
pub set_up_output-Rolls :
    (dev : Device) (cpuid : ℕ → Registers) (addr : Addresses) (stack : Bytes) (fuel : ℕ)
    (mbi : MultibootInfo) (cmdline : Option Bytes) (k : Kernel)
    → IsTextMode mbi
    → k.console.fb.fb_address ≡ 0
    → Fits k.console.term
    → let c = (set_up_output dev cpuid addr stack fuel mbi cmdline k).console in
      c.term.vga_height * c.term.vga_width ≤ k.console.term.vga_height * k.console.term.vga_width
      → Rolls c.term.vga_width 7 (new_paper 7) c
unfolding set_up_output vga_entry_color framebuffer_is_active
set_up_output-Rolls dev cpuid addr stack fuel mbi cmdline k mode null fits enough =
    let t0 = to_serial "Serial port initialized\n" (init_serial dev k.trace).1 in
    let s : Console = record k.console {
      fb = (framebuffer_init (some mbi) (k.console.fb, t0)).0;
    } in
    let off = framebuffer_init-idle mbi k.console.fb t0 mode null in
    let (blanks, same, only) = initialize-blank s off fits.inside.sized in
    let c : Console = terminal_initialize s in
    let wide : c.term.vga_width ≡ k.console.term.vga_width = ap (λ t. t.vga_width) only in
    let tall : c.term.vga_height ≡ k.console.term.vga_height = ap (λ t. t.vga_height) only in
    let fresh : IsFresh c.term.vga_memory 7 c.term = record {
      memory = refl;
      row = ap (λ t. t.terminal_row) only;
      column = ap (λ t. t.terminal_column) only;
      ink = ap (λ t. t.terminal_color) only;
      accepted = record {
        narrow = omega (arith, wide, fits.narrow);
        wide = omega (arith, wide, fits.wide);
        low = omega (arith, tall, fits.low);
        high = omega (arith, tall, fits.high);
      };
    } in
    let end = init_vesa_with_mbi-IsFresh dev _ (some mbi) _ c.term.vga_memory 7 fresh in
    record {
      idle = ap framebuffer_is_active same ∙ off;
      wide = refl;
      ink = end.ink;
      shown = fresh-Shows c.term.vga_memory 7 _ _ end blanks enough;
    }
