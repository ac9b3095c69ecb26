-- ===== src/Vesa/Setup/Dimensions.antt =====
-- The dimensions that the set-up of kernel/vesa.c leaves in the terminal.
use hueos.Base.{ℕ, ◌*◌, ◌≤◌, arith, Option, Bytes}
use hueos.Io.{Device}
use hueos.Multiboot.{MultibootInfo}
use hueos.Terminal.{Terminal, terminal_set_dimensions}
use hueos.Terminal.Bounds.{IsInside, set_dimensions-IsInside}
use hueos.Vesa.{Video}
use hueos.Vesa.Setup.Keeping.{init_vesa_with_mbi-KeptBy}
use hueos.Vesa.Setup.{init_vesa_with_mbi}

-- The cursor is on the screen, and the screen has a size that the kernel accepts.
pub record Fits (t : Terminal) : Type 0 where
  pub inside : IsInside t
  pub narrow : 40 ≤ t.vga_width
  pub wide : t.vga_width ≤ 200
  pub low : 20 ≤ t.vga_height
  pub high : t.vga_height ≤ 100

set_dimensions-Fits :
    (width height : ℕ) (t : Terminal)
    → 40 ≤ width
    → width ≤ 200
    → 20 ≤ height
    → height ≤ 100
    → Fits (terminal_set_dimensions width height t)
set_dimensions-Fits width height t w w' h h' =
    let area : height * width ≤ 100 * 200 = grind arith in
    let (inside, same_w, same_h, _, _) =
      set_dimensions-IsInside width height t (omega arith) (omega arith) (omega arith)
        (omega arith) in
    record {
      inside = inside;
      narrow = omega (arith, same_w);
      wide = omega (arith, same_w);
      low = omega (arith, same_h);
      high = omega (arith, same_h);
    }

-- The video set-up, with any command line, any boot information and any hardware, keeps a screen of an accepted size
-- (40 to 200 columns, 20 to 100 rows) with the cursor on it.
pub init_vesa_with_mbi-Fits :
    (dev : Device) (cmdline : Option Bytes) (mbi : Option MultibootInfo) (s : Video)
    → Fits s.term
    → Fits ((init_vesa_with_mbi dev cmdline mbi s).term)
init_vesa_with_mbi-Fits dev cmdline mbi s h =
    init_vesa_with_mbi-KeptBy dev (λ v. Fits v.term) (λ v t g. g) (λ v t g. g)
      (λ w h v ok g. set_dimensions-Fits w h v.term ok.narrow ok.wide ok.low ok.high) cmdline mbi s
      h
