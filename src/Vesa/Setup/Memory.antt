-- ===== src/Vesa/Setup/Memory.antt =====
-- The memory that the set-up of kernel/vesa.c writes: that of the font.
use hueos.Base.{ℕ, ◌≤◌, ◌<◌, ◌≡◌, ◌⊎◌, ◌∙◌, refl, arith, Ram, Option, Bytes}
use hueos.Io.{Device}
use hueos.Multiboot.{MultibootInfo}
use hueos.Terminal.{Terminal, terminal_set_dimensions}
use hueos.Vesa.{Video, copy_font}
use hueos.Vesa.Plane.{copy_font-outside}
use hueos.Vesa.Setup.{init_vesa_with_mbi}
use hueos.Vesa.Setup.Keeping.{init_vesa_with_mbi-KeptBy}

-- Only the 8 KiB of the font differ.
abbrev pub FontOnly : Ram → Ram → Type 0
FontOnly ram ram' = (j : ℕ) → (j < 0xA0000) ⊎ (0xA2000 ≤ j) → ram' j ≡ ram j

copy_font-FontOnly : (ram : Ram) → FontOnly ram (copy_font ram)
copy_font-FontOnly ram j away =
    copy_font-outside ram j (λ ch row hc hr e. absurd (omega (arith, away)))

set_dimensions-cells :
    (width height : ℕ) (t : Terminal)
    → (terminal_set_dimensions width height t).vga_memory ≡ t.vga_memory
unfolding terminal_set_dimensions
set_dimensions-cells width height t = ground arith

-- With any command line, any boot information and any hardware, the set-up changes no memory but the 8 KiB of the font,
-- and no cell of the text memory.
pub init_vesa_with_mbi-FontOnly :
    (dev : Device) (cmdline : Option Bytes) (mbi : Option MultibootInfo) (s : Video)
    → let s' = init_vesa_with_mbi dev cmdline mbi s in
      FontOnly s.ram s'.ram × (s'.term.vga_memory ≡ s.term.vga_memory)
init_vesa_with_mbi-FontOnly dev cmdline mbi s =
    init_vesa_with_mbi-KeptBy dev
      (λ v. FontOnly s.ram v.ram × (v.term.vga_memory ≡ s.term.vga_memory)) (λ v t g. g)
      (λ v t g. ((λ j away. copy_font-FontOnly v.ram j away ∙ g.0 j away), g.1))
      (λ w h v ok g. (g.0, set_dimensions-cells w h v.term ∙ g.1)) cmdline mbi s
      ((λ j away. refl), refl)
