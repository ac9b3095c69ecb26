-- ===== src/Main/Kernel/Display.antt =====
-- What the screen shows of the text that `kernel_main` of kernel/main.c writes to the terminal, with a graphics mode.
use hueos.Base.{
  Bool, true, false, ◌∙◌, inl, inr, Bool-cases, ◌==◌, is_set, bit_and, ◌^◌, if◌then◌else◌, none,
}
use hueos.Io.{last_written, outb, inb}
use hueos.Framebuffer.{Framebuffer, set_up}
use hueos.Vesa.Setup.Mode.{output_register, IsQuiet, IsKept, init_vesa_with_mbi-KeepsMode}
use hueos.Main.Kernel.{has}
use hueos.Base.{
  ℕ, ◌+◌, ◌*◌, ◌/◌, ◌≤◌, ◌≡◌, ◌⊎◌, refl, sym, arith, [], ◌∷◌, ◌++◌, Option, some, Bytes,
}
use mathlib.Core.Path.{subst}
use hueos.Io.{Device, Trace, to_serial}
use hueos.Multiboot.{MultibootInfo}
use hueos.Hyperv.{Registers}
use hueos.Gdt.{Addresses}
use hueos.Terminal.{Console, terminal_write, terminal_initialize}
use hueos.Serial.{com1, init_serial}
use hueos.Framebuffer.{framebuffer_init}
use hueos.Framebuffer.Page.{Page, type_all, empty_page}
use hueos.Framebuffer.Page.Start.{
  IsGraphics, IsReady, Displays, write-Displays, elsewhere-Displays, framebuffer_init-IsReady,
  initialize-Displays,
}
use hueos.Vesa.Setup.Memory.{init_vesa_with_mbi-FontOnly}
use hueos.Main.Kernel.{Kernel, screen, set_up_output}
use hueos.Main.Kernel.Printed.{printed, screen-printed}

type_all-++ :
    (rows cols color : ℕ) (a b : Bytes) (p : Page)
    → type_all rows cols color (a ++ b) p
      ≡ type_all rows cols color b (type_all rows cols color a p)
unfolding type_all
type_all-++ rows cols color [] b p = refl
type_all-++ rows cols color (c ∷ a) b p = type_all-++ rows cols color a b _

pub screen-Displays :
    (rows cols color : ℕ) (s : Console) (p : Page)
    → Displays rows cols color s.fb p
    → (t : Trace)
    → Displays rows cols color (screen t s).fb (type_all rows cols color (printed t) p)
unfolding type_all
screen-Displays rows cols color s p d =
    screen-printed (λ text c. Displays rows cols color c.fb (type_all rows cols color text p)) s d
      (λ before text c h.
        subst (Displays rows cols color (terminal_write text c).fb)
          (sym (type_all-++ rows cols color before text p)) (write-Displays text c _ h))

-- The frame buffer does not lie where the font is loaded.
abbrev pub IsClear : MultibootInfo → Type 0
IsClear mbi =
    (mbi.framebuffer_addr + mbi.framebuffer_height * mbi.framebuffer_pitch ≤ 0xA0000)
    ⊎ (0xA2000 ≤ mbi.framebuffer_addr)

-- After the first steps the screen is an empty page.
pub set_up_output-Displays :
    (dev : Device) (cpuid : ℕ → Registers) (addr : Addresses) (stack : Bytes) (fuel : ℕ)
    (mbi : MultibootInfo) (cmdline : Option Bytes) (k : Kernel)
    → IsGraphics mbi
    → IsClear mbi
    → Displays
        (mbi.framebuffer_height / 8)
        (mbi.framebuffer_width / 8)
        7
        (set_up_output dev cpuid addr stack fuel mbi cmdline k).console.fb
        (empty_page 7)
unfolding set_up_output
set_up_output-Displays dev cpuid addr stack fuel mbi cmdline k g away =
    let t = to_serial "Serial port initialized\n" (init_serial dev k.trace).1 in
    let fb = (framebuffer_init (some mbi) (k.console.fb, t)).0 in
    let ready : IsReady mbi fb = framebuffer_init-IsReady mbi k.console.fb t g in
    let c : Console = terminal_initialize (record k.console { fb = fb }) in
    let (r, d) = initialize-Displays mbi (record k.console { fb = fb }) g ready in
    elsewhere-Displays c.fb (empty_page 7) _
      (λ j from below.
        (init_vesa_with_mbi-FontOnly dev _ (some mbi) _).0 j
          (ground (arith, away, r.at, r.height, r.pitch)))
      d

either :
    (b : Bool) (x : ℕ) (r s : Bool × Trace)
    → output_register r.1 ≡ x
    → output_register s.1 ≡ x
    → output_register (if◌then◌else◌ {A = Bool × Trace} b r s).1 ≡ x
either true x r s p q = p
either false x r s p q = q

init_serial-register :
    (dev : Device) (t : Trace) → output_register (init_serial dev t).1 ≡ output_register t
unfolding init_serial last_written
init_serial-register dev t =
    let u = outb (com1 + 0) 0x03 (outb (com1 + 3) 0x80 (outb (com1 + 1) 0x00 t)) in
    let u = outb (com1 + 2) 0xC7 (outb (com1 + 3) 0x03 (outb (com1 + 1) 0x00 u)) in
    let u = outb (com1 + 0) 0xAE (outb (com1 + 4) 0x1E (outb (com1 + 4) 0x0B u)) in
    let (echo, u) = inb dev (com1 + 0) u in
    either (echo == 0xAE) (output_register t) (true, outb (com1 + 4) 0x0F u) (false, u) refl refl

framebuffer_init-register :
    (mbi : MultibootInfo) (fb : Framebuffer) (t : Trace)
    → output_register (framebuffer_init (some mbi) (fb, t)).1 ≡ output_register t
unfolding framebuffer_init set_up last_written
framebuffer_init-register mbi fb t = elim (Bool-cases (is_set (bit_and mbi.flags (2 ^ 12)))) [
  | inl e ↦ elim (Bool-cases (mbi.framebuffer_type == 1)) [
    | inl f ↦ rw (e, f) refl
    | inr f ↦ rw (e, f) refl
  ]
  | inr e ↦ rw e refl
]

-- The boot loader's video mode is left as it is.
pub set_up_output-KeepsMode :
    (dev : Device) (cpuid : ℕ → Registers) (addr : Addresses) (stack : Bytes) (fuel : ℕ)
    (mbi : MultibootInfo) (cmdline : Option Bytes) (k : Kernel)
    → IsQuiet (if has mbi 0x04 then cmdline else none)
    → IsKept mbi
    → output_register (set_up_output dev cpuid addr stack fuel mbi cmdline k).trace
      ≡ output_register k.trace
unfolding set_up_output last_written
set_up_output-KeepsMode dev cpuid addr stack fuel mbi cmdline k quiet kept =
    let t = to_serial "Serial port initialized\n" (init_serial dev k.trace).1 in
    init_vesa_with_mbi-KeepsMode dev (if has mbi 0x04 then cmdline else none) mbi _ quiet kept
    ∙ framebuffer_init-register mbi k.console.fb t
    ∙ init_serial-register dev k.trace
