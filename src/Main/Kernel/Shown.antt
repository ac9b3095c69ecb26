-- ===== src/Main/Kernel/Shown.antt =====
-- `kernel_main` of kernel/main.c: what stands on the screen when it comes to its last loop.
use hueos.Serial.Sending.{Drains, carry_out-Returns}
use hueos.Main.Kernel.{end_with}
use hueos.Base.{ℕ, ◌*◌, ◌≡◌, ◌≤◌, refl, sym, List, ◌++◌, Option, some, Bytes, codes, length}
use mathlib.Core.Path.{subst}
use hueos.Io.{Device, Trace}
use hueos.Multiboot.{MultibootInfo}
use hueos.Memory.{Memory, MmapEntry}
use hueos.Hyperv.{Registers}
use hueos.Gdt.{Addresses}
use hueos.Ide.{Ide}
use hueos.Ide.Detection.Filling.{Answers}
use hueos.Terminal.{before_nul}
use hueos.Terminal.{Terminal}
use hueos.Terminal.Writing.{new_paper}
use hueos.Terminal.Writing
use hueos.Vesa.Setup.Dimensions.{Fits}
use hueos.Main.Kernel.Lines.{IsTextMode, Rolls, screen-Rolls, set_up_output-Rolls}
use hueos.Framebuffer.Page.{type_all}
use hueos.Main.Kernel.{
  Kernel, halting, ram_of, screen, set_up_output, begin, set_up_tables, set_up_processor,
  set_up_scsi, print_all, say_complete, kernel_main, check_verbose,
}
use hueos.Main.Kernel.Printed.{printed}
use hueos.Main.Kernel.Running.{HasMap, memory_top, prepared, finished, run_returns}

module _ (dev : Device) (cpuid : ℕ → Registers) (addr : Addresses) (stack : Bytes) (fuel : ℕ)
    (mbi : MultibootInfo) (cmdline : Option Bytes) (es : List MmapEntry) where
  -- The screen that the terminal writes to is set up once.
  finished-console :
      (ide : Ide) (v u : Trace) (m : Memory) (k : Kernel)
      → (finished dev cpuid addr stack fuel mbi cmdline es ide v m u k).console
        ≡ (set_up_output dev cpuid addr stack fuel mbi cmdline k).console
  unfolding say_complete print_all set_up_scsi set_up_processor set_up_tables begin set_up_output
      check_verbose
  finished-console ide v u m k = refl

  -- The last two texts.
  finished-printed :
      (ide : Ide) (v u : Trace) (m : Memory) (k : Kernel)
      → (before : Bytes) × (printed
            (finished dev cpuid addr stack fuel mbi cmdline es ide v m u k).trace
          ≡ (before ++ codes "\nHueOS kernel initialization complete!\n")
            ++ codes "Kernel is now running...\n")
  unfolding say_complete printed before_nul
  finished-printed ide v u m k = (_, refl)

-- The terminal with the size that the video set-up gives it.
abbrev pub sized_terminal :
    Device
    → (ℕ → Registers)
    → Addresses
    → Bytes
    → ℕ
    → MultibootInfo
    → Option Bytes
    → Kernel
    → Terminal
sized_terminal dev cpuid addr stack fuel mbi cmdline k =
    (set_up_output dev cpuid addr stack fuel mbi cmdline k).console.term

-- With the right magic number and no graphics mode, `kernel_main` comes to its last loop, if the table of drives has
-- its four places, the drives answer and the serial transmitter drains, each within the fuel, the map of the memory,
-- should there be one, is laid out in the memory and ends below 4 GiB, no frame buffer is known at first, the cursor
-- stands on a screen of an accepted size, and the video set-up does not make that larger. Then the text screen shows
-- the last lines of all the text that was written to the terminal, as if it had been typed on a roll of paper of the
-- width that was set up, in light grey on black. The text ends with the lines that say that the kernel is running.
pub kernel_main-Rolls :
    (dev : Device) (cpuid : ℕ → Registers) (addr : Addresses) (stack : Bytes) (fuel : ℕ)
    (mbi : MultibootInfo) (cmdline : Option Bytes) (es : List MmapEntry) (k : Kernel)
    → Answers dev fuel
    → Drains dev fuel
    → HasMap mbi (ram_of (prepared dev cpuid addr stack fuel mbi cmdline es k)) es
    → length k.ide.ide_devices ≡ 4
    → IsTextMode mbi
    → k.console.fb.fb_address ≡ 0
    → Fits k.console.term
    → (sized_terminal dev cpuid addr stack fuel mbi cmdline k).vga_height
        * (sized_terminal dev cpuid addr stack fuel mbi cmdline k).vga_width
      ≤ k.console.term.vga_height * k.console.term.vga_width
    → (k' : Kernel) × (all : Trace) × (kernel_main dev cpuid addr stack fuel 0x2BADB002 mbi cmdline
          k
        ≡ some (halting k' all))
      × Rolls
          (sized_terminal dev cpuid addr stack fuel mbi cmdline k).vga_width
          7
          (Writing.type_all
            (sized_terminal dev cpuid addr stack fuel mbi cmdline k).vga_width
            7
            (printed k'.trace)
            (new_paper 7))
          (screen k'.trace k'.console)
      × (before : Bytes) × (printed k'.trace
          ≡ (before ++ codes "\nHueOS kernel initialization complete!\n")
            ++ codes "Kernel is now running...\n")
unfolding kernel_main end_with
kernel_main-Rolls dev cpuid addr stack fuel mbi cmdline es k answers drains mapped size mode null
      fits enough =
    let (ide, v, u, e, filled) =
      run_returns dev cpuid addr stack fuel mbi cmdline es k answers mapped size in
    let m : Memory = record k.memory { memory_end = memory_top mbi es k.memory } in
    let (before, ends) = finished-printed dev cpuid addr stack fuel mbi cmdline es ide v u m k in
    let k' : Kernel = finished dev cpuid addr stack fuel mbi cmdline es ide v m u k in
    let c = (set_up_output dev cpuid addr stack fuel mbi cmdline k).console in
    let start = set_up_output-Rolls dev cpuid addr stack fuel mbi cmdline k mode null fits enough in
    let (all, sent) = carry_out-Returns dev fuel k'.serial_initialized k'.trace drains in
    (
      k',
      all,
      rw e (rw sent refl),
      subst
          (λ r.
            Rolls c.term.vga_width 7
              (Writing.type_all c.term.vga_width 7 (printed k'.trace) (new_paper 7))
              (screen k'.trace r))
          (sym (finished-console dev cpuid addr stack fuel mbi cmdline es ide v u m k))
          (screen-Rolls c.term.vga_width 7 c (new_paper 7) start k'.trace),
      before,
      ends,
    )
