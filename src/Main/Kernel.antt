-- ===== src/Main/Kernel.antt =====
-- `kernel_main` of kernel/main.c. The parts write to the serial port and the terminal by events. What the terminal
-- shows after them is `screen`; the bytes of the serial port, and the waits for it, are added by `carry_out` at the
-- end, so that a wait that does not end leaves `kernel_main` without an outcome. The string that `mbi->cmdline` points
-- to is an argument, and NULL for it is `none`.
pub mod Stages
pub mod Printed
pub mod Display
pub mod Refusal
pub mod Running
pub mod Shown
pub mod Lines
use hueos.Base.{
  ℕ, suc, ◌∷◌, [], Bool, true, false, ◌&&◌, if◌then◌else◌, ◌==◌, bit_and, is_set, Option, none,
  some, ◌>>=◌, Bytes, codes, Ram,
}
use Prim.Native.String.{String}
use hueos.Io.{
  Event, Trace, Device, out8, in8, out16, in16, out32, in32, serial_text, terminal_text,
  terminal_char, gdt_flush, idt_flush, wrmsr, to_serial, to_terminal,
}
use hueos.Multiboot.{MultibootInfo}
use hueos.Serial.{init_serial, carry_out}
use hueos.Framebuffer.{framebuffer_init}
use hueos.Terminal.{Console, terminal_initialize, terminal_putchar, terminal_writestring}
use hueos.Vesa.{Video}
use hueos.Vesa.Setup.{init_vesa_with_mbi}
use hueos.Gdt.{Tables, Addresses, init_gdt, init_idt}
use hueos.Memory.{Memory, init_memory}
use hueos.Hyperv.{Registers, HyperV, init_hyperv}
use hueos.Hwinfo.{CpuInfo, init_hwinfo, print_memory_map}
use hueos.Hwinfo.Bus.{print_detailed_hardware_info}
use hueos.Ide.{Ide, init_ide}
use hueos.Ide.Detection.{ide_detect_devices}
use hueos.Ide.Listing.{ide_print_devices}
use hueos.Scsi.Controllers.{Scsi, init_scsi}
use hueos.Scsi.Devices.{scsi_scan_devices}
use hueos.Scsi.Listing.{scsi_print_devices}
use hueos.Main.{strstr_check}

-- The state of all parts, and all that was done. `console` is that before the first text.
pub record Kernel : Type 0 where
  pub serial_initialized : Bool
  pub kernel_verbose_mode : Bool
  pub console : Console
  pub tables : Tables
  pub memory : Memory
  pub hyperv : HyperV
  pub cpu_info : CpuInfo
  pub ide : Ide
  pub scsi : Scsi
  pub trace : Trace

-- `kernel_main` returns, or stays in the loop of `hlt`. The trace has all that was done, with the bytes of the serial
-- port.
pub data Outcome : Type 0 where
  returned : Kernel → Trace → Outcome
  halting : Kernel → Trace → Outcome

-- The terminal after what was written to it.
unfoldable pub screen : Trace → Console → Console
screen [] c = c
screen (terminal_text s ∷ t) c = terminal_writestring s (screen t c)
screen (terminal_char x ∷ t) c = terminal_putchar x (screen t c)
screen (serial_text s ∷ t) c = screen t c
screen (out8 p v ∷ t) c = screen t c
screen (in8 p v ∷ t) c = screen t c
screen (out16 p v ∷ t) c = screen t c
screen (in16 p v ∷ t) c = screen t c
screen (out32 p v ∷ t) c = screen t c
screen (in32 p v ∷ t) c = screen t c
screen (gdt_flush a ∷ t) c = screen t c
screen (idt_flush a ∷ t) c = screen t c
screen (wrmsr a v ∷ t) c = screen t c

-- The memory as it is then: the frame buffer stands in it.
abbrev pub ram_of : Kernel → Ram
ram_of k = (screen k.trace k.console).fb.ram

-- `terminal_writestring` and `serial_write` of a literal, and both of one. The text for the serial port is noted in its
-- place; `end_with` sends all of them, in this order, with the waits and the test of `serial_initialized`.
abbrev pub show : String → Kernel → Kernel
show text k = record k { trace = to_terminal text k.trace }

abbrev pub tell : String → Kernel → Kernel
tell text k = record k { trace = to_serial text k.trace }

abbrev pub announce : String → Kernel → Kernel
announce text k = tell text (show text k)

-- `mbi->flags & bit`
abbrev pub has : MultibootInfo → ℕ → Bool
has mbi bit = is_set (bit_and mbi.flags bit)

-- `kernel_verbose_mode` is set by the word on the command line, and never reset.
unfoldable pub check_verbose : MultibootInfo → Option Bytes → Kernel → Kernel
unfolding strstr_check
check_verbose mbi cmdline k =
    let on = has mbi 0x04 && strstr_check cmdline (some (codes "verbose")) in
    let said = to_serial "Verbose mode enabled\n" (to_terminal "Verbose mode enabled\n" k.trace) in
    record k {
      kernel_verbose_mode = if on then true else k.kernel_verbose_mode;
      trace = if on then said else k.trace;
    }

-- The lines on the flags.
unfoldable pub print_flags : MultibootInfo → Kernel → Kernel
print_flags mbi k =
    let t = to_terminal "==================\n" (to_terminal "\nSystem Information:\n" k.trace) in
    let t = if has mbi 0x01 then to_terminal "Memory info available\n" t else t in
    let t = if has mbi 0x02 then to_terminal "Boot device info available\n" t else t in
    let t = if has mbi 0x04 then to_terminal "Command line available\n" t else t in
    record k { trace = if has mbi 0x08 then to_terminal "Module info available\n" t else t }

-- The end, once it is running.
unfoldable pub say_complete : Kernel → Kernel
say_complete k =
    let k = show "\nHueOS kernel initialization complete!\n" k in
    let k = show "Kernel is now running...\n" k in
    tell "Kernel is now running...\n" (tell "\nHueOS kernel initialization complete!\n" k)

-- A wrong magic number.
unfoldable pub refuse : Kernel → Kernel
refuse k = announce "ERROR: Invalid multiboot magic number!\n" k

module _ (dev : Device) (cpuid : ℕ → Registers) (addr : Addresses) (stack : Bytes) (fuel : ℕ) where
  -- The serial port, the frame buffer, the terminal and the video mode.
  unfoldable pub set_up_output : MultibootInfo → Option Bytes → Kernel → Kernel
  set_up_output mbi cmdline k =
      let (ready, t) = init_serial dev k.trace in
      let (fb, t) =
        framebuffer_init (some mbi) (k.console.fb, to_serial "Serial port initialized\n" t) in
      let c = terminal_initialize (record k.console { fb = fb }) in
      let v : Video = record {
        term = c.term;
        ram = c.fb.ram;
        trace = to_serial "Terminal initialized\n" t;
      } in
      let v = init_vesa_with_mbi dev (if has mbi 0x04 then cmdline else none) (some mbi) v in
      record k {
        serial_initialized = ready;
        console = record { fb = record c.fb { ram = v.ram }; term = v.term };
        trace = v.trace;
      }

  -- Up to the test of the magic number.
  unfoldable pub begin : MultibootInfo → Option Bytes → Kernel → Kernel
  unfolding set_up_output
  begin mbi cmdline k =
      let k = announce "HueOS Kernel Starting...\n" (set_up_output mbi cmdline k) in
      tell "Checking multiboot magic...\n" (show "========================\n" k)

  -- From there up to the memory: the messages, the command line, and the two tables.
  unfoldable pub set_up_tables : MultibootInfo → Option Bytes → Kernel → Kernel
  unfolding check_verbose
  set_up_tables mbi cmdline k =
      let k = announce "Multiboot loader detected\n" (show "Multiboot loader detected\n" k) in
      let k = announce "Initializing GDT...\n" (check_verbose mbi cmdline k) in
      let (tables, t) = init_gdt addr (k.tables, k.trace) in
      let k = announce "GDT initialized\n" (record k { tables = tables; trace = t }) in
      let k = announce "Initializing IDT...\n" k in
      let (tables, t) = init_idt addr (k.tables, k.trace) in
      let k = announce "IDT initialized\n" (record k { tables = tables; trace = t }) in
      tell "Initializing memory...\n" k

  -- The hypervisor and the processor.
  unfoldable pub set_up_processor : Kernel → Kernel
  set_up_processor k =
      let k = tell "Initializing Hyper-V...\n" (tell "Memory initialized\n" k) in
      let (hyperv, t) = init_hyperv cpuid (k.hyperv, k.trace) in
      let k = tell "Hyper-V initialization complete\n" (record k { hyperv = hyperv; trace = t }) in
      let k = tell "Detecting hardware...\n" k in
      tell "Initializing IDE...\n" (record k { cpu_info = init_hwinfo cpuid k.cpu_info })

  -- The SCSI controllers and devices.
  unfoldable pub set_up_scsi : Kernel → Kernel
  set_up_scsi k =
      let k = tell "Initializing SCSI...\n" k in
      let (scsi, t) = scsi_scan_devices stack (init_scsi dev (k.scsi, k.trace)) in
      record k { scsi = scsi; trace = t }

  -- The listings, and more if the kernel is verbose.
  unfoldable pub print_all : MultibootInfo → Kernel → Kernel
  unfolding print_flags
  print_all mbi k =
      let k = print_flags mbi k in
      let k = record k { trace = ide_print_devices k.ide k.trace } in
      let k = record k { trace = scsi_print_devices k.scsi k.trace } in
      let detailed = print_detailed_hardware_info dev k.cpu_info k.trace in
      record k { trace = if k.kernel_verbose_mode then print_memory_map mbi detailed else k.trace }

  -- What is done with a right magic number. `none` means that the fuel for a drive ran out; the map of the memory has
  -- fuel enough.
  unfoldable pub run : MultibootInfo → Option Bytes → Kernel → Option Kernel
  run mbi cmdline k =
      let k = set_up_tables mbi cmdline k in
      do
        (memory, t) ← init_memory (suc mbi.mmap_length) (ram_of k) mbi (k.memory, k.trace)
        let k = set_up_processor (record k { memory = memory; trace = t })
        let (ide, t) = init_ide k.ide k.trace
        (ide, t) ← ide_detect_devices dev fuel (ide, t)
        let k = print_all mbi (set_up_scsi (record k { ide = ide; trace = t }))
        some (say_complete k)

  -- An end of the kernel, once the texts for the serial port are sent, which is nothing if the port does not work. Each
  -- wait for the transmitter has `fuel` rounds too.
  unfoldable pub end_with : (Kernel → Trace → Outcome) → Kernel → Option Outcome
  unfolding carry_out
  end_with outcome k = do
    all ← carry_out dev fuel k.serial_initialized k.trace
    some (outcome k all)

  unfoldable pub kernel_main : ℕ → MultibootInfo → Option Bytes → Kernel → Option Outcome
  unfolding end_with
  kernel_main magic mbi cmdline k =
      let k = begin mbi cmdline k in
      let running = run mbi cmdline k >>= end_with halting in
      if magic == 0x2BADB002 then running else end_with returned (refuse k)
