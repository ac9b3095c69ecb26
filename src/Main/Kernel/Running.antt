-- ===== src/Main/Kernel/Running.antt =====
-- `kernel_main` of kernel/main.c with the right magic number: it comes to its last loop.
use hueos.Base.{
  ℕ, suc, ◌+◌, ◌*◌, ◌/◌, ◌%◌, ◌^◌, ◌<◌, ◌≡◌, ◌≢◌, ◌↔◌, ◌∙◌, refl, ap, arith, List, [], ◌∷◌, map,
  true, ◌&&◌, if◌then◌else◌, Option, some, Bytes, codes, length, get_or, is_set, bit_and, u32,
  Bool-cases, inl, inr, Ram,
}
use hueos.Io.{Device, Trace, to_serial, to_terminal}
use hueos.Multiboot.{MultibootInfo}
use hueos.Hyperv.{Registers}
use hueos.Hyperv.Vendor.{Are32, vendor, init_hyperv-vendor}
use hueos.Gdt.{Addresses}
use hueos.Gdt.Encoding.{segment, absent}
use hueos.Gdt.Setup.{flat, null_segment, init_gdt-flat, init_idt-absent}
use hueos.Gdt.{init_gdt}
use hueos.Memory.{Memory, MmapEntry, init_memory}
use hueos.Memory.Map.{Entries, Below4g, highest, init_memory-highest}
use hueos.Hwinfo.{detect_cpu, init_hwinfo}
use hueos.Ide.{Ide, init_ide}
use hueos.Ide.Detection.Filling.{IsFilled, Answers, ide_detect_devices-IsFilled}
use hueos.Scsi.Controllers.{no_scsi_device}
use hueos.Scsi.Access.{scsi_get_device}
use hueos.Scsi.Devices.{scsi_execute_simple_command}
use hueos.Scsi.Devices.Scanned.{IsTable}
use hueos.Scsi.Devices.Served.{devices_served}
use hueos.Serial.{carry_out}
use hueos.Serial.Sending.{Drains, carry_out-Returns}
use hueos.Vesa.Setup.Dimensions.{Fits}
use hueos.Main.{strstr_check}
use hueos.Main.Kernel.{
  Kernel, halting, has, ram_of, set_up_output, begin, set_up_tables, set_up_processor, set_up_scsi,
  print_all, say_complete, run, kernel_main, end_with, check_verbose,
}
use hueos.Main.Kernel.Stages.{set_up_output-Fits}

-- The boot loader's map of the memory, if there is one, is laid out in the memory, and its available regions end below
-- 4 GiB.
abbrev pub HasMap : MultibootInfo → Ram → List MmapEntry → Type 0
HasMap mbi ram es =
    bit_and mbi.flags 0x40 ≢ 0
    → (mbi.mmap_addr + mbi.mmap_length < 2 ^ 32)
      × Entries ram (mbi.mmap_addr + mbi.mmap_length) mbi.mmap_addr es
      × Below4g es

-- The end of memory that the boot loader's information gives.
abbrev pub memory_top : MultibootInfo → List MmapEntry → Memory → ℕ
memory_top mbi es m =
    if is_set (bit_and mbi.flags 0x40)
    then highest m.memory_end es
    else u32 (u32 (mbi.mem_upper + 1024) * 1024)

init_memory_returns :
    (es : List MmapEntry) (ram : Ram) (mbi : MultibootInfo) (m : Memory) (t : Trace)
    → HasMap mbi ram es
    → (u : Trace) × (init_memory (suc mbi.mmap_length) ram mbi (m, t)
        ≡ some (record m { memory_end = memory_top mbi es m }, u))
init_memory_returns es ram mbi m t h = elim (Bool-cases (is_set (bit_and mbi.flags 0x40))) [
  | inl e ↦
      let flag : bit_and mbi.flags 0x40 ≢ 0 = λ z. absurd (ground arith) in
      let (fits, entries, low) = h flag in
      rw e (_, init_memory-highest es ram mbi m t flag fits entries low)
  | inr e ↦ rw e (
    to_terminal "Memory initialization complete\n"
        (to_terminal "Initializing memory management...\n" t),
    unfold init_memory in rw e refl,
  )
]

-- What the kernel starts from: the arrays have their sizes, and the cursor stands on a screen of an accepted size.
pub record IsBootState (k : Kernel) : Type 0 where
  pub gates : (length k.tables.gdt_entries ≡ 5) × (length k.tables.idt_entries ≡ 256)
  pub drives : length k.ide.ide_devices ≡ 4
  pub controllers : length k.scsi.controllers ≡ 4
  pub disks : IsTable k.scsi
  pub shown : Fits k.console.term

-- What the kernel has set up when it is running.
module _ (cpuid : ℕ → Registers) (mbi : MultibootInfo) (cmdline : Option Bytes)
    (es : List MmapEntry) (before : Kernel) where
  pub record IsRunning (after : Kernel) : Type 0 where
    pub segments :
        map segment after.tables.gdt_entries
        ≡ null_segment ∷ flat 0x9a ∷ flat 0x92 ∷ flat 0xfa ∷ flat 0xf2 ∷ []
    pub gates : (i : ℕ) → i < 256 → get_or after.tables.idt_entries i absent ≡ absent
    pub memory :
        after.memory ≡ record before.memory { memory_end = memory_top mbi es before.memory }
    pub hyperv :
        (after.hyperv.hyperv_detected ≡ true)
        ↔ (((cpuid 1).ecx / 2 ^ 31 % 2 ≡ 1) × (vendor cpuid ≡ codes "Microsoft Hv"))
    pub processor : after.cpu_info ≡ detect_cpu cpuid before.cpu_info
    pub drives : IsFilled 4 after.ide
    pub disks :
        (i : ℕ) (cdb : Bytes) (len : ℕ)
        → i < after.scsi.device_count
        → let d = get_or after.scsi.scsi_devices i no_scsi_device in
          (scsi_get_device after.scsi i ≡ some d)
          × (scsi_execute_simple_command after.scsi d.controller_id d.target d.lun cdb len ≡ true)
    pub verbose : after.kernel_verbose_mode ≡ (
        if has mbi 0x04 && strstr_check cmdline (some (codes "verbose"))
        then true
        else before.kernel_verbose_mode)
    pub shown : Fits after.console.term
    pub last : (u : Trace) × (after.trace ≡ to_serial "Kernel is now running...\n" u)

module _ (dev : Device) (cpuid : ℕ → Registers) (addr : Addresses) (stack : Bytes) (fuel : ℕ)
    (mbi : MultibootInfo) (cmdline : Option Bytes) (es : List MmapEntry) where
  abbrev pub prepared : Kernel → Kernel
  prepared k =
      set_up_tables dev cpuid addr stack fuel mbi cmdline
        (begin dev cpuid addr stack fuel mbi cmdline k)

  -- The state before the detection of the drives, and that at the end.
  abbrev pub processed : Memory → Trace → Kernel → Kernel
  processed m u k =
      set_up_processor dev cpuid addr stack fuel (record (prepared k) { memory = m; trace = u })

  abbrev pub finished : Ide → Trace → Memory → Trace → Kernel → Kernel
  finished ide v m u k = say_complete (
      print_all dev cpuid addr stack fuel mbi
        (set_up_scsi dev cpuid addr stack fuel (record (processed m u k) { ide = ide; trace = v })))

  tables_set :
      (k : Kernel)
      → IsBootState k
      → (map segment (prepared k).tables.gdt_entries
          ≡ null_segment ∷ flat 0x9a ∷ flat 0x92 ∷ flat 0xfa ∷ flat 0xf2 ∷ [])
        × ((i : ℕ) → i < 256 → get_or (prepared k).tables.idt_entries i absent ≡ absent)
  unfolding set_up_tables begin set_up_output check_verbose
  tables_set k boot =
      let first = λ (t : Trace). init_gdt-flat addr k.tables t boot.gates.0 in
      let second = λ (t u : Trace).
        init_idt-absent addr (init_gdt addr (k.tables, t)).0 u
          (ap (λ l. length l) (first t).3 ∙ boot.gates.1) in
      ((ap (map segment) (second _ _).3 ∙ (first _).0), (second _ _).0)

  finished-IsRunning :
      (ide : Ide) (v u : Trace) (k : Kernel)
      → Are32 (cpuid 0x40000000)
      → 36 < length stack
      → IsFilled 4 ide
      → IsBootState k
      → let m : Memory = record k.memory { memory_end = memory_top mbi es k.memory } in
        IsRunning cpuid mbi cmdline es k (finished ide v m u k)
  unfolding say_complete print_all set_up_scsi set_up_processor set_up_tables begin set_up_output
      check_verbose
  finished-IsRunning ide v u k small room filled boot = record {
    segments = (tables_set k boot).0;
    gates = (tables_set k boot).1;
    memory = refl;
    hyperv = init_hyperv-vendor cpuid k.hyperv _ small;
    processor = unfold init_hwinfo in refl;
    drives = filled;
    disks = λ i cdb len lt.
        (devices_served dev stack k.scsi _ cdb len room boot.controllers boot.disks).1 i lt;
    verbose = refl;
    shown = set_up_output-Fits dev cpuid addr stack fuel mbi cmdline k boot.shown;
    last = (_, refl);
  }

  -- From the tables on, with the results of the memory and of the drives.
  pub run_returns :
      (k : Kernel)
      → Answers dev fuel
      → HasMap mbi (ram_of (prepared k)) es
      → length k.ide.ide_devices ≡ 4
      → (ide : Ide) × (v : Trace) × (u : Trace) × (run dev cpuid addr stack fuel mbi cmdline
            (begin dev cpuid addr stack fuel mbi cmdline k)
          ≡ some (finished ide v (record k.memory { memory_end = memory_top mbi es k.memory }) u k))
        × IsFilled 4 ide
  unfolding run
  run_returns k answers mapped size =
      let p : Kernel = prepared k in
      let m : Memory = record k.memory { memory_end = memory_top mbi es k.memory } in
      let (u, e) = init_memory_returns es (ram_of p) mbi p.memory p.trace mapped in
      let read : init_memory (suc mbi.mmap_length) (ram_of p) mbi (p.memory, p.trace)
          ≡ some (m, u) =
        unfold set_up_tables begin set_up_output in e in
      let q : Kernel = processed m u k in
      let i = init_ide q.ide q.trace in
      let (r, f, filled) =
        ide_detect_devices-IsFilled dev fuel i.0 i.1
          (unfold init_ide set_up_processor set_up_tables begin set_up_output in size)
          (unfold init_ide in refl) answers in
      (r.0, r.1, u, rw (read, f) refl, filled)

-- With the right magic number `kernel_main` comes to its last loop, if the kernel starts with arrays of their sizes and
-- the cursor on a screen of an accepted size, the buffer of an inquiry has its 36 bytes and one behind them, the drives
-- answer and the serial transmitter drains, each within the fuel, the registers have 32 bits, and the map of the memory,
-- should there be one, is laid out in the memory and ends below 4 GiB. By then the five flat segments are set, and no
-- interrupt gate is present; the end of memory is that of the map or of `mem_upper`, and the allocators start where they
-- did; Hyper-V is detected exactly if the processor says so, and the processor is known; the table of IDE drives is
-- filled in order, and each SCSI device in its table is found by its index and takes commands; verbose mode is on if it
-- was, or if the command line has the word; the cursor stands on a screen of an accepted size; the last thing done is to
-- report that the kernel is running; and all texts for the serial port have been sent to it.
pub kernel_main-IsRunning :
    (dev : Device) (cpuid : ℕ → Registers) (addr : Addresses) (stack : Bytes) (fuel : ℕ)
    (mbi : MultibootInfo) (cmdline : Option Bytes) (es : List MmapEntry) (k : Kernel)
    → Are32 (cpuid 0x40000000)
    → 36 < length stack
    → Answers dev fuel
    → Drains dev fuel
    → HasMap mbi (ram_of (prepared dev cpuid addr stack fuel mbi cmdline es k)) es
    → IsBootState k
    → (k' : Kernel) × (all : Trace) × (kernel_main dev cpuid addr stack fuel 0x2BADB002 mbi cmdline
          k
        ≡ some (halting k' all))
      × IsRunning cpuid mbi cmdline es k k'
      × (carry_out dev fuel k'.serial_initialized k'.trace ≡ some all)
unfolding kernel_main end_with
kernel_main-IsRunning dev cpuid addr stack fuel mbi cmdline es k small room answers drains mapped
      boot =
    let (ide, v, u, e, filled) =
      run_returns dev cpuid addr stack fuel mbi cmdline es k answers mapped boot.drives in
    let m : Memory = record k.memory { memory_end = memory_top mbi es k.memory } in
    let k' : Kernel = finished dev cpuid addr stack fuel mbi cmdline es ide v m u k in
    let (all, sent) = carry_out-Returns dev fuel k'.serial_initialized k'.trace drains in
    (
      k',
      all,
      rw e (rw sent refl),
      finished-IsRunning dev cpuid addr stack fuel mbi cmdline es ide v u k small room filled boot,
      sent,
    )
