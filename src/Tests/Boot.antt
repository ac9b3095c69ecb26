-- ===== src/Tests/Boot.antt =====
-- The kernel from its start on a machine of the other tests, and the processor and bus of that machine.
use hueos.Serial.{carry_out}
use hueos.Io.{Trace}
use hueos.Base.{
  ℕ, ◌≤◌, ◌≡◌, refl, arith, [], ◌∷◌, false, some, codes, length-replicate, get_or, replicate, ◌==◌,
  if◌then◌else◌, for_up,
}
use hueos.Io.{Device}
use hueos.Multiboot.{MultibootInfo}
use hueos.Hyperv.{Registers}
use hueos.Framebuffer.{boot_framebuffer}
use hueos.Terminal.{boot_terminal}
use hueos.Memory.{boot_memory}
use hueos.Ide.Detection.{boot_ide}
use hueos.Scsi.{pci_read_config_word, pci_read_config_byte}
use hueos.Scsi.Controllers.{boot_scsi}
use hueos.Hwinfo.{CpuInfo, put_register, detect_cpu}
use hueos.Hwinfo.Identity.{IsVendor, IsSignature, detect_cpu_identity}
use hueos.Hwinfo.Bus.{pci_read_config, vendor_of, device_of, class_of, subclass_of, scan_functions}
use hueos.Hwinfo.Bus.Decoding.{decoding_agrees}
use hueos.Hwinfo.Bus.Found.{count_below, present, scan_functions-count}
use hueos.Main.Kernel.{Kernel, halting, kernel_main}
use hueos.Main.Kernel.Running.{IsBootState, IsRunning, kernel_main-IsRunning}
use hueos.Gdt.Encoding.{absent}
use hueos.Tests.Tables.{tables, addresses}
use hueos.Tests.Line.{line, line-Drains, line-Answers}
use hueos.Tests.Disks.{boot_scsi-IsTable, stack}
use hueos.Tests.Entry.{guest, off}
use hueos.Tests.Storage.{info}
use hueos.Tests.Video.{boot-Fits}

abbrev no_cpu : CpuInfo
no_cpu = record {
  vendor_id = replicate 4 0;
  vendor_string = replicate 13 0;
  family = 0;
  model = 0;
  stepping = 0;
  features_edx = 0;
  features_ecx = 0;
}

abbrev pub kernel : Kernel
kernel = record {
  serial_initialized = false;
  kernel_verbose_mode = false;
  console = record { fb = boot_framebuffer (λ _. 0); term = boot_terminal (λ _. 0) };
  tables = tables;
  memory = boot_memory;
  hyperv = off;
  cpu_info = no_cpu;
  ide = boot_ide;
  scsi = boot_scsi;
  trace = [];
}

-- A command line and the two sizes, but no map.
abbrev pub plain : MultibootInfo
plain = record info { flags = 0x05 }

kernel-IsBootState : IsBootState kernel
kernel-IsBootState = record {
  gates = (refl, length-replicate 256 absent);
  drives = refl;
  controllers = refl;
  disks = boot_scsi-IsTable;
  shown = boot-Fits;
}

kernel_main-IsRunning_example :
    (k' : Kernel) × (all : Trace) × (kernel_main line guest addresses stack 1 0x2BADB002 plain
        (some (codes "verbose"))
        kernel
      ≡ some (halting k' all))
    × IsRunning guest plain (some (codes "verbose")) [] kernel k'
    × (carry_out line 1 k'.serial_initialized k'.trace ≡ some all)
kernel_main-IsRunning_example =
    kernel_main-IsRunning line guest addresses stack 1 plain (some (codes "verbose")) [] kernel
      (omega arith, omega arith, omega arith) (omega arith) line-Answers line-Drains
      (λ there. absurd (there refl)) kernel-IsBootState

-- A processor of family 6, model 10, stepping 9.
abbrev intel : ℕ → Registers
intel leaf = record {
  eax = if leaf == 0 then 13 else 0x6A9;
  ebx = 0x756E6547;
  ecx = 0x6C65746E;
  edx = 0x49656E69;
}

detect_cpu_identity_example :
    let d = detect_cpu intel no_cpu in
    IsVendor (intel 0) d.vendor_string
    × ((get_or d.vendor_id 0 0 ≡ 0x756E6547)
        × (get_or d.vendor_id 1 0 ≡ 0x49656E69)
        × (get_or d.vendor_id 2 0 ≡ 0x6C65746E)
        × (get_or d.vendor_id 3 0 ≡ 0))
    × (1 ≤ 13 → IsSignature (intel 1) d)
    × (◌≡◌ {A = ℕ} 13 0
        → (d.family ≡ 0)
          × (d.model ≡ 0)
          × (d.stepping ≡ 0)
          × (d.features_edx ≡ 0)
          × (d.features_ecx ≡ 0))
detect_cpu_identity_example = detect_cpu_identity intel no_cpu refl refl

genuine :
    (detect_cpu intel no_cpu).vendor_string
    ≡ b'G' ∷ b'e' ∷ b'n' ∷ b'u' ∷ b'i' ∷ b'n' ∷ b'e' ∷ b'I' ∷ b'n' ∷ b't' ∷ b'e' ∷ b'l' ∷ 0 ∷ []
unfolding detect_cpu put_register for_up
genuine = refl

-- A bridge that has the same adapter everywhere.
abbrev same_bridge : Device
same_bridge = record { read8 = λ t port. 0; read16 = λ t port. 0; read32 = λ t port. 0x1040104B }

decoding_agrees_example :
    (let vendor_device = (pci_read_config same_bridge 1 2 3 0 []).0 in
      let class_rev = (pci_read_config same_bridge 1 2 3 0x08 []).0 in
      (vendor_of vendor_device ≡ (pci_read_config_word same_bridge 1 2 3 0x00 []).0)
      × (device_of vendor_device ≡ (pci_read_config_word same_bridge 1 2 3 0x02 []).0)
      × (class_of class_rev ≡ (pci_read_config_byte same_bridge 1 2 3 0x0B []).0)
      × (subclass_of class_rev ≡ (pci_read_config_byte same_bridge 1 2 3 0x0A []).0))
decoding_agrees_example =
    decoding_agrees same_bridge (λ _. 0x1040104B) 1 2 3 [] [] [] [] [] [] (λ t a h. refl)
      (omega arith) (omega arith) (omega arith)

scan_functions-count_example :
    (scan_functions same_bridge (0, [])).0 ≡ count_below 2048 (present (λ _. 0x1040104B))
scan_functions-count_example = scan_functions-count same_bridge (λ _. 0x1040104B) [] (λ t a h. refl)
