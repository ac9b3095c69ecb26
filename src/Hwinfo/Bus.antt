-- ===== src/Hwinfo/Bus.antt =====
-- `scan_pci_bus` and the listing of kernel/hwinfo.c.
pub mod Found
pub mod Decoding
use hueos.Base.{
  ℕ, suc, ◌+◌, ◌*◌, ◌/◌, ◌%◌, ◌∷◌, ◌||◌, if◌then◌else◌, ◌==◌, bit_and, bit_or, ◌>>>◌, ◌<<<◌, u8,
  u16, u32, for_up, for_cells,
}
use hueos.Io.{Trace, Device, outl, inl, to_terminal, to_serial, terminal_char}
use hueos.Hwinfo.{CpuInfo, print_cpu_info}

module _ (dev : Device) where
  unfoldable pub pci_read_config : ℕ → ℕ → ℕ → ℕ → Trace → ℕ × Trace
  pci_read_config bus slot func offset t =
      let address = u32 (
        bit_or
          (bit_or (bit_or (bit_or (bus <<< 16) (slot <<< 11)) (func <<< 8)) (bit_and offset 0xFC))
          0x80000000) in
      inl dev 0xCFC (outl 0xCF8 address t)

-- The fields of the double words at 0 and 8.
unfoldable pub vendor_of : ℕ → ℕ
vendor_of vendor_device = u16 (bit_and vendor_device 0xFFFF)

unfoldable pub device_of : ℕ → ℕ
device_of vendor_device = u16 (bit_and (vendor_device >>> 16) 0xFFFF)

unfoldable pub class_of : ℕ → ℕ
class_of class_rev = u8 (bit_and (class_rev >>> 24) 0xFF)

unfoldable pub subclass_of : ℕ → ℕ
subclass_of class_rev = u8 (bit_and (class_rev >>> 16) 0xFF)

-- `switch (class_code)`
unfoldable pub print_class : ℕ → Trace → Trace
print_class class_code t =
    if class_code == 0x00
    then to_terminal "Unclassified" t
    else if class_code == 0x01
    then to_terminal "Mass Storage" t
    else if class_code == 0x02
    then to_terminal "Network" t
    else if class_code == 0x03
    then to_terminal "Display" t
    else if class_code == 0x04
    then to_terminal "Multimedia" t
    else if class_code == 0x05
    then to_terminal "Memory" t
    else if class_code == 0x06
    then to_terminal "Bridge" t
    else if class_code == 0x07
    then to_terminal "Communication" t
    else if class_code == 0x08
    then to_terminal "System" t
    else if class_code == 0x09
    then to_terminal "Input" t
    else if class_code == 0x0C
    then to_terminal "Serial Bus" t
    else to_terminal "Other" t

-- `switch (subclass)` of a mass storage controller.
unfoldable pub print_subclass : ℕ → Trace → Trace
print_subclass subclass t =
    if subclass == 0x01
    then to_terminal " (IDE)" t
    else if subclass == 0x05
    then to_terminal " (ATA)" t
    else if subclass == 0x06
    then to_terminal " (SATA)" t
    else if subclass == 0x07
    then to_terminal " (SAS)" t
    else if subclass == 0x08
    then to_terminal " (NVMe)" t
    else t

-- The line of a function.
unfoldable pub print_function : ℕ → ℕ → ℕ → ℕ → Trace → Trace
unfolding print_class print_subclass class_of subclass_of
print_function bus slot func class_rev t =
    let class_code = class_of class_rev in
    let t = to_terminal "  " t in
    let t = terminal_char (b'0' + bus % 10) ∷ terminal_char (b'0' + bus / 10) ∷ t in
    let t = to_terminal ":" t in
    let t = terminal_char (b'0' + slot % 10) ∷ terminal_char (b'0' + slot / 10) ∷ t in
    let t = terminal_char (b'0' + func) ∷ to_terminal "." t in
    let t = print_class class_code (to_terminal " - " t) in
    let named = print_subclass (subclass_of class_rev) t in
    to_terminal "\n" (if class_code == 0x01 then named else t)

module _ (dev : Device) where
  -- A round of the inner loop: the count of the functions found, and the trace.
  unfoldable pub probe_function : ℕ → ℕ → ℕ → ℕ × Trace → ℕ × Trace
  probe_function bus slot func (device_count, t) =
      let (vendor_device, t) = pci_read_config dev bus slot func 0 t in
      let (class_rev, u) = pci_read_config dev bus slot func 0x08 t in
      let vendor_id = vendor_of vendor_device in
      if (vendor_id == 0xFFFF) || (vendor_id == 0x0000)
      then (device_count, t)
      else (device_count + 1, print_function bus slot func class_rev u)

  -- The three loops.
  unfoldable pub scan_functions : ℕ × Trace → ℕ × Trace
  scan_functions r = for_up 8 0 (λ bus. for_cells 32 8 (probe_function bus)) r

  unfoldable pub scan_pci_bus : Trace → Trace
  unfolding scan_functions
  scan_pci_bus t =
      let t = to_terminal "============\n" (to_terminal "\nPCI Devices:\n" t) in
      let (device_count, t) = scan_functions (0, to_serial "\nPCI Devices:\n" t) in
      if device_count == 0 then to_terminal "No PCI devices found\n" t else t

  unfoldable pub print_detailed_hardware_info : CpuInfo → Trace → Trace
  unfolding print_cpu_info scan_pci_bus
  print_detailed_hardware_info c t =
      let t = to_terminal "========================================\n" (to_terminal "\n" t) in
      let t = to_terminal "  DETAILED HARDWARE INFORMATION\n" t in
      let t = to_terminal "========================================\n" t in
      let t = to_serial "\n========================================\n" t in
      let t = to_serial "DETAILED HARDWARE INFORMATION\n" t in
      let t = to_serial "========================================\n" t in
      scan_pci_bus (print_cpu_info c t)
