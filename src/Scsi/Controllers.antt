-- ===== src/Scsi/Controllers.antt =====
-- `init_scsi` of kernel/scsi.c. Its early exit over the buses needs `bus == 0` and `bus > 3`, and is never taken.
pub mod Found
use hueos.Base.{
  ℕ, suc, ◌+◌, ◌∷◌, [], List, Bool, true, false, ◌&&◌, ◌||◌, if◌then◌else◌, ltb, ◌==◌, u8, u16,
  bit_and, get_or, set, replicate, for_cells, Bytes,
}
use hueos.Io.{Trace, Device, to_serial, serial_text}
use hueos.Serial.{hex_buffer}
use hueos.Scsi.{pci_read_config_word, pci_read_config_dword, pci_read_config_byte, buslogic_init}

-- `scsi_controller_t`
pub record Controller : Type 0 where
  pub type : ℕ
  pub io_base : ℕ
  pub mmio_base : ℕ
  pub irq : ℕ
  pub device_count : ℕ

-- `scsi_device_t`
pub record ScsiDevice : Type 0 where
  pub controller_id : ℕ
  pub target : ℕ
  pub lun : ℕ
  pub type : ℕ
  pub block_count : ℕ
  pub block_size : ℕ
  pub vendor : Bytes
  pub product : Bytes
  pub revision : Bytes

-- The static variables.
pub record Scsi : Type 0 where
  pub controllers : List Controller
  pub controller_count : ℕ
  pub scsi_devices : List ScsiDevice
  pub device_count : ℕ

abbrev pub no_controller : Controller
no_controller = record { type = 0; io_base = 0; mmio_base = 0; irq = 0; device_count = 0 }

abbrev pub no_scsi_device : ScsiDevice
no_scsi_device = record {
  controller_id = 0;
  target = 0;
  lun = 0;
  type = 0;
  block_count = 0;
  block_size = 0;
  vendor = replicate 9 0;
  product = replicate 17 0;
  revision = replicate 5 0;
}

-- The static variables before the first call.
abbrev pub boot_scsi : Scsi
boot_scsi = record {
  controllers = replicate 4 no_controller;
  controller_count = 0;
  scsi_devices = replicate 16 no_scsi_device;
  device_count = 0;
}

module _ (dev : Device) where
  -- A BusLogic adapter at an I/O address is initialised and gets the next slot, if there is one.
  unfoldable pub add_buslogic : ℕ → ℕ → ℕ → Scsi × Trace → Scsi × Trace
  add_buslogic bus slot io_base (s, t) =
      let (ready, t) = buslogic_init dev io_base t in
      let (irq, u) = pci_read_config_byte dev bus slot 0 0x3C t in
      let new : Controller = record {
        type = 0x01;
        io_base = io_base;
        mmio_base = 0;
        irq = irq;
        device_count = 0;
      } in
      let added : Scsi = record s {
        controllers = set s.controllers s.controller_count new;
        controller_count = s.controller_count + 1;
      } in
      if ready then (if ltb s.controller_count 4 then (added, u) else (s, t)) else (s, t)

  -- What is done by the type of a SCSI controller with an I/O address.
  unfoldable pub identify_controller : ℕ → ℕ → ℕ → ℕ → ℕ → Scsi × Trace → Scsi × Trace
  identify_controller bus slot vendor_id device_id io_base (s, t) =
      let lsi =
        to_serial "  Note: LSI Logic not yet fully supported\n"
          (to_serial "  Type: LSI Logic\n" t) in
      if (vendor_id == 0x104B) && (device_id == 0x1040)
      then add_buslogic bus slot io_base (s, to_serial "  Type: BusLogic BT-958\n" t)
      else if vendor_id == 0x1000
      then (if (device_id == 0x0012) || (device_id == 0x0030) then (s, lsi) else (s, t))
      else (s, t)

  -- A controller without an I/O address is passed over.
  unfoldable pub check_address : ℕ → ℕ → ℕ → ℕ → ℕ → Scsi × Trace → Scsi × Trace
  check_address bus slot vendor_id device_id io_base (s, t) =
      if io_base == 0
      then (s, to_serial "  Invalid I/O base address\n" t)
      else identify_controller bus slot vendor_id device_id io_base (s, t)

  -- A function of class 01h and subclass 00h: the messages and the base address.
  unfoldable pub take_controller : ℕ → ℕ → ℕ → ℕ → Scsi × Trace → Scsi × Trace
  take_controller bus slot vendor_id device_id (s, t) =
      let t = serial_text (hex_buffer vendor_id) ∷ to_serial "Found SCSI controller: Vendor=0x" t in
      let t = to_serial "\n" (serial_text (hex_buffer device_id) ∷ to_serial " Device=0x" t) in
      let (bar0, t) = pci_read_config_dword dev bus slot 0 0x10 t in
      check_address bus slot vendor_id device_id (u16 (bit_and bar0 0xFFFFFFF0)) (s, t)

  -- Class 01h, subclass 00h.
  unfoldable pub check_class : ℕ → ℕ → ℕ → ℕ → ℕ → ℕ → Scsi × Trace → Scsi × Trace
  check_class bus slot vendor_id device_id class_code subclass (s, t) =
      if (class_code == 0x01) && (subclass == 0x00)
      then take_controller bus slot vendor_id device_id (s, t)
      else (s, t)

  -- A round of the two loops.
  unfoldable pub probe_slot : ℕ → ℕ → Scsi × Trace → Scsi × Trace
  probe_slot bus slot (s, t) =
      let (vendor_id, t) = pci_read_config_word dev bus slot 0 0x00 t in
      let (device_id, u) = pci_read_config_word dev bus slot 0 0x02 t in
      let (class_code, u) = pci_read_config_byte dev bus slot 0 0x0B u in
      let (subclass, u) = pci_read_config_byte dev bus slot 0 0x0A u in
      if (vendor_id == 0xFFFF) || (vendor_id == 0x0000)
      then (s, t)
      else check_class bus slot vendor_id device_id class_code subclass (s, u)

  unfoldable pub init_scsi : Scsi × Trace → Scsi × Trace
  init_scsi (s, t) =
      let start : Scsi = record s { controller_count = 0; device_count = 0 } in
      let (s, t) =
        for_cells 256 32 probe_slot (start, to_serial "Scanning for SCSI controllers...\n" t) in
      let counted = serial_text (u8 (b'0' + s.controller_count) ∷ []) ∷ to_serial "Detected " t in
      if s.controller_count == 0
      then (s, to_serial "No SCSI controllers detected\n" t)
      else (s, to_serial " SCSI controller(s)\n" counted)
