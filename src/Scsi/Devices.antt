-- ===== src/Scsi/Devices.antt =====
-- kernel/scsi.c: the simulated commands and the scan for devices. The commands fill descriptor blocks (`cdb`) that
-- nothing reads; these are left out. A local variable begins with what the stack holds, which is a parameter.
pub mod Scanned
pub mod Inquiry
pub mod Served
use hueos.Base.{
  ℕ, ◌+◌, ◌∷◌, [], Bool, true, false, ◌&&◌, not, if◌then◌else◌, ltb, leb, ◌==◌, u8, u32, Bytes,
  codes, get_or, set, for_up, for_cells,
}
use hueos.Io.{Trace, to_serial, serial_text}
use hueos.Terminal.{before_nul}
use hueos.Scsi.{swap32}
use hueos.Scsi.Controllers.{Controller, ScsiDevice, Scsi, no_controller, no_scsi_device}
use hueos.Scsi.Texts.{scsi_string_copy}

-- The command itself is neither sent nor looked at.
unfoldable pub scsi_execute_simple_command : Scsi → ℕ → ℕ → ℕ → Bytes → ℕ → Bool
scsi_execute_simple_command s controller_id target lun cdb cdb_len =
    if leb s.controller_count controller_id
    then false
    else (get_or s.controllers controller_id no_controller).type == 0x01

-- The fields of `scsi_inquiry_t` by their place: the vendor at 8, the product at 16, the revision at 32. The structure
-- ends at 36.
unfoldable pub scsi_inquiry : ℕ → ℕ → ℕ → Bytes → Bool × Bytes
unfolding scsi_string_copy
scsi_inquiry controller_id target lun inquiry =
    let inquiry = set (set (set (set (set inquiry 0 0x00) 1 0) 2 2) 3 2) 4 31 in
    let inquiry = scsi_string_copy inquiry 8 (codes "QEMU    ") 0 8 in
    let inquiry = scsi_string_copy inquiry 16 (codes "HARDDISK        ") 0 16 in
    (true, scsi_string_copy inquiry 32 (codes "2.5+") 0 4)

-- The fields `last_lba` and `block_size` of the capacity.
unfoldable pub scsi_read_capacity : ℕ → ℕ → ℕ → Bool × ℕ × ℕ
unfolding swap32
scsi_read_capacity controller_id target lun = (true, swap32 204799, swap32 512)

-- The entry for a device, over what its slot held before.
unfoldable pub device_entry : ℕ → ℕ → ℕ → Bytes → ScsiDevice → ScsiDevice
unfolding scsi_read_capacity swap32
device_entry ctrl target lun inquiry old =
    let (known, last_lba, block_size) = scsi_read_capacity (u8 ctrl) target lun in
    let kind = get_or inquiry 0 0 in
    record {
      controller_id = u8 ctrl;
      target = target;
      lun = lun;
      type = kind;
      block_count =
          if kind == 0x00
          then (if known then u32 (swap32 last_lba + 1) else old.block_count)
          else 0;
      block_size =
          if kind == 0x00 then (if known then swap32 block_size else old.block_size) else 0;
      vendor = scsi_string_copy old.vendor 0 inquiry 8 8;
      product = scsi_string_copy old.product 0 inquiry 16 16;
      revision = scsi_string_copy old.revision 0 inquiry 32 4;
    }

-- The device goes to the next slot, and is counted twice: in all, and for its controller.
unfoldable pub add_device : ℕ → ℕ → ScsiDevice → Scsi × Trace → Scsi × Trace
unfolding before_nul
add_device ctrl target new (s, t) =
    let c = get_or s.controllers ctrl no_controller in
    let t = serial_text (u8 (b'0' + target) ∷ []) ∷ to_serial "  Found device at target " t in
    let t = to_serial " " (serial_text (before_nul new.vendor) ∷ to_serial ": " t) in
    let t = to_serial "\n" (serial_text (before_nul new.product) ∷ t) in
    (
      record s {
        scsi_devices = set s.scsi_devices s.device_count new;
        device_count = s.device_count + 1;
        controllers = set s.controllers ctrl (record c { device_count = u8 (c.device_count + 1) });
      },
      t,
    )

-- A device answered: it is taken if the table has room.
unfoldable pub take_device : ℕ → ℕ → ℕ → Bytes → Scsi × Trace → Scsi × Trace
take_device ctrl target lun inquiry (s, t) =
    let old = get_or s.scsi_devices s.device_count no_scsi_device in
    if ltb s.device_count 16
    then add_device ctrl target (device_entry ctrl target lun inquiry old) (s, t)
    else (s, t)

module _ (stack : Bytes) where
  -- A round of the two inner loops.
  unfoldable pub scan_target : ℕ → ℕ → ℕ → Scsi × Trace → Scsi × Trace
  scan_target ctrl target lun (s, t) =
      let (answered, inquiry) = scsi_inquiry (u8 ctrl) target lun stack in
      let kind = get_or inquiry 0 0 in
      if answered && (not (kind == 0x7F) && not (kind == 0x7F))
      then take_device ctrl target lun inquiry (s, t)
      else (s, t)

  -- A round of the outer loop.
  unfoldable pub scan_controller : ℕ → Scsi × Trace → Scsi × Trace
  scan_controller ctrl (s, t) =
      let t = serial_text (u8 (b'0' + ctrl) ∷ []) ∷ to_serial "Scanning controller " t in
      for_cells 8 1 (scan_target ctrl) (s, to_serial "\n" t)

  unfoldable pub scsi_scan_devices : Scsi × Trace → Scsi × Trace
  scsi_scan_devices (s, t) =
      let (s, t) =
        for_up s.controller_count 0 scan_controller
          (s, to_serial "Scanning for SCSI devices...\n" t) in
      let t =
        serial_text (u8 (b'0' + s.device_count) ∷ [])
        ∷ to_serial "SCSI device scan complete. Found " t in
      (s, to_serial " device(s)\n" t)
