-- ===== src/Tests/Disks.antt =====
-- A PCI bus with BusLogic adapters, and their devices.
use hueos.Base.{
  ℕ, ◌+◌, ◌*◌, ◌/◌, ◌%◌, ◌^◌, ◌≤◌, ◌<◌, ◌≡◌, ◌≢◌, ◌⊎◌, refl, arith, inl, [], ◌∷◌, true, ltb,
  if◌then◌else◌, ◌==◌, Bytes, codes, length, get_or, set, replicate, some, for_up, for_cells, zero,
  suc, holds_below, holds_below-lt, not,
}
use hueos.Io.{Trace, Device, out32}
use hueos.Scsi.Controllers.{ScsiDevice, Scsi, no_controller, no_scsi_device, boot_scsi, init_scsi}
use hueos.Scsi.Texts.{scsi_string_copy}
use hueos.Scsi.Texts.Copied.{scsi_string_copy-text}
use hueos.Scsi.Texts.Read.{unequal_of}
use hueos.Scsi.Devices.{
  scsi_execute_simple_command, scsi_inquiry, scsi_scan_devices, scan_controller, scan_target,
  take_device, add_device, device_entry,
}
use hueos.Scsi.Devices.Inquiry.{IsAnswer, Sized, scsi_inquiry-IsAnswer}
use hueos.Scsi.Devices.Scanned.{IsTable, IsScanned, scsi_scan_devices-IsScanned}
use hueos.Scsi.Devices.Served.{devices_served}
use hueos.Scsi.Access.{scsi_get_device}
use hueos.Scsi.Listing.{scsi_size_mb, scsi_size_mb-mod}

-- Every slot holds an adapter at port 0x330.
pub answer : Trace → ℕ
answer (out32 port a ∷ t) =
    if a % 256 == 0 then 0x1040104B else if a % 256 == 8 then 0x01000000 else 0x330
answer t = 0

abbrev pub adapters : Device
adapters = record { read8 = λ t port. 8; read16 = λ t port. 0; read32 = λ t port. answer t }

abbrev pub stack : Bytes
stack = replicate 40 0xAA

abbrev one_adapter : Scsi
one_adapter = record boot_scsi {
  controllers =
      set (replicate 4 no_controller) 0 (record no_controller { type = 1; io_base = 0x330 });
  controller_count = 1;
}

sizes_at : (k : ℕ) → Sized (get_or (replicate 16 no_scsi_device) k no_scsi_device)
sizes_at k = every 16 k
  where
    every : (n k : ℕ) → Sized (get_or (replicate n no_scsi_device) k no_scsi_device)
    every zero k = (refl, refl, refl)
    every (suc n) zero = (refl, refl, refl)
    every (suc n) (suc k) = every n k

one_adapter-IsTable : IsTable one_adapter
one_adapter-IsTable = record { slots = refl; count = omega arith; sizes = λ k lt. sizes_at k }

pub boot_scsi-IsTable : IsTable boot_scsi
boot_scsi-IsTable = record { slots = refl; count = omega arith; sizes = λ k lt. sizes_at k }

scsi_scan_devices-IsScanned_example :
    IsScanned one_adapter (1 * 8) ((scsi_scan_devices stack (one_adapter, [])).0)
scsi_scan_devices-IsScanned_example =
    scsi_scan_devices-IsScanned stack one_adapter [] (omega arith) (omega arith) one_adapter-IsTable

scan_counts : (scsi_scan_devices stack (one_adapter, [])).0.device_count ≡ 8
unfolding scsi_scan_devices scan_controller scan_target take_device add_device scsi_inquiry for_up
    for_cells
scan_counts = refl

third_device :
    get_or (scsi_scan_devices stack (one_adapter, [])).0.scsi_devices 2 no_scsi_device ≡ record {
      controller_id = 0;
      target = 2;
      lun = 0;
      type = 0;
      block_count = 204800;
      block_size = 512;
      vendor = 0x51 ∷ 0x45 ∷ 0x4D ∷ 0x55 ∷ 0 ∷ 0 ∷ 0 ∷ 0 ∷ 0 ∷ [];
      product =
          set
            (set
              (set
                (set (set (set (set (set (replicate 17 0) 0 b'H') 1 b'A') 2 b'R') 3 b'D') 4 b'D')
                5
                b'I')
              6
              b'S')
            7
            b'K';
      revision = b'2' ∷ b'.' ∷ b'5' ∷ b'+' ∷ 0 ∷ [];
    }
unfolding scsi_scan_devices scan_controller scan_target take_device add_device scsi_inquiry
    device_entry for_up for_cells
third_device = refl

devices_served_example :
    let r = (scsi_scan_devices stack (init_scsi adapters (boot_scsi, []))).0 in
    (r.device_count ≡ (if ltb (r.controller_count * 8) 16 then r.controller_count * 8 else 16))
    × ((k : ℕ)
        → k < r.device_count
        → let d = get_or r.scsi_devices k no_scsi_device in
          (scsi_get_device r k ≡ some d)
          × (scsi_execute_simple_command r d.controller_id d.target d.lun (0 ∷ []) 1 ≡ true))
devices_served_example =
    devices_served adapters stack boot_scsi [] (0 ∷ []) 1 (omega arith) refl boot_scsi-IsTable

scsi_inquiry-IsAnswer_example :
    ((scsi_inquiry 0 3 0 stack).0 ≡ true) × IsAnswer stack ((scsi_inquiry 0 3 0 stack).1)
scsi_inquiry-IsAnswer_example = scsi_inquiry-IsAnswer 0 3 0 stack (omega arith)

scsi_size_mb-mod_example :
    (let d : ScsiDevice = record no_scsi_device { block_count = 0x800001; block_size = 512 } in
      (scsi_size_mb d ≡ 0x800001 * 512 / 2 ^ 20 % 4096)
      × (0x800001 * 512 < 2 ^ 32 → scsi_size_mb d ≡ 0x800001 * 512 / 2 ^ 20)
      × (2 ^ 32 ≤ 0x800001 * 512 → scsi_size_mb d ≢ 0x800001 * 512 / 2 ^ 20))
scsi_size_mb-mod_example =
    scsi_size_mb-mod (record no_scsi_device { block_count = 0x800001; block_size = 512 })

qemu_chars : (j : ℕ) → j < 8 → get_or (codes "QEMU    ") (0 + j) 0 ≢ 0
unfolding holds_below
qemu_chars j lt =
    let plain : 0 + j ≡ j = omega arith in
    rw plain (
      unequal_of (get_or (codes "QEMU    ") j 0) 0
        (holds_below-lt 8 (λ j. not (get_or (codes "QEMU    ") j 0 == 0)) j refl lt))

scsi_string_copy-text_example :
    (let src = codes "QEMU    " in
      let dest : Bytes = replicate 9 0xAA in
      let result = scsi_string_copy dest 0 src 0 8 in
      ((k j : ℕ)
        → k ≤ j
        → j < 8
        → get_or src (0 + j) 0 ≢ b' '
        → get_or result (0 + k) 0 ≡ get_or src (0 + k) 0)
      × (get_or result (0 + 8) 0 ≡ 0)
      × ((k : ℕ)
          → ◌≡◌ {A = ℕ} 8 8
          → k < 8
          → ((j : ℕ) → k ≤ j → j < 8 → get_or src (0 + j) 0 ≡ b' ')
          → get_or result (0 + k) 0 ≡ 0)
      × ((p : ℕ) → (p < 0) ⊎ (0 + 8 < p) → get_or result p 0 ≡ get_or dest p 0)
      × (length result ≡ length dest))
scsi_string_copy-text_example =
    scsi_string_copy-text (replicate 9 0xAA) 0 (codes "QEMU    ") 0 8 8 (omega arith) (omega arith)
      qemu_chars (inl refl)

qemu_copied :
    scsi_string_copy (replicate 9 0xAA) 0 (codes "QEMU    ") 0 8
    ≡ 0x51 ∷ 0x45 ∷ 0x4D ∷ 0x55 ∷ 0 ∷ 0 ∷ 0 ∷ 0 ∷ 0 ∷ []
unfolding scsi_string_copy
qemu_copied = refl
