-- ===== src/Scsi/Devices/Scanned.antt =====
-- What `scsi_scan_devices` of kernel/scsi.c leaves in the table of devices.
use hueos.Base.{
  ℕ, suc, ◌+◌, ◌*◌, ◌/◌, ◌%◌, ◌≤◌, ◌<◌, ◌≡◌, ◌∙◌, refl, sym, arith, Bool-cases, inl, inr, ltb,
  if◌then◌else◌, Bytes, length, length-set, get_or, get_or-set_self, get_or-set_ne, ℕ_discrete,
  for_up_inv, for_cells_inv, ltb→lt, u8,
}
use hueos.Io.{Trace}
use hueos.Scsi.Controllers.{ScsiDevice, Scsi, no_scsi_device}
use hueos.Scsi.Texts.Copied.{length-scsi_string_copy}
use hueos.Scsi.Devices.{
  device_entry, add_device, take_device, scan_target, scan_controller, scsi_scan_devices,
}
use hueos.Scsi.Devices.Inquiry.{
  IsAnswer, IsEntry, Sized, scsi_inquiry-IsAnswer, device_entry-IsEntry,
}

-- The table has sixteen slots with arrays of their sizes, and the count stays within it.
pub record IsTable (s : Scsi) : Type 0 where
  pub slots : length s.scsi_devices ≡ 16
  pub count : s.device_count ≤ 16
  pub sizes : (k : ℕ) → k < 16 → Sized (get_or s.scsi_devices k no_scsi_device)

-- After `i` targets in all, eight to a controller: each has an entry of its own behind those from before, as long as
-- there is room.
pub record IsScanned (before : Scsi) (i : ℕ) (s : Scsi) : Type 0 where
  pub table : IsTable s
  pub controllers : s.controller_count ≡ before.controller_count
  pub total :
      s.device_count ≡ (if ltb (before.device_count + i) 16 then before.device_count + i else 16)
  pub entries :
      (j : ℕ)
      → j < i
      → before.device_count + j < 16
      → IsEntry (j / 8) (j % 8) (get_or s.scsi_devices (before.device_count + j) no_scsi_device)
  pub earlier :
      (k : ℕ)
      → k < before.device_count
      → get_or s.scsi_devices k no_scsi_device ≡ get_or before.scsi_devices k no_scsi_device

device_entry-Sized :
    (ctrl target lun : ℕ) (inquiry : Bytes) (old : ScsiDevice)
    → Sized old
    → Sized (device_entry ctrl target lun inquiry old)
unfolding device_entry
device_entry-Sized ctrl target lun inquiry old sizes = (
  length-scsi_string_copy old.vendor 0 inquiry 8 8 ∙ sizes.0,
  length-scsi_string_copy old.product 0 inquiry 16 16 ∙ sizes.1,
  length-scsi_string_copy old.revision 0 inquiry 32 4 ∙ sizes.2,
)

-- One more entry.
add_device-IsTable :
    (ctrl target : ℕ) (new : ScsiDevice) (s : Scsi) (t : Trace)
    → s.device_count < 16
    → Sized new
    → IsTable s
    → IsTable ((add_device ctrl target new (s, t)).0)
unfolding add_device
add_device-IsTable ctrl target new s t room sized h = record {
  slots = length-set s.scsi_devices s.device_count new ∙ h.slots;
  count = omega arith;
  sizes = λ k lt. elim (ℕ_discrete k s.device_count) [
    | yes e ↦
        rw
          (
            e,
            get_or-set_self s.scsi_devices s.device_count new no_scsi_device
                (omega (arith, h.slots)),
          )
          sized
    | no ne ↦
        rw (get_or-set_ne s.scsi_devices s.device_count k new no_scsi_device (λ e. ne (sym e)))
          (h.sizes k lt)
  ];
}

module _ (before : Scsi) where
  add_device-IsScanned :
      (i ctrl target : ℕ) (new : ScsiDevice) (s : Scsi) (t : Trace)
      → s.device_count < 16
      → Sized new
      → IsEntry (i / 8) (i % 8) new
      → IsScanned before i s
      → IsScanned before (suc i) ((add_device ctrl target new (s, t)).0)
  add_device-IsScanned i ctrl target new s t room sized entry h =
      let here : s.device_count ≡ before.device_count + i = ground (arith, h.total) in
      unfold add_device in
      record {
        table = add_device-IsTable ctrl target new s t room sized h.table;
        controllers = h.controllers;
        total = ground arith;
        entries = λ j lt fits. elim (ℕ_discrete j i) [
          | yes e ↦
              rw
                (
                  e,
                  sym here,
                  get_or-set_self s.scsi_devices s.device_count new no_scsi_device
                      (omega (arith, h.table.slots)),
                )
                entry
          | no ne ↦
              rw
                (get_or-set_ne s.scsi_devices s.device_count (before.device_count + j) new
                  no_scsi_device (omega arith))
                (h.entries j (omega arith) fits)
        ];
        earlier = λ k lt.
            get_or-set_ne s.scsi_devices s.device_count k new no_scsi_device (omega arith)
            ∙ h.earlier k lt;
      }

  -- A full table stays as it is.
  full-IsScanned :
      (i : ℕ) (s : Scsi) → 16 ≤ s.device_count → IsScanned before i s → IsScanned before (suc i) s
  full-IsScanned i s full h =
      let capped = h.table.count in
      let over : 16 ≤ before.device_count + i = ground (arith, h.total) in
      record {
        table = h.table;
        controllers = h.controllers;
        total = ground (arith, h.total);
        entries = λ j lt fits. h.entries j (omega arith) fits;
        earlier = h.earlier;
      }

  take_device-IsScanned :
      (i ctrl target : ℕ) (stack inquiry : Bytes) (s : Scsi) (t : Trace)
      → ctrl ≡ i / 8
      → target ≡ i % 8
      → ctrl < 256
      → IsAnswer stack inquiry
      → IsScanned before i s
      → IsScanned before (suc i) ((take_device ctrl target 0 inquiry (s, t)).0)
  unfolding take_device
  take_device-IsScanned i ctrl target stack inquiry s t ec et byte answer h =
      let old : ScsiDevice = get_or s.scsi_devices s.device_count no_scsi_device in
      elim (Bool-cases (ltb s.device_count 16)) [
        | inl e ↦
            let room = ltb→lt s.device_count 16 e in
            let sized = h.table.sizes s.device_count room in
            rw e (
              add_device-IsScanned i ctrl target (device_entry ctrl target 0 inquiry old) s t room
                (device_entry-Sized ctrl target 0 inquiry old sized)
                (rw (sym ec, sym et)
                  (device_entry-IsEntry ctrl target stack inquiry old byte answer sized))
                h)
        | inr e ↦ rw e (full-IsScanned i s (ground arith) h)
      ]

  module _ (stack : Bytes) (room : 36 < length stack) where
    scan_target-IsScanned :
        (i ctrl target : ℕ) (s : Scsi) (t : Trace)
        → ctrl ≡ i / 8
        → target ≡ i % 8
        → ctrl < 256
        → IsScanned before i s
        → IsScanned before (suc i) ((scan_target stack ctrl target 0 (s, t)).0)
    unfolding scan_target
    scan_target-IsScanned i ctrl target s t ec et byte h =
        let answer = scsi_inquiry-IsAnswer (u8 ctrl) target 0 stack room in
        let kind = answer.1.kind in
        rw (answer.0, kind) (take_device-IsScanned i ctrl target stack _ s t ec et byte answer.1 h)

    round :
        (ctrl target lun : ℕ) (r : Scsi × Trace)
        → ctrl < 256
        → target < 8
        → lun < 1
        → IsScanned before (ctrl * 8 + (target * 1 + lun)) r.0
        → IsScanned before
            (ctrl * 8 + suc (target * 1 + lun))
            (scan_target stack ctrl target lun r).0
    round ctrl target lun r byte p q g =
        let zero_lun : lun ≡ 0 = omega arith in
        let place : ctrl * 8 + (target * 1 + 0) ≡ ctrl * 8 + target = omega arith in
        let next : ctrl * 8 + suc (target * 1 + 0) ≡ suc (ctrl * 8 + target) = omega arith in
        rw (zero_lun, next)
          (scan_target-IsScanned (ctrl * 8 + target) ctrl target r.0 r.1 (omega arith) (omega arith)
            byte (rw (zero_lun, place) at g))

    scan_controller-IsScanned :
        (ctrl : ℕ) (s : Scsi) (t : Trace)
        → ctrl < 256
        → IsScanned before (ctrl * 8) s
        → IsScanned before (suc ctrl * 8) ((scan_controller stack ctrl (s, t)).0)
    unfolding scan_controller
    scan_controller-IsScanned ctrl s t byte h =
        let end : suc ctrl * 8 ≡ ctrl * 8 + 8 * 1 = omega arith in
        let start : ctrl * 8 ≡ ctrl * 8 + 0 = omega arith in
        rw end (
          for_cells_inv (λ k (r : Scsi × Trace). IsScanned before (ctrl * 8 + k) r.0) 8 1
            (scan_target stack ctrl) (s, _)
            (λ target lun r p q g. round ctrl target lun r byte p q g) (rw (← start) h))

-- From a table of sixteen slots, with at most 256 controllers, the scan ends with a table of sixteen slots whose count
-- is that from before plus eight for each controller, or 16 if that is more. Entry `j` behind those from before is for
-- target `j % 8` of controller `j / 8`, unit 0: a disk of 204800 blocks of 512 bytes, with the vendor QEMU, the product
-- HARDDISK and the revision 2.5+. The entries from before are unchanged.
pub scsi_scan_devices-IsScanned :
    (stack : Bytes) (s : Scsi) (t : Trace)
    → 36 < length stack
    → s.controller_count ≤ 256
    → IsTable s
    → IsScanned s (s.controller_count * 8) ((scsi_scan_devices stack (s, t)).0)
unfolding scsi_scan_devices
scsi_scan_devices-IsScanned stack s t room few table =
    for_up_inv (λ ctrl (r : Scsi × Trace). IsScanned s (ctrl * 8) r.0) (scan_controller stack)
      s.controller_count 0 s.controller_count (s, _)
      (λ ctrl r p q g. scan_controller-IsScanned s stack room ctrl r.0 r.1 (omega arith) g)
      (omega arith)
      (record {
        table = table;
        controllers = refl;
        total = ground (arith, table.count);
        entries = λ j lt fits. absurd (omega arith);
        earlier = λ k lt. refl;
      })
