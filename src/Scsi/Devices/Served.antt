-- ===== src/Scsi/Devices/Served.antt =====
-- The two searches of kernel/scsi.c one after the other: every device that is listed is on a controller that takes
-- commands.
use hueos.Base.{
  ℕ, ◌+◌, ◌*◌, ◌/◌, ◌≤◌, ◌<◌, ◌≡◌, ◌∙◌, refl, sym, arith, Bool-cases, inl, inr, true, false, ltb,
  leb, ◌==◌, ◌&&◌, if◌then◌else◌, not, Bytes, length, length-set, get_or, get_or-set_self,
  get_or-set_ne, ℕ_discrete, for_up_inv, for_cells_inv, u8, some, ==_iff, ◌^◌,
}
use hueos.Io.{Trace, Device}
use hueos.Scsi.Controllers.{Controller, ScsiDevice, Scsi, no_controller, no_scsi_device, init_scsi}
use hueos.Scsi.Controllers.Found.{IsAdapter, IsFound, init_scsi-IsFound, init_scsi-devices}
use hueos.Scsi.Devices.{
  scsi_execute_simple_command, scsi_inquiry, add_device, take_device, scan_target, scan_controller,
  scsi_scan_devices,
}
use hueos.Scsi.Devices.Scanned.{IsTable, scsi_scan_devices-IsScanned}
use hueos.Scsi.Access.{scsi_get_device}

-- What every new entry keeps, the scan keeps.
module _ {ℓ} (P : Scsi → Type ℓ) (stack : Bytes)
    (keep : (ctrl target : ℕ) (new : ScsiDevice) (s : Scsi) (t : Trace)
      → P s
      → P ((add_device ctrl target new (s, t)).0)) where
  take_device_keeps :
      (ctrl target lun : ℕ) (inquiry : Bytes) (s : Scsi) (t : Trace)
      → P s
      → P ((take_device ctrl target lun inquiry (s, t)).0)
  unfolding take_device
  take_device_keeps ctrl target lun inquiry s t h = elim (Bool-cases (ltb s.device_count 16)) [
    | inl e ↦ rw e (keep ctrl target _ s t h)
    | inr e ↦ rw e h
  ]

  scan_target_keeps :
      (ctrl target lun : ℕ) (s : Scsi) (t : Trace)
      → P s
      → P ((scan_target stack ctrl target lun (s, t)).0)
  unfolding scan_target
  scan_target_keeps ctrl target lun s t h =
      let r = scsi_inquiry (u8 ctrl) target lun stack in
      elim (Bool-cases (r.0 && (not (get_or r.1 0 0 == 0x7F) && not (get_or r.1 0 0 == 0x7F)))) [
        | inl e ↦ rw e (take_device_keeps ctrl target lun r.1 s t h)
        | inr e ↦ rw e h
      ]

  scsi_scan_devices_keeps : (s : Scsi) (t : Trace) → P s → P ((scsi_scan_devices stack (s, t)).0)
  unfolding scsi_scan_devices scan_controller
  scsi_scan_devices_keeps s t h =
      for_up_inv (λ ctrl (r : Scsi × Trace). P r.0) (scan_controller stack) s.controller_count 0
        s.controller_count (s, _)
        (λ ctrl r p q g.
          for_cells_inv (λ k (r : Scsi × Trace). P r.0) 8 1 (scan_target stack ctrl) (r.0, _)
            (λ target lun u p q g. scan_target_keeps ctrl target lun u.0 u.1 g) g)
        (omega arith) h

-- The controllers that are taken stay adapters.
count_one_more :
    (dev : Device) (c : Controller) (n : ℕ)
    → IsAdapter dev c
    → IsAdapter dev (record c { device_count = n })
count_one_more dev c n a = record {
  bus = a.bus;
  slot = a.slot;
  vendor = a.vendor;
  device = a.device;
  class = a.class;
  subclass = a.subclass;
  base = a.base;
  read = a.read;
  address = a.address;
  irq = a.irq;
  kind = a.kind;
  nonzero = a.nonzero;
}

add_device-IsFound :
    (dev : Device) (ctrl target : ℕ) (new : ScsiDevice) (s : Scsi) (t : Trace)
    → IsFound dev s
    → IsFound dev ((add_device ctrl target new (s, t)).0)
unfolding add_device
add_device-IsFound dev ctrl target new s t h =
    let c : Controller = get_or s.controllers ctrl no_controller in
    let c' : Controller = record c { device_count = u8 (c.device_count + 1) } in
    record {
      slots = length-set s.controllers ctrl c' ∙ h.slots;
      count = h.count;
      known = λ k lt. elim (ℕ_discrete ctrl k) [
        | yes e ↦
            let room : ctrl < length s.controllers = omega (arith, h.slots, h.count) in
            rw (sym e, get_or-set_self s.controllers ctrl c' no_controller room)
              (count_one_more dev c (u8 (c.device_count + 1)) (rw (sym e) at (h.known k lt)))
        | no ne ↦ rw (get_or-set_ne s.controllers ctrl k c' no_controller ne) (h.known k lt)
      ];
    }

command_taken :
    (dev : Device) (s : Scsi) (id target lun : ℕ) (cdb : Bytes) (len : ℕ)
    → IsFound dev s
    → id < s.controller_count
    → scsi_execute_simple_command s id target lun cdb len ≡ true
unfolding scsi_execute_simple_command
command_taken dev s id target lun cdb len h lt =
    let e : leb s.controller_count id ≡ false = ground arith in
    rw e ((==_iff (get_or s.controllers id no_controller).type 0x01).1 (h.known id lt).kind)

device_known :
    (s : Scsi) (k : ℕ)
    → k < s.device_count
    → s.device_count ≤ 16
    → scsi_get_device s k ≡ some (get_or s.scsi_devices k no_scsi_device)
unfolding scsi_get_device
device_known s k lt few =
    let small : leb (2 ^ 31) k ≡ false = ground arith in
    let listed : leb s.device_count k ≡ false = ground arith in rw (small, listed) refl

-- Whatever is on the PCI bus, after `init_scsi` and `scsi_scan_devices` there are eight devices for each controller,
-- but sixteen at most, and `scsi_get_device` finds each of them by its index; its controller, whose number it keeps,
-- takes any simple command for it.
pub devices_served :
    (dev : Device) (stack : Bytes) (s : Scsi) (t : Trace) (cdb : Bytes) (len : ℕ)
    → 36 < length stack
    → length s.controllers ≡ 4
    → IsTable s
    → let r = (scsi_scan_devices stack (init_scsi dev (s, t))).0 in
      (r.device_count ≡ (if ltb (r.controller_count * 8) 16 then r.controller_count * 8 else 16))
      × ((k : ℕ)
          → k < r.device_count
          → let d = get_or r.scsi_devices k no_scsi_device in
            (scsi_get_device r k ≡ some d)
            × (scsi_execute_simple_command r d.controller_id d.target d.lun cdb len ≡ true))
devices_served dev stack s t cdb len room slots table =
    let start : Scsi = (init_scsi dev (s, t)).0 in
    let u : Trace = (init_scsi dev (s, t)).1 in
    let found : IsFound dev start = init_scsi-IsFound dev s t slots in
    let kept = init_scsi-devices dev s t in
    let fresh : IsTable start = record {
      slots = rw (kept.0) table.slots;
      count = omega (arith, kept.1);
      sizes = rw (kept.0) table.sizes;
    } in
    let scanned =
      scsi_scan_devices-IsScanned stack start u room (omega (arith, found.count)) fresh in
    let r : Scsi = (scsi_scan_devices stack (start, u)).0 in
    let still : IsFound dev r =
      scsi_scan_devices_keeps (IsFound dev) stack (add_device-IsFound dev) start u found in
    let amount : r.device_count
        ≡ (if ltb (start.controller_count * 8) 16 then start.controller_count * 8 else 16) =
      ground (arith, scanned.total, kept.1) in
    let same : r.controller_count ≡ start.controller_count = scanned.controllers in
    (
      rw same amount,
      (λ k lt.
          let few = scanned.table.count in
          let below : k < start.controller_count * 8 = ground (arith, amount) in
          let here : start.device_count + k ≡ k = omega (arith, kept.1) in
          let entry = scanned.entries k below (omega (arith, kept.1)) in
          let id : (get_or r.scsi_devices k no_scsi_device).controller_id ≡ k / 8 =
            (rw here at entry).place.0 in
          (
            device_known r k lt few,
            command_taken dev r _ _ _ cdb len still (omega (arith, id, same)),
          )),
    )
