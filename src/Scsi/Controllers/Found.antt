-- ===== src/Scsi/Controllers/Found.antt =====
-- What `init_scsi` of kernel/scsi.c leaves in the table of controllers.
use hueos.Base.{
  sym, ℕ, ◌+◌, ◌≤◌, ◌<◌, ◌≡◌, ◌≢◌, ◌∙◌, u16, bit_and, and-true, refl, arith, ◌&&◌, ◌||◌, Bool-cases,
  inl, inr, ltb, ltb→lt, ◌==◌, ==_iff, length, length-set, get_or, set, get_or-set_self,
  get_or-set_ne, dec_lt, for_cells, for_cells_inv,
}
use mathlib.Core.Bool.{true≢false}
use hueos.Io.{Trace, Device, to_serial}
use hueos.Scsi.{buslogic_init, pci_read_config_word, pci_read_config_byte, pci_read_config_dword}
use hueos.Scsi.Controllers.{
  check_class, Controller, Scsi, no_controller, add_buslogic, identify_controller, check_address,
  take_controller, probe_slot, init_scsi,
}

-- What a read gave at some time.
abbrev pub Gave : (Trace → ℕ × Trace) → ℕ → Type 0
Gave read v = (t : Trace) × ((read t).0 ≡ v)

-- The controller stands for a function of the bus whose identification, as it was read, is that of a BusLogic BT-958
-- of the SCSI class; its I/O address is that of the first base address, cut to 16 bits, and is not 0.
pub record IsAdapter (dev : Device) (c : Controller) : Type 0 where
  pub bus : ℕ
  pub slot : ℕ
  pub vendor : Gave (pci_read_config_word dev bus slot 0 0x00) 0x104B
  pub device : Gave (pci_read_config_word dev bus slot 0 0x02) 0x1040
  pub class : Gave (pci_read_config_byte dev bus slot 0 0x0B) 0x01
  pub subclass : Gave (pci_read_config_byte dev bus slot 0 0x0A) 0x00
  pub base : ℕ
  pub read : Gave (pci_read_config_dword dev bus slot 0 0x10) base
  pub address : c.io_base ≡ u16 (bit_and base 0xFFFFFFF0)
  pub irq : Gave (pci_read_config_byte dev bus slot 0 0x3C) c.irq
  pub kind : c.type ≡ 0x01
  pub nonzero : c.io_base ≢ 0

-- The table has four slots, and the taken ones hold adapters.
pub record IsFound (dev : Device) (s : Scsi) : Type 0 where
  pub slots : length s.controllers ≡ 4
  pub count : s.controller_count ≤ 4
  pub known :
      (k : ℕ) → k < s.controller_count → IsAdapter dev (get_or s.controllers k no_controller)

-- One more adapter.
push-IsFound :
    (dev : Device) (new : Controller) (s : Scsi)
    → IsAdapter dev new
    → s.controller_count < 4
    → IsFound dev s
    → IsFound dev (record s {
      controllers = set s.controllers s.controller_count new;
      controller_count = s.controller_count + 1;
    })
push-IsFound dev new s adapter room h = record {
  slots = length-set s.controllers s.controller_count new ∙ h.slots;
  count = omega arith;
  known = λ k lt. elim (dec_lt k s.controller_count) [
    | yes old ↦
        rw (get_or-set_ne s.controllers s.controller_count k new no_controller (omega arith))
          (h.known k old)
    | no last ↦
        let here : k ≡ s.controller_count = omega arith in
        rw
          (
            here,
            get_or-set_self s.controllers s.controller_count new no_controller
                (omega (arith, h.slots)),
          )
          adapter
  ];
}

-- What every new adapter keeps, the search keeps.
module _ {ℓ} (P : Scsi → Type ℓ) (dev : Device)
    (keep : (new : Controller) (s : Scsi)
      → IsAdapter dev new
      → s.controller_count < 4
      → P s
      → P (record s {
        controllers = set s.controllers s.controller_count new;
        controller_count = s.controller_count + 1;
      })) where
  -- A function that the search has come to.
  record Seen (bus slot v d c b : ℕ) : Type 0 where
    vendor : Gave (pci_read_config_word dev bus slot 0 0x00) v
    device : Gave (pci_read_config_word dev bus slot 0 0x02) d
    class : Gave (pci_read_config_byte dev bus slot 0 0x0B) c
    subclass : Gave (pci_read_config_byte dev bus slot 0 0x0A) b

  add_buslogic_keeps :
      (bus slot io_base base : ℕ) (s : Scsi) (t : Trace)
      → Seen bus slot 0x104B 0x1040 0x01 0x00
      → Gave (pci_read_config_dword dev bus slot 0 0x10) base
      → io_base ≡ u16 (bit_and base 0xFFFFFFF0)
      → io_base ≢ 0
      → P s
      → P ((add_buslogic dev bus slot io_base (s, t)).0)
  unfolding add_buslogic
  add_buslogic_keeps bus slot io_base base s t seen bar address nonzero h =
      elim (Bool-cases ((buslogic_init dev io_base t).0)) [
        | inl e ↦ elim (Bool-cases (ltb s.controller_count 4)) [
          | inl f ↦
              rw (e, f)
                (keep _ s
                  (record {
                    bus = bus;
                    slot = slot;
                    vendor = seen.vendor;
                    device = seen.device;
                    class = seen.class;
                    subclass = seen.subclass;
                    base = base;
                    read = bar;
                    address = address;
                    irq = (_, refl);
                    kind = refl;
                    nonzero = nonzero;
                  })
                  (ltb→lt s.controller_count 4 f) h)
          | inr f ↦ rw (e, f) h
        ]
        | inr e ↦ rw e h
      ]

  identify_keeps :
      (bus slot vendor device io_base base : ℕ) (s : Scsi) (t : Trace)
      → Seen bus slot vendor device 0x01 0x00
      → Gave (pci_read_config_dword dev bus slot 0 0x10) base
      → io_base ≡ u16 (bit_and base 0xFFFFFFF0)
      → io_base ≢ 0
      → P s
      → P ((identify_controller dev bus slot vendor device io_base (s, t)).0)
  unfolding identify_controller
  identify_keeps bus slot vendor device io_base base s t seen bar address nonzero h =
      elim (Bool-cases ((vendor == 0x104B) && (device == 0x1040))) [
        | inl e ↦
            let (v, d) = and-true (vendor == 0x104B) (device == 0x1040) e in
            let seen' : Seen bus slot 0x104B 0x1040 0x01 0x00 = record {
              vendor = (seen.vendor.0, seen.vendor.1 ∙ (==_iff vendor 0x104B).0 v);
              device = (seen.device.0, seen.device.1 ∙ (==_iff device 0x1040).0 d);
              class = seen.class;
              subclass = seen.subclass;
            } in
            rw e (add_buslogic_keeps bus slot io_base base s _ seen' bar address nonzero h)
        | inr e ↦ elim (Bool-cases (vendor == 0x1000)) [
          | inl f ↦ elim (Bool-cases ((device == 0x0012) || (device == 0x0030))) [
            | inl g ↦ rw (e, f, g) h
            | inr g ↦ rw (e, f, g) h
          ]
          | inr f ↦ rw (e, f) h
        ]
      ]

  check_keeps :
      (bus slot vendor device io_base base : ℕ) (s : Scsi) (t : Trace)
      → Seen bus slot vendor device 0x01 0x00
      → Gave (pci_read_config_dword dev bus slot 0 0x10) base
      → io_base ≡ u16 (bit_and base 0xFFFFFFF0)
      → P s
      → P ((check_address dev bus slot vendor device io_base (s, t)).0)
  unfolding check_address
  check_keeps bus slot vendor device io_base base s t seen bar address h =
      elim (Bool-cases (io_base == 0)) [
        | inl e ↦ rw e h
        | inr e ↦
            let nonzero : io_base ≢ 0 = λ zero. true≢false (sym ((==_iff io_base 0).1 zero) ∙ e) in
            rw e (identify_keeps bus slot vendor device io_base base s t seen bar address nonzero h)
      ]

  take_keeps :
      (bus slot vendor device : ℕ) (s : Scsi) (t : Trace)
      → Seen bus slot vendor device 0x01 0x00
      → P s
      → P ((take_controller dev bus slot vendor device (s, t)).0)
  unfolding take_controller
  take_keeps bus slot vendor device s t seen h =
      check_keeps bus slot vendor device _ _ s _ seen (_, refl) refl h

  class_keeps :
      (bus slot vendor device class_code subclass : ℕ) (s : Scsi) (t : Trace)
      → Seen bus slot vendor device class_code subclass
      → P s
      → P ((check_class dev bus slot vendor device class_code subclass (s, t)).0)
  unfolding check_class
  class_keeps bus slot vendor device class_code subclass s t seen h =
      elim (Bool-cases ((class_code == 0x01) && (subclass == 0x00))) [
        | inl e ↦
            let (c, d) = and-true (class_code == 0x01) (subclass == 0x00) e in
            let seen' : Seen bus slot vendor device 0x01 0x00 = record {
              vendor = seen.vendor;
              device = seen.device;
              class = (seen.class.0, seen.class.1 ∙ (==_iff class_code 0x01).0 c);
              subclass = (seen.subclass.0, seen.subclass.1 ∙ (==_iff subclass 0x00).0 d);
            } in
            rw e (take_keeps bus slot vendor device s t seen' h)
        | inr e ↦ rw e h
      ]

  probe_keeps : (bus slot : ℕ) (s : Scsi) (t : Trace) → P s → P ((probe_slot dev bus slot (s, t)).0)
  unfolding probe_slot
  probe_keeps bus slot s t h =
      let vendor : ℕ = (pci_read_config_word dev bus slot 0 0x00 t).0 in
      elim (Bool-cases ((vendor == 0xFFFF) || (vendor == 0x0000))) [
        | inl e ↦ rw e h
        | inr e ↦ rw e (
            class_keeps bus slot vendor _ _ _ s _
              (record {
                vendor = (t, refl);
                device = (_, refl);
                class = (_, refl);
                subclass = (_, refl);
              })
              h)
      ]

  init_scsi_keeps :
      (s : Scsi) (t : Trace)
      → P (record s { controller_count = 0; device_count = 0 })
      → P ((init_scsi dev (s, t)).0)
  unfolding init_scsi
  init_scsi_keeps s t h =
      let start : Scsi = record s { controller_count = 0; device_count = 0 } in
      let all =
        for_cells_inv (λ _ (r : Scsi × Trace). P r.0) 256 32 (probe_slot dev)
          (start, to_serial "Scanning for SCSI controllers...\n" t)
          (λ bus slot r hb hs p. probe_keeps bus slot r.0 r.1 p) h in
      elim (Bool-cases (
        (for_cells 256 32 (probe_slot dev)
          (start, to_serial "Scanning for SCSI controllers...\n" t)).0.controller_count
        == 0)) [ inl e ↦ rw e all | inr e ↦ rw e all ]

-- Whatever is on the PCI bus, the search ends with at most four controllers in the table of four, each for a function
-- that was read to be of vendor 104Bh, device 1040h, class 01h and subclass 00h, with the interrupt line that was read,
-- and an I/O address that is the first base address without its low four bits, cut to 16 bits, and is not 0.
pub init_scsi-IsFound :
    (dev : Device) (s : Scsi) (t : Trace)
    → length s.controllers ≡ 4
    → IsFound dev ((init_scsi dev (s, t)).0)
init_scsi-IsFound dev s t slots =
    init_scsi_keeps (IsFound dev) dev (push-IsFound dev) s t
      (record { slots = slots; count = omega arith; known = λ k lt. absurd (omega arith) })

-- The table of devices is left alone, and its count reset.
pub init_scsi-devices :
    (dev : Device) (s : Scsi) (t : Trace)
    → ((init_scsi dev (s, t)).0.scsi_devices ≡ s.scsi_devices)
      × ((init_scsi dev (s, t)).0.device_count ≡ 0)
init_scsi-devices dev s t =
    init_scsi_keeps (λ r. (r.scsi_devices ≡ s.scsi_devices) × (r.device_count ≡ 0)) dev
      (λ new r _ _ h. h) s t (refl, refl)
