-- ===== src/Scsi.antt =====
-- kernel/scsi.c: the helpers, the access to the PCI configuration space and to a BusLogic adapter. The empty delay
-- loops do nothing here.
pub mod Swapping
pub mod Pci
pub mod Ready
pub mod Controllers
pub mod Texts
pub mod Devices
pub mod Access
pub mod Listing
use hueos.Base.{
  ℕ, zero, suc, ◌+◌, ◌-◌, ◌*◌, ◌∷◌, [], Bool, true, false, ◌||◌, not, if◌then◌else◌, ◌==◌, bit_and,
  bit_or, u8, u16, u32, ◌>>>◌, ◌<<<◌, is_set, Bytes, get_or, set,
}
use hueos.Io.{Trace, Device, outb, inb, outl, inl, to_serial, serial_text}
use hueos.Serial.{hex_buffer}

unfoldable pub swap32 : ℕ → ℕ
swap32 val =
    bit_or
      (bit_or (bit_or (bit_and (val >>> 24) 0xFF) (bit_and (val >>> 8) 0xFF00))
        (bit_and (val <<< 8) 0xFF0000))
      (bit_and (val <<< 24) 0xFF000000)

-- The arithmetic is that of `int`; the result is cut to 16 bits.
unfoldable pub swap16 : ℕ → ℕ
swap16 val = u16 (bit_or (bit_and (val >>> 8) 0xFF) (bit_and (val <<< 8) 0xFF00))

-- The address that selects a double word of the configuration space.
unfoldable pub pci_address : ℕ → ℕ → ℕ → ℕ → ℕ
pci_address bus slot func offset =
    bit_or (bit_or (bit_or (bit_or (bus <<< 16) (slot <<< 11)) (func <<< 8)) (bit_and offset 0xFC))
      0x80000000

module _ (dev : Device) where
  unfoldable pub pci_read_config_dword : ℕ → ℕ → ℕ → ℕ → Trace → ℕ × Trace
  unfolding pci_address
  pci_read_config_dword bus slot func offset t =
      inl dev 0xCFC (outl 0xCF8 (pci_address bus slot func offset) t)

  unfoldable pub pci_read_config_word : ℕ → ℕ → ℕ → ℕ → Trace → ℕ × Trace
  unfolding pci_address
  pci_read_config_word bus slot func offset t =
      let (value, t) = inl dev 0xCFC (outl 0xCF8 (pci_address bus slot func offset) t) in
      (u16 (bit_and (value >>> (bit_and offset 2 * 8)) 0xFFFF), t)

  unfoldable pub pci_read_config_byte : ℕ → ℕ → ℕ → ℕ → Trace → ℕ × Trace
  unfolding pci_address
  pci_read_config_byte bus slot func offset t =
      let (value, t) = inl dev 0xCFC (outl 0xCF8 (pci_address bus slot func offset) t) in
      (u8 (bit_and (value >>> (bit_and offset 3 * 8)) 0xFF), t)

  -- The loop of `buslogic_wait_ready`, with the rounds that are left.
  unfoldable pub wait_rounds : ℕ → ℕ → Trace → Bool × Trace
  wait_rounds zero io_base t = (false, t)
  wait_rounds (suc left) io_base t =
      let (status, t') = inb dev (io_base + 0x00) t in
      let again = wait_rounds left io_base t' in
      if is_set (bit_and status 0x08) then (true, t') else again

  abbrev pub buslogic_wait_ready : ℕ → Trace → Bool × Trace
  buslogic_wait_ready io_base t = wait_rounds 10000 io_base t

  unfoldable pub buslogic_send_command : ℕ → ℕ → Trace → Bool × Trace
  buslogic_send_command io_base cmd t =
      let (ready, t) = buslogic_wait_ready io_base t in
      if not ready then (false, t) else (true, outb (io_base + 0x01) cmd t)

  unfoldable pub buslogic_read_data : ℕ → Trace → ℕ × Trace
  buslogic_read_data io_base t = inb dev (io_base + 0x01) (buslogic_wait_ready io_base t).1

  unfoldable pub buslogic_write_data : ℕ → ℕ → Trace → Bool × Trace
  buslogic_write_data io_base val t =
      let (ready, t) = buslogic_wait_ready io_base t in
      if not ready then (false, t) else (true, outb (io_base + 0x01) val t)

  unfoldable pub buslogic_soft_reset : ℕ → Trace → Trace
  buslogic_soft_reset io_base t = (buslogic_wait_ready io_base (outb (io_base + 0x00) 0x80 t)).1

  unfoldable pub buslogic_init : ℕ → Trace → Bool × Trace
  unfolding buslogic_soft_reset
  buslogic_init io_base t =
      let t =
        serial_text (hex_buffer io_base)
        ∷ to_serial "Initializing BusLogic controller at I/O 0x" t in
      let (ready, t) =
        buslogic_wait_ready io_base (buslogic_soft_reset io_base (to_serial "\n" t)) in
      if not ready
      then (false, to_serial "  Controller not ready\n" t)
      else (true, to_serial "  BusLogic controller initialized\n" t)
