-- ===== src/Scsi/Pci.antt =====
-- The reads of the PCI configuration space in kernel/scsi.c.
use hueos.Base.{
  ℕ, ◌+◌, ◌*◌, ◌/◌, ◌%◌, ◌^◌, ◌<◌, ◌≡◌, ◌∙◌, refl, arith, bit_and, bit_or, bit_and-field,
  bit_and-ones, bit_or-fields, bit_or_comm, ◌<<<◌, u8, u16,
}
use hueos.Io.{Trace, Device, outl}
use hueos.Scsi.{pci_address, pci_read_config_dword, pci_read_config_word, pci_read_config_byte}

-- The address with its fields apart.
pci_address-eq :
    (bus slot func offset : ℕ)
    → bus < 256
    → slot < 32
    → func < 8
    → offset < 256
    → pci_address bus slot func offset
      ≡ 2 ^ 31 + bus * 2 ^ 16 + slot * 2 ^ 11 + func * 2 ^ 8 + offset / 4 * 4
unfolding pci_address
pci_address-eq bus slot func offset hb hs hf ho =
    let eb : bus <<< 16 ≡ bus * 2 ^ 16 = omega arith in
    let es : slot <<< 11 ≡ slot * 2 ^ 11 = omega arith in
    let ef : func <<< 8 ≡ func * 2 ^ 8 = omega arith in
    let eo : bit_and offset 0xFC ≡ offset / 4 * 4 = omega (arith, bit_and-field 2 6 offset) in
    let one : bit_or (bus * 2 ^ 16) (slot * 2 ^ 11) ≡ (bus * 2 ^ 5 + slot) * 2 ^ 11 =
      bit_or-fields 16 bus (slot * 2 ^ 11) (omega arith) ∙ omega arith in
    let two : bit_or ((bus * 2 ^ 5 + slot) * 2 ^ 11) (func * 2 ^ 8)
        ≡ ((bus * 2 ^ 5 + slot) * 2 ^ 3 + func) * 2 ^ 8 =
      bit_or-fields 11 (bus * 2 ^ 5 + slot) (func * 2 ^ 8) (omega arith) ∙ omega arith in
    let three : bit_or (((bus * 2 ^ 5 + slot) * 2 ^ 3 + func) * 2 ^ 8) (offset / 4 * 4)
        ≡ ((bus * 2 ^ 5 + slot) * 2 ^ 3 + func) * 2 ^ 8 + offset / 4 * 4 =
      bit_or-fields 8 ((bus * 2 ^ 5 + slot) * 2 ^ 3 + func) (offset / 4 * 4) (omega arith) in
    let low : ℕ = ((bus * 2 ^ 5 + slot) * 2 ^ 3 + func) * 2 ^ 8 + offset / 4 * 4 in
    let four : bit_or low 0x80000000 ≡ 1 * 2 ^ 31 + low =
      bit_or_comm low 0x80000000 ∙ bit_or-fields 31 1 low (omega arith) in
    rw (eb, es, ef, eo, one, two, three, four) (omega arith)

mask16 : (x : ℕ) → u16 (bit_and x 0xFFFF) ≡ x % 2 ^ 16
mask16 x = omega (arith, bit_and-ones 16 x)

mask8 : (x : ℕ) → u8 (bit_and x 0xFF) ≡ x % 2 ^ 8
mask8 x = omega (arith, bit_and-ones 8 x)

-- A bridge that answers with the space of the selected double word.
abbrev pub Answers : Device → (ℕ → ℕ) → Type 0
Answers dev space = (t : Trace) (a : ℕ) → a < 2 ^ 32 → dev.read32 (outl 0xCF8 a t) 0xCFC ≡ space a

-- The three reads give the double word, the word or the byte of the configuration space at the place that is asked
-- for: bus, slot and function in their fields of the address, and the part of the double word that holds the offset.
pub pci_read-space :
    (dev : Device) (space : ℕ → ℕ) (bus slot func offset : ℕ) (t : Trace)
    → Answers dev space
    → bus < 256
    → slot < 32
    → func < 8
    → offset < 256
    → (let value = space (2 ^ 31 + bus * 2 ^ 16 + slot * 2 ^ 11 + func * 2 ^ 8 + offset / 4 * 4) in
        ((pci_read_config_dword dev bus slot func offset t).0 ≡ value % 2 ^ 32)
        × ((pci_read_config_word dev bus slot func offset t).0
            ≡ value % 2 ^ 32 / 2 ^ (offset / 2 % 2 * 16) % 2 ^ 16)
        × ((pci_read_config_byte dev bus slot func offset t).0
            ≡ value % 2 ^ 32 / 2 ^ (offset % 4 * 8) % 2 ^ 8))
unfolding pci_read_config_dword pci_read_config_word pci_read_config_byte
pci_read-space dev space bus slot func offset t answers hb hs hf ho =
    let place = pci_address-eq bus slot func offset hb hs hf ho in
    let half : bit_and offset 2 * 8 ≡ offset / 2 % 2 * 16 =
      omega (arith, bit_and-field 1 1 offset) in
    let quarter : bit_and offset 3 * 8 ≡ offset % 4 * 8 = omega (arith, bit_and-ones 2 offset) in
    let got : dev.read32 (outl 0xCF8 (pci_address bus slot func offset) t) 0xCFC
        ≡ space (pci_address bus slot func offset) =
      answers t (pci_address bus slot func offset) (omega (arith, place)) in
    rw (got, place, half, quarter) (refl, mask16 _, mask8 _)
