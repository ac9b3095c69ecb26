-- ===== src/Hwinfo/Bus/Decoding.antt =====
-- The two readers of the PCI configuration space, in kernel/hwinfo.c and kernel/scsi.c, against each other.
use hueos.Base.{
  ℕ, ◌+◌, ◌*◌, ◌/◌, ◌%◌, ◌^◌, ◌<◌, ◌≡◌, ◌∙◌, refl, ap, arith, bit_and, bit_or, bit_and-ones, ◌>>>◌,
  ◌<<<◌, u32,
}
use hueos.Io.{Trace, Device, outl, inl}
use hueos.Scsi.{pci_address, pci_read_config_dword, pci_read_config_word, pci_read_config_byte}
use hueos.Scsi.Pci.{Answers, pci_read-space}
use hueos.Hwinfo.Bus.{pci_read_config, vendor_of, device_of, class_of, subclass_of}

cast_once : (x : ℕ) (t : Trace) → outl 0xCF8 (u32 x) t ≡ outl 0xCF8 x t
cast_once x t = let same : x % 2 ^ 32 % 2 ^ 32 ≡ x % 2 ^ 32 = omega arith in rw same refl

-- The cast of the address changes nothing, since the port has 32 bits.
pub pci_read_config-dword :
    (dev : Device) (bus slot func offset : ℕ) (t : Trace)
    → pci_read_config dev bus slot func offset t ≡ pci_read_config_dword dev bus slot func offset t
unfolding pci_read_config pci_read_config_dword pci_address
pci_read_config-dword dev bus slot func offset t =
    ap (λ u. inl dev 0xCFC u)
      (cast_once
        (bit_or
          (bit_or (bit_or (bit_or (bus <<< 16) (slot <<< 11)) (func <<< 8)) (bit_and offset 0xFC))
          0x80000000)
        t)

pub vendor_of-eq : (x : ℕ) → vendor_of x ≡ x % 2 ^ 16
unfolding vendor_of
vendor_of-eq x = omega (arith, bit_and-ones 16 x)

device_of-eq : (x : ℕ) → device_of x ≡ x / 2 ^ 16 % 2 ^ 16
unfolding device_of
device_of-eq x = omega (arith, bit_and-ones 16 (x >>> 16))

class_of-eq : (x : ℕ) → class_of x ≡ x / 2 ^ 24 % 2 ^ 8
unfolding class_of
class_of-eq x = omega (arith, bit_and-ones 8 (x >>> 24))

subclass_of-eq : (x : ℕ) → subclass_of x ≡ x / 2 ^ 16 % 2 ^ 8
unfolding subclass_of
subclass_of-eq x = omega (arith, bit_and-ones 8 (x >>> 16))

-- The two double words that `scan_pci_bus` reads of a function give the vendor, device, class and subclass that the
-- SCSI driver reads one by one, whatever was done before each of the six reads: the two drivers know a function by the
-- same numbers.
pub decoding_agrees :
    (dev : Device) (space : ℕ → ℕ) (bus slot func : ℕ) (t u v w x y : Trace)
    → Answers dev space
    → bus < 256
    → slot < 32
    → func < 8
    → (let vendor_device = (pci_read_config dev bus slot func 0 t).0 in
        let class_rev = (pci_read_config dev bus slot func 0x08 u).0 in
        (vendor_of vendor_device ≡ (pci_read_config_word dev bus slot func 0x00 v).0)
        × (device_of vendor_device ≡ (pci_read_config_word dev bus slot func 0x02 w).0)
        × (class_of class_rev ≡ (pci_read_config_byte dev bus slot func 0x0B x).0)
        × (subclass_of class_rev ≡ (pci_read_config_byte dev bus slot func 0x0A y).0))
decoding_agrees dev space bus slot func t u v w x y answers hb hs hf =
    let read = λ (offset : ℕ) (t : Trace) (small : offset < 256).
      pci_read-space dev space bus slot func offset t answers hb hs hf small in
    let at0 : ℕ = space (2 ^ 31 + bus * 2 ^ 16 + slot * 2 ^ 11 + func * 2 ^ 8 + 0 / 4 * 4) in
    let at8 : ℕ = space (2 ^ 31 + bus * 2 ^ 16 + slot * 2 ^ 11 + func * 2 ^ 8 + 0x08 / 4 * 4) in
    let first : (pci_read_config dev bus slot func 0 t).0 ≡ at0 % 2 ^ 32 =
      ap (λ r. r.0) (pci_read_config-dword dev bus slot func 0 t) ∙ (read 0 t (omega arith)).0 in
    let second : (pci_read_config dev bus slot func 0x08 u).0 ≡ at8 % 2 ^ 32 =
      ap (λ r. r.0) (pci_read_config-dword dev bus slot func 0x08 u)
      ∙ (read 0x08 u (omega arith)).0 in
    let p = (read 0x00 v (omega arith)).1 in
    let q = (read 0x02 w (omega arith)).1 in
    let r = (read 0x0B x (omega arith)).2 in
    let s = (read 0x0A y (omega arith)).2 in
    rw (first, second, vendor_of-eq, device_of-eq, class_of-eq, subclass_of-eq, p, q, r, s)
      (omega arith, omega arith, omega arith, omega arith)
