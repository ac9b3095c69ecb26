-- ===== src/Hwinfo/Bus/Found.antt =====
-- Which functions `scan_pci_bus` of kernel/hwinfo.c finds.
use hueos.Base.{
  ℕ, zero, suc, ◌+◌, ◌*◌, ◌/◌, ◌%◌, ◌^◌, ◌<◌, ◌≡◌, refl, arith, Bool, not, ◌||◌, ◌==◌,
  if◌then◌else◌, Bool-cases, inl, inr, for_up_inv, for_cells, for_cells_inv,
}
use hueos.Io.{Trace, Device}
use hueos.Scsi.Pci.{Answers, pci_read-space}
use hueos.Hwinfo.Bus.{pci_read_config, vendor_of, probe_function, scan_functions}
use hueos.Hwinfo.Bus.Decoding.{pci_read_config-dword, vendor_of-eq}

-- How many numbers below a bound pass a test.
unfoldable pub count_below : ℕ → (ℕ → Bool) → ℕ
count_below zero test = 0
count_below (suc n) test = count_below n test + (if test n then 1 else 0)

-- The vendor of a function in the configuration space.
abbrev pub vendor_at : (ℕ → ℕ) → ℕ → ℕ → ℕ → ℕ
vendor_at space bus slot func =
    space (2 ^ 31 + bus * 2 ^ 16 + slot * 2 ^ 11 + func * 2 ^ 8) % 2 ^ 16

-- Function `i` of all, eight to a slot and 32 slots to a bus: there, if its vendor is neither 0xFFFF nor 0.
abbrev pub present : (ℕ → ℕ) → ℕ → Bool
present space i =
    let vendor = vendor_at space (i / 256) (i / 8 % 32) (i % 8) in
    not ((vendor == 0xFFFF) || (vendor == 0))

module _ (dev : Device) (space : ℕ → ℕ) (answers : Answers dev space) where
  read_vendor :
      (bus slot func : ℕ) (t : Trace)
      → bus < 256
      → slot < 32
      → func < 8
      → vendor_of (pci_read_config dev bus slot func 0 t).0 ≡ vendor_at space bus slot func
  read_vendor bus slot func t hb hs hf =
      let got = (pci_read-space dev space bus slot func 0 t answers hb hs hf (omega arith)).0 in
      let same : 2 ^ 31 + bus * 2 ^ 16 + slot * 2 ^ 11 + func * 2 ^ 8 + 0 / 4 * 4
          ≡ 2 ^ 31 + bus * 2 ^ 16 + slot * 2 ^ 11 + func * 2 ^ 8 =
        omega arith in
      rw (pci_read_config-dword, got, same, vendor_of-eq) (omega arith)

  probe_counts :
      (i bus slot func n : ℕ) (t : Trace)
      → bus ≡ i / 256
      → slot ≡ i / 8 % 32
      → func ≡ i % 8
      → i < 2048
      → n ≡ count_below i (present space)
      → (probe_function dev bus slot func (n, t)).0 ≡ count_below (suc i) (present space)
  unfolding probe_function count_below
  probe_counts i bus slot func n t eb es ef small e =
      let vendor = read_vendor bus slot func t (omega arith) (omega arith) (omega arith) in
      let here : vendor_at space bus slot func ≡ vendor_at space (i / 256) (i / 8 % 32) (i % 8) =
        rw (eb, es, ef) refl in
      let v : ℕ = vendor_at space (i / 256) (i / 8 % 32) (i % 8) in
      elim (Bool-cases ((v == 0xFFFF) || (v == 0))) [
        | inl absent ↦ rw (vendor, here, absent, e) (omega arith)
        | inr there ↦ rw (vendor, here, there, e) refl
      ]

  probe_cell :
      (bus slot func : ℕ) (r : ℕ × Trace)
      → bus < 8
      → slot < 32
      → func < 8
      → r.0 ≡ count_below (bus * 256 + (slot * 8 + func)) (present space)
      → (probe_function dev bus slot func r).0
        ≡ count_below (bus * 256 + suc (slot * 8 + func)) (present space)
  probe_cell bus slot func r hb hs hf e =
      let next : bus * 256 + suc (slot * 8 + func) ≡ suc (bus * 256 + (slot * 8 + func)) =
        omega arith in
      rw next (
        probe_counts (bus * 256 + (slot * 8 + func)) bus slot func r.0 r.1 (omega arith)
          (omega arith) (omega arith) (omega arith) e)

  scan_bus :
      (bus : ℕ) (r : ℕ × Trace)
      → bus < 8
      → r.0 ≡ count_below (bus * 256) (present space)
      → (for_cells 32 8 (probe_function dev bus) r).0 ≡ count_below (suc bus * 256) (present space)
  scan_bus bus r hb e =
      let start : bus * 256 ≡ bus * 256 + 0 = omega arith in
      let end : suc bus * 256 ≡ bus * 256 + 32 * 8 = omega arith in
      rw end (
        for_cells_inv (λ k (r : ℕ × Trace). r.0 ≡ count_below (bus * 256 + k) (present space)) 32 8
          (probe_function dev bus) r (λ slot func r hs hf e. probe_cell bus slot func r hb hs hf e)
          (rw (← start) e))

-- On a bridge that answers from a configuration space, the count that decides whether "No PCI devices found" is
-- printed is the number of functions on the first eight buses whose vendor is neither 0xFFFF nor 0.
pub scan_functions-count :
    (dev : Device) (space : ℕ → ℕ) (t : Trace)
    → Answers dev space
    → (scan_functions dev (0, t)).0 ≡ count_below 2048 (present space)
unfolding scan_functions
scan_functions-count dev space t answers =
    for_up_inv (λ bus (r : ℕ × Trace). r.0 ≡ count_below (bus * 256) (present space))
      (λ bus. for_cells 32 8 (probe_function dev bus)) 8 0 8 (0, t)
      (λ bus r p q e. scan_bus dev space answers bus r q e) refl (unfold count_below in refl)
