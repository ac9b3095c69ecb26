-- ===== src/Hyperv/Vendor.antt =====
-- What kernel/hyperv.c takes for Hyper-V.
use hueos.Base.{
  ℕ, ◌*◌, ◌/◌, ◌%◌, ◌^◌, ◌<◌, ◌≡◌, ◌∙◌, ◌↔◌, refl, sym, ap, arith, ◌∷◌, [], ◌++◌, Bool, true, ◌&&◌,
  ◌==◌, ==_iff, and-true, bit_and, bit_and-field, is_set, Bytes, codes, get_or, Bool-cases, inl,
  inr, ltb→lt, lt→ltb,
}
use mathlib.Core.Bool.{true≢false}
use hueos.Io.{Trace}
use hueos.Hyperv.{Registers, HyperV, detect_hyperv, init_hyperv}

-- The four bytes of a register, the lowest first.
abbrev pub word_bytes : ℕ → Bytes
word_bytes w = w % 256 ∷ w / 2 ^ 8 % 256 ∷ w / 2 ^ 16 % 256 ∷ w / 2 ^ 24 % 256 ∷ []

-- The name of the hypervisor, in the three registers of the first hypervisor leaf.
abbrev pub vendor : (ℕ → Registers) → Bytes
vendor cpuid =
    word_bytes (cpuid 0x40000000).ebx
    ++ word_bytes (cpuid 0x40000000).ecx
    ++ word_bytes (cpuid 0x40000000).edx

-- The registers have 32 bits.
abbrev pub Are32 : Registers → Type 0
Are32 r = (r.ebx < 2 ^ 32) × (r.ecx < 2 ^ 32) × (r.edx < 2 ^ 32)

signature : Registers → Bool
signature r = (r.ebx == 0x7263694D) && (r.ecx == 0x666F736F) && (r.edx == 0x76482074)

-- The comparison of the three words reads the text.
signature-text :
    (r : Registers)
    → Are32 r
    → (signature r ≡ true)
      ↔ (word_bytes r.ebx ++ word_bytes r.ecx ++ word_bytes r.edx ≡ codes "Microsoft Hv")
unfolding signature
signature-text r (hb, hc, hd) = (reads, spelled)
  where
    whole : Bytes
    whole = word_bytes r.ebx ++ word_bytes r.ecx ++ word_bytes r.edx

    reads : signature r ≡ true → whole ≡ codes "Microsoft Hv"
    reads h =
        let (first, d) =
          and-true ((r.ebx == 0x7263694D) && (r.ecx == 0x666F736F)) (r.edx == 0x76482074) h in
        let (b, c) = and-true (r.ebx == 0x7263694D) (r.ecx == 0x666F736F) first in
        rw
          (
            (==_iff r.ebx 0x7263694D).0 b,
            (==_iff r.ecx 0x666F736F).0 c,
            (==_iff r.edx 0x76482074).0 d,
          )
          refl

    byte :
        whole ≡ codes "Microsoft Hv"
        → (k : ℕ) → get_or whole k 0 ≡ get_or (codes "Microsoft Hv") k 0
    byte e k = ap (λ l. get_or l k 0) e

    spelled : whole ≡ codes "Microsoft Hv" → signature r ≡ true
    spelled e =
        let b : r.ebx ≡ 0x7263694D = omega (arith, byte e 0, byte e 1, byte e 2, byte e 3) in
        let c : r.ecx ≡ 0x666F736F = omega (arith, byte e 4, byte e 5, byte e 6, byte e 7) in
        let d : r.edx ≡ 0x76482074 = omega (arith, byte e 8, byte e 9, byte e 10, byte e 11) in
        rw (b, c, d) refl

-- Bit 31 of ECX of leaf 1.
present-bit : (ecx : ℕ) → (is_set (bit_and ecx 0x80000000) ≡ true) ↔ (ecx / 2 ^ 31 % 2 ≡ 1)
present-bit ecx =
    let field : bit_and ecx 0x80000000 ≡ ecx / 2 ^ 31 % 2 * 2 ^ 31 = bit_and-field 31 1 ecx in
    (
      (λ h.
          let set : 0 < bit_and ecx 0x80000000 = ltb→lt 0 (bit_and ecx 0x80000000) h in
          omega arith),
      (λ h. lt→ltb 0 (bit_and ecx 0x80000000) (omega arith)),
    )

-- Hyper-V is taken to be there exactly when the hypervisor bit of leaf 1 is set and the registers of the first
-- hypervisor leaf spell "Microsoft Hv".
pub init_hyperv-vendor :
    (cpuid : ℕ → Registers) (s : HyperV) (t : Trace)
    → Are32 (cpuid 0x40000000)
    → ((init_hyperv cpuid (s, t)).0.hyperv_detected ≡ true)
      ↔ (((cpuid 1).ecx / 2 ^ 31 % 2 ≡ 1) × (vendor cpuid ≡ codes "Microsoft Hv"))
unfolding init_hyperv detect_hyperv signature
init_hyperv-vendor cpuid s t small =
    let text = signature-text (cpuid 0x40000000) small in
    let bit = present-bit (cpuid 1).ecx in
    elim (Bool-cases (is_set (bit_and (cpuid 1).ecx 0x80000000))) [
      | inl e ↦ elim (Bool-cases (signature (cpuid 0x40000000))) [
        | inl f ↦ rw (e, f) ((λ _. (bit.0 e, text.0 f)), (λ _. refl))
        | inr f ↦
            rw (e, f)
              (
                (λ h. absurd (true≢false (sym h))),
                (λ p. absurd (true≢false (sym (text.1 p.1) ∙ f))),
              )
      ]
      | inr e ↦
          rw e
            ((λ h. absurd (true≢false (sym h))), (λ p. absurd (true≢false (sym (bit.1 p.0) ∙ e))))
    ]
