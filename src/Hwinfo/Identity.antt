-- ===== src/Hwinfo/Identity.antt =====
-- What `detect_cpu` of kernel/hwinfo.c takes from CPUID.
use hueos.Base.{
  ℕ, suc, ◌+◌, ◌*◌, ◌/◌, ◌%◌, ◌^◌, ◌≤◌, ◌<◌, ◌≡◌, ◌⊎◌, ◌∙◌, inl, inr, refl, arith, bit_and,
  bit_and-ones, ◌>>>◌, u8, leb, leb→le, Bool-cases, List, [], ◌∷◌, Bytes, length, length-set,
  get_or, set, get_or-set_self, get_or-set_ne, ℕ_discrete, for_up_inv,
}
use hueos.Hyperv.{Registers}
use hueos.Hwinfo.{CpuInfo, put_register, detect_cpu}

-- Byte `i` of a register.
abbrev pub byte_at : ℕ → ℕ → ℕ
byte_at reg i = reg / 2 ^ (i * 8) % 256

-- After `i` bytes of a register.
record Written (at reg : ℕ) (before : Bytes) (i : ℕ) (v : Bytes) : Type 0 where
  size : length v ≡ length before
  bytes : (k : ℕ) → k < i → get_or v (k + at) 0 ≡ byte_at reg k
  others : (p : ℕ) → (p < at) ⊎ (at + i ≤ p) → get_or v p 0 ≡ get_or before p 0

one_byte-Written :
    (at reg i : ℕ) (before v : Bytes)
    → i + at < length before
    → Written at reg before i v
    → Written at reg before (suc i) (set v (i + at) (u8 (reg >>> (i * 8))))
one_byte-Written at reg i before v room h =
    let c : ℕ = u8 (reg >>> (i * 8)) in
    record {
      size = length-set v (i + at) c ∙ h.size;
      bytes = λ k lt. elim (ℕ_discrete k i) [
        | yes e ↦ rw e (get_or-set_self v (i + at) c 0 (omega (arith, h.size)))
        | no ne ↦ get_or-set_ne v (i + at) (k + at) c 0 (omega arith) ∙ h.bytes k (omega arith)
      ];
      others = λ p out.
          get_or-set_ne v (i + at) p c 0
            (elim out [ inl a ↦ (λ e. absurd (omega arith)) | inr b ↦ (λ e. absurd (omega arith)) ])
          ∙ h.others p (elim out [ inl a ↦ inl a | inr b ↦ inr (omega arith) ]);
    }

put_register-Written :
    (at reg : ℕ) (v : Bytes) → at + 4 ≤ length v → Written at reg v 4 (put_register at reg v)
unfolding put_register
put_register-Written at reg v room =
    for_up_inv (λ i u. Written at reg v i u) (λ i u. set u (i + at) (u8 (reg >>> (i * 8)))) 4 0 4 v
      (λ i u p q h. one_byte-Written at reg i v u (omega arith) h) refl
      (record { size = refl; bytes = λ k lt. absurd (omega arith); others = λ p out. refl })

-- The identity that the processor reports: the text of the three registers of leaf 0, in the order EBX, EDX, ECX.
pub record IsVendor (r : Registers) (v : Bytes) : Type 0 where
  pub first : (i : ℕ) → i < 4 → get_or v i 0 ≡ byte_at r.ebx i
  pub second : (i : ℕ) → i < 4 → get_or v (4 + i) 0 ≡ byte_at r.edx i
  pub third : (i : ℕ) → i < 4 → get_or v (8 + i) 0 ≡ byte_at r.ecx i
  pub end : get_or v 12 0 ≡ 0

texts-IsVendor :
    (r : Registers) (v : Bytes)
    → length v ≡ 13
    → IsVendor r (set (put_register 8 r.ecx (put_register 4 r.edx (put_register 0 r.ebx v))) 12 0)
texts-IsVendor r v size =
    let a = put_register 0 r.ebx v in
    let b = put_register 4 r.edx a in
    let c = put_register 8 r.ecx b in
    let pa = put_register-Written 0 r.ebx v (omega arith) in
    let pb = put_register-Written 4 r.edx a (omega (arith, pa.size)) in
    let pc = put_register-Written 8 r.ecx b (omega (arith, pa.size, pb.size)) in
    record {
      first = λ i lt.
          let e : i + 0 ≡ i = omega arith in
          get_or-set_ne c 12 i 0 0 (omega arith)
          ∙ pc.others i (inl (omega arith))
          ∙ pb.others i (inl (omega arith))
          ∙ (rw e at (pa.bytes i lt));
      second = λ i lt.
          let e : i + 4 ≡ 4 + i = omega arith in
          get_or-set_ne c 12 (4 + i) 0 0 (omega arith)
          ∙ pc.others (4 + i) (inl (omega arith))
          ∙ (rw e at (pb.bytes i lt));
      third = λ i lt.
          let e : i + 8 ≡ 8 + i = omega arith in
          get_or-set_ne c 12 (8 + i) 0 0 (omega arith) ∙ (rw e at (pc.bytes i lt));
      end = get_or-set_self c 12 0 0 (omega (arith, pa.size, pb.size, pc.size));
    }

-- The signature of the processor in the low twelve bits of EAX of leaf 1, and its feature bits.
pub record IsSignature (r : Registers) (c : CpuInfo) : Type 0 where
  pub fields : c.family * 2 ^ 8 + c.model * 2 ^ 4 + c.stepping ≡ r.eax % 2 ^ 12
  pub digits : (c.family < 16) × (c.model < 16) × (c.stepping < 16)
  pub features : (c.features_edx ≡ r.edx) × (c.features_ecx ≡ r.ecx)

features-IsSignature :
    (r : Registers) (id : List ℕ) (text : Bytes)
    → IsSignature r (record {
      vendor_id = id;
      vendor_string = text;
      family = bit_and (r.eax >>> 8) 0xF;
      model = bit_and (r.eax >>> 4) 0xF;
      stepping = bit_and r.eax 0xF;
      features_edx = r.edx;
      features_ecx = r.ecx;
    })
features-IsSignature r id text =
    let high = bit_and-ones 4 (r.eax >>> 8) in
    let middle = bit_and-ones 4 (r.eax >>> 4) in
    let low = bit_and-ones 4 r.eax in
    record {
      fields = omega arith;
      digits = (omega arith, omega arith, omega arith);
      features = (refl, refl);
    }

id_words :
    (r : Registers) (id : List ℕ)
    → length id ≡ 4
    → let d = set (set (set (set id 0 r.ebx) 1 r.edx) 2 r.ecx) 3 0 in
      (get_or d 0 0 ≡ r.ebx) × (get_or d 1 0 ≡ r.edx) × (get_or d 2 0 ≡ r.ecx) × (get_or d 3 0 ≡ 0)
id_words r (a ∷ b ∷ c ∷ d ∷ []) size = (refl, refl, refl, refl)
id_words r [] size = absurd (omega arith)
id_words r (a ∷ []) size = absurd (omega arith)
id_words r (a ∷ b ∷ []) size = absurd (omega arith)
id_words r (a ∷ b ∷ c ∷ []) size = absurd (omega arith)
id_words r (a ∷ b ∷ c ∷ d ∷ e ∷ rest) size = absurd (omega arith)

-- `detect_cpu` leaves the twelve letters of leaf 0 and a NUL as the vendor, its words as the identifier; if the
-- processor has leaf 1, also the family, model and stepping whose digits are the low twelve bits of EAX, and the two
-- feature registers; if not, these five fields are unchanged.
pub detect_cpu_identity :
    (cpuid : ℕ → Registers) (c : CpuInfo)
    → length c.vendor_string ≡ 13
    → length c.vendor_id ≡ 4
    → let d = detect_cpu cpuid c in
      IsVendor (cpuid 0) d.vendor_string
      × ((get_or d.vendor_id 0 0 ≡ (cpuid 0).ebx)
          × (get_or d.vendor_id 1 0 ≡ (cpuid 0).edx)
          × (get_or d.vendor_id 2 0 ≡ (cpuid 0).ecx)
          × (get_or d.vendor_id 3 0 ≡ 0))
      × (1 ≤ (cpuid 0).eax → IsSignature (cpuid 1) d)
      × ((cpuid 0).eax ≡ 0
          → (d.family ≡ c.family)
            × (d.model ≡ c.model)
            × (d.stepping ≡ c.stepping)
            × (d.features_edx ≡ c.features_edx)
            × (d.features_ecx ≡ c.features_ecx))
unfolding detect_cpu
detect_cpu_identity cpuid c size words =
    let vendor = texts-IsVendor (cpuid 0) c.vendor_string size in
    let id = id_words (cpuid 0) c.vendor_id words in
    elim (Bool-cases (leb 1 (cpuid 0).eax)) [
      | inl e ↦
          let some_leaf = leb→le 1 (cpuid 0).eax e in
          rw e
            (vendor, id, (λ _. features-IsSignature (cpuid 1) _ _), (λ none. absurd (omega arith)))
      | inr e ↦
          let no_leaf : (cpuid 0).eax ≡ 0 = ground arith in
          rw e (vendor, id, (λ more. absurd (omega arith)), (λ _. (refl, refl, refl, refl, refl)))
    ]
