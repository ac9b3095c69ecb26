-- ===== src/Gdt/Encoding.antt =====
-- What the processor reads from a descriptor that kernel/gdt.c has written.
use hueos.Base.{
  ℕ, ◌+◌, ◌*◌, ◌/◌, ◌%◌, ◌^◌, ◌<◌, ◌≡◌, ◌≢◌, refl, arith, bit_and, bit_or, bit_and-ones,
  bit_and-field, bit_or-fields, bit_or_comm, length, get_or, get_or-set_self, get_or-set_ne, u8,
  ◌>>>◌,
}
use hueos.Gdt.{GdtEntry, IdtEntry, Tables, gdt_set_gate, idt_set_gate}

-- The fields of a segment descriptor, put together as the processor does.
pub record Segment : Type 0 where
  pub base : ℕ
  pub limit : ℕ
  pub access : ℕ
  pub flags : ℕ

unfoldable pub segment : GdtEntry → Segment
segment e = record {
  base = e.base_low + e.base_middle * 2 ^ 16 + e.base_high * 2 ^ 24;
  limit = e.limit_low + e.granularity % 16 * 2 ^ 16;
  access = e.access;
  flags = e.granularity / 16;
}

abbrev pub null_entry : GdtEntry
null_entry = record {
  limit_low = 0;
  base_low = 0;
  base_middle = 0;
  access = 0;
  granularity = 0;
  base_high = 0;
}

-- `gdt_set_gate`'s granularity byte, as arithmetic.
granularity-eq :
    (limit gran : ℕ)
    → gran < 2 ^ 8
    → bit_or (u8 (bit_and (limit >>> 16) 0x0f)) (bit_and gran 0xf0)
      ≡ gran / 16 * 16 + limit / 2 ^ 16 % 16
granularity-eq limit gran hg =
    let low : u8 (bit_and (limit >>> 16) 0x0f) ≡ limit / 2 ^ 16 % 16 =
      omega (arith, bit_and-ones 4 (limit / 2 ^ 16)) in
    let high : bit_and gran 0xf0 ≡ gran / 16 * 2 ^ 4 = omega (arith, bit_and-field 4 4 gran) in
    rw (low, high, bit_or_comm (limit / 2 ^ 16 % 16) (gran / 16 * 2 ^ 4))
      (bit_or-fields 4 (gran / 16) (limit / 2 ^ 16 % 16) (omega arith))

-- For a gate inside the table, a base and a limit of 32 bits, and an access and a granularity of a byte each, the
-- scattered fields that `gdt_set_gate` writes come together again: the processor reads the whole base, the low 20 bits
-- of the limit, the access byte and the upper half of the granularity byte. No other gate of the table changes.
pub gdt_set_gate-segment :
    (num base limit access gran : ℕ) (s : Tables)
    → num < length s.gdt_entries
    → base < 2 ^ 32
    → limit < 2 ^ 32
    → access < 2 ^ 8
    → gran < 2 ^ 8
    → let s' = gdt_set_gate num base limit access gran s in
      (segment (get_or s'.gdt_entries num null_entry)
        ≡ record { base = base; limit = limit % 2 ^ 20; access = access; flags = gran / 16 })
      × ((j : ℕ) → num ≢ j → get_or s'.gdt_entries j null_entry ≡ get_or s.gdt_entries j null_entry)
unfolding gdt_set_gate segment
gdt_set_gate-segment num base limit access gran s inside hb hl ha hg = (
  rw (get_or-set_self s.gdt_entries num _ null_entry inside) (
      ground (
        arith,
        granularity-eq limit gran,
        bit_and-ones 16 base,
        bit_and-ones 8 (base / 2 ^ 16),
        bit_and-ones 8 (base / 2 ^ 24),
        bit_and-ones 16 limit,
      )),
  λ j ne. get_or-set_ne s.gdt_entries num j _ null_entry ne,
)

abbrev pub absent : IdtEntry
absent = record { base_low = 0; sel = 0; always0 = 0; flags = 0; base_high = 0 }

-- The handler's address comes together again, and selector and flags are kept; no other gate of
-- the table changes.
idt_set_gate-handler :
    (num base sel flags : ℕ) (s : Tables)
    → num < 256
    → num < length s.idt_entries
    → base < 2 ^ 32
    → let s' = idt_set_gate num base sel flags s in
      let e = get_or s'.idt_entries num absent in
      (e.base_low + e.base_high * 2 ^ 16 ≡ base)
      × (e.sel ≡ sel)
      × (e.flags ≡ flags)
      × ((j : ℕ) → num ≢ j → get_or s'.idt_entries j absent ≡ get_or s.idt_entries j absent)
unfolding idt_set_gate
idt_set_gate-handler num base sel flags s small inside hb =
    let same : u8 num ≡ num = omega arith in
    rw (same, get_or-set_self s.idt_entries num _ absent inside)
      (
        omega (arith, bit_and-ones 16 base, bit_and-ones 16 (base / 2 ^ 16)),
        refl,
        refl,
        λ j ne. get_or-set_ne s.idt_entries num j _ absent ne,
      )
