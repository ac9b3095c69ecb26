-- ===== src/Gdt.antt =====
-- kernel/gdt.c: the segment and interrupt descriptor tables.
pub mod Encoding
pub mod Setup
use hueos.Base.{
  ℕ, ◌+◌, ◌-◌, ◌*◌, ◌∷◌, List, bit_and, bit_or, u8, u16, u32, ◌>>>◌, get_or, set, for_up,
}
use hueos.Io.{Trace, gdt_flush, idt_flush}

pub record GdtEntry : Type 0 where
  pub limit_low : ℕ
  pub base_low : ℕ
  pub base_middle : ℕ
  pub access : ℕ
  pub granularity : ℕ
  pub base_high : ℕ

-- `struct gdt_ptr` and `struct idt_ptr`.
pub record TablePtr : Type 0 where
  pub limit : ℕ
  pub base : ℕ

pub record IdtEntry : Type 0 where
  pub base_low : ℕ
  pub sel : ℕ
  pub always0 : ℕ
  pub flags : ℕ
  pub base_high : ℕ

-- The arrays and the two pointers that are loaded.
pub record Tables : Type 0 where
  pub gdt_entries : List GdtEntry
  pub gdt_ptr : TablePtr
  pub idt_entries : List IdtEntry
  pub idt_ptr : TablePtr

unfoldable pub gdt_set_gate : ℕ → ℕ → ℕ → ℕ → ℕ → Tables → Tables
gdt_set_gate num base limit access gran s =
    let low = u8 (bit_and (limit >>> 16) 0x0f) in
    let entry : GdtEntry = record {
      limit_low = u16 (bit_and limit 0xffff);
      base_low = u16 (bit_and base 0xffff);
      base_middle = u8 (bit_and (base >>> 16) 0xff);
      access = u8 access;
      granularity = u8 (bit_or low (bit_and gran 0xf0));
      base_high = u8 (bit_and (base >>> 24) 0xff);
    } in
    record s { gdt_entries = set s.gdt_entries num entry }

unfoldable pub idt_set_gate : ℕ → ℕ → ℕ → ℕ → Tables → Tables
idt_set_gate num base sel flags s =
    let entry : IdtEntry = record {
      base_low = u16 (bit_and base 0xffff);
      sel = sel;
      always0 = 0;
      flags = flags;
      base_high = u16 (bit_and (base >>> 16) 0xffff);
    } in
    record s { idt_entries = set s.idt_entries (u8 num) entry }

-- Where the linker puts the variables whose addresses are taken.
pub record Addresses : Type 0 where
  pub of_gdt_entries : ℕ
  pub of_gdt_ptr : ℕ
  pub of_idt_entries : ℕ
  pub of_idt_ptr : ℕ

module _ (addr : Addresses) where
  unfoldable pub init_gdt : Tables × Trace → Tables × Trace
  unfolding gdt_set_gate
  init_gdt (s, t) =
      let s₀ : Tables = record s {
        gdt_ptr = record { limit = u16 (8 * 5 - 1); base = addr.of_gdt_entries };
      } in
      let s₁ = gdt_set_gate 0 0 0 0 0 s₀ in
      let s₂ = gdt_set_gate 1 0 0xffffffff 0x9a 0xcf s₁ in
      let s₃ = gdt_set_gate 2 0 0xffffffff 0x92 0xcf s₂ in
      let s₄ = gdt_set_gate 3 0 0xffffffff 0xfa 0xcf s₃ in
      let s₅ = gdt_set_gate 4 0 0xffffffff 0xf2 0xcf s₄ in (s₅, gdt_flush addr.of_gdt_ptr ∷ t)

  unfoldable pub init_idt : Tables × Trace → Tables × Trace
  init_idt (s, t) =
      let s₀ : Tables = record s {
        idt_ptr = record { limit = u16 (8 * 256 - 1); base = addr.of_idt_entries };
      } in
      (for_up 256 0 (λ i. idt_set_gate i 0 0 0) s₀, idt_flush addr.of_idt_ptr ∷ t)
