-- ===== src/Tests/Tables.antt =====
-- The descriptor tables as the kernel starts.
use hueos.Base.{ℕ, ◌^◌, ◌/◌, ◌%◌, ◌≡◌, ◌≢◌, arith, get_or, replicate}
use hueos.Gdt.{Tables, Addresses, gdt_set_gate}
use hueos.Gdt.Encoding.{null_entry, absent, segment, gdt_set_gate-segment}

abbrev pub tables : Tables
tables = record {
  gdt_entries = replicate 5 null_entry;
  gdt_ptr = record { limit = 0; base = 0 };
  idt_entries = replicate 256 absent;
  idt_ptr = record { limit = 0; base = 0 };
}

abbrev pub addresses : Addresses
addresses = record {
  of_gdt_entries = 0x104000;
  of_gdt_ptr = 0x104028;
  of_idt_entries = 0x105000;
  of_idt_ptr = 0x105800;
}

-- The code segment.
gdt_set_gate-segment_example :
    let s' = gdt_set_gate 1 0x12345678 0xFFFFFFFF 0x9A 0xCF tables in
    (segment (get_or s'.gdt_entries 1 null_entry)
      ≡ record { base = 0x12345678; limit = 0xFFFFFFFF % 2 ^ 20; access = 0x9A; flags = 0xCF / 16 })
    × ((j : ℕ)
        → 1 ≢ j
        → get_or s'.gdt_entries j null_entry ≡ get_or tables.gdt_entries j null_entry)
gdt_set_gate-segment_example =
    gdt_set_gate-segment 1 0x12345678 0xFFFFFFFF 0x9A 0xCF tables (omega arith) (omega arith)
      (omega arith) (omega arith) (omega arith)
