-- ===== src/Gdt/Setup.antt =====
-- `init_gdt` and `init_idt` of kernel/gdt.c: the tables that the kernel runs with.
use hueos.Base.{
  ℕ, suc, ◌+◌, ◌*◌, ◌<◌, ◌≡◌, refl, List, [], ◌∷◌, map, arith, length, get_or, length-set,
  get_or-set_self, get_or-set_ne, for_up, for_up_inv, u8,
}
use native.Mathlib.Decide.{ℕ_discrete}
use hueos.Io.{Trace, gdt_flush, idt_flush}
use hueos.Gdt.{GdtEntry, Tables, Addresses, idt_set_gate, init_gdt, init_idt}
use hueos.Gdt.Encoding.{Segment, segment, absent}

-- A segment over all of the address space: base 0, 2^20 pages, 32-bit.
abbrev pub flat : ℕ → Segment
flat access = record { base = 0; limit = 0xfffff; access = access; flags = 12 }

abbrev pub null_segment : Segment
null_segment = record { base = 0; limit = 0; access = 0; flags = 0 }

-- Whatever the table held, `init_gdt` leaves the null segment and four flat segments (code and
-- data for the kernel, code and data for the user), points the pointer at exactly these five
-- entries, leaves the interrupt table alone and loads the pointer last.
pub init_gdt-flat :
    (addr : Addresses) (s : Tables) (t : Trace)
    → length s.gdt_entries ≡ 5
    → let (s', t') = init_gdt addr (s, t) in
      (map segment s'.gdt_entries
        ≡ null_segment ∷ flat 0x9a ∷ flat 0x92 ∷ flat 0xfa ∷ flat 0xf2 ∷ [])
      × (s'.gdt_ptr.limit + 1 ≡ 8 * length s'.gdt_entries)
      × (s'.gdt_ptr.base ≡ addr.of_gdt_entries)
      × (s'.idt_entries ≡ s.idt_entries)
      × (t' ≡ gdt_flush addr.of_gdt_ptr ∷ t)
unfolding init_gdt segment
init_gdt-flat addr s t h = five s.gdt_entries h
  where
    five :
        (es : List GdtEntry)
        → length es ≡ 5
        → let (s', t') = init_gdt addr (record s { gdt_entries = es }, t) in
          (map segment s'.gdt_entries
            ≡ null_segment ∷ flat 0x9a ∷ flat 0x92 ∷ flat 0xfa ∷ flat 0xf2 ∷ [])
          × (s'.gdt_ptr.limit + 1 ≡ 8 * length s'.gdt_entries)
          × (s'.gdt_ptr.base ≡ addr.of_gdt_entries)
          × (s'.idt_entries ≡ s.idt_entries)
          × (t' ≡ gdt_flush addr.of_gdt_ptr ∷ t)
    five [] e = absurd (omega arith)
    five (a ∷ []) e = absurd (omega arith)
    five (a ∷ b ∷ []) e = absurd (omega arith)
    five (a ∷ b ∷ c ∷ []) e = absurd (omega arith)
    five (a ∷ b ∷ c ∷ d ∷ []) e = absurd (omega arith)
    five (a ∷ b ∷ c ∷ d ∷ f ∷ []) e = (refl, refl, refl, refl, refl)
    five (a ∷ b ∷ c ∷ d ∷ f ∷ g ∷ r) e = absurd (omega arith)

-- The first `n` gates are cleared, and nothing but gates has changed since `s₀`.
abbrev Cleared : Tables → ℕ → Tables → Type 0
Cleared s₀ n s =
    (length s.idt_entries ≡ 256)
    × (s.idt_ptr ≡ s₀.idt_ptr)
    × (s.gdt_entries ≡ s₀.gdt_entries)
    × ((i : ℕ) → i < n → get_or s.idt_entries i absent ≡ absent)

idt_set_gate-Cleared :
    (s₀ : Tables) (n : ℕ) (s : Tables)
    → n < 256
    → Cleared s₀ n s
    → Cleared s₀ (suc n) (idt_set_gate n 0 0 0 s)
unfolding idt_set_gate
idt_set_gate-Cleared s₀ n s small c =
    let same : u8 n ≡ n = omega arith in
    (
      rw (same, length-set) c.0,
      c.1,
      c.2,
      λ i below. rw same (elim (ℕ_discrete n i) [
        | yes e ↦ rw (← e) (get_or-set_self s.idt_entries n absent absent (omega arith))
        | no ne ↦ rw (get_or-set_ne s.idt_entries n i absent absent ne) (c.3 i (omega arith))
      ]),
    )

-- `init_idt` clears all 256 interrupt gates, so that none is present, points the pointer at exactly
-- these entries, leaves the segment table alone and loads the pointer last.
pub init_idt-absent :
    (addr : Addresses) (s : Tables) (t : Trace)
    → length s.idt_entries ≡ 256
    → let (s', t') = init_idt addr (s, t) in
      ((i : ℕ) → i < 256 → get_or s'.idt_entries i absent ≡ absent)
      × (s'.idt_ptr.limit + 1 ≡ 8 * length s'.idt_entries)
      × (s'.idt_ptr.base ≡ addr.of_idt_entries)
      × (s'.gdt_entries ≡ s.gdt_entries)
      × (t' ≡ idt_flush addr.of_idt_ptr ∷ t)
unfolding init_idt
init_idt-absent addr s t h = (done.3, rw (done.1, done.0), rw done.1, done.2, refl)
  where
    start : Tables
    start = record s { idt_ptr = record { limit = 2047; base = addr.of_idt_entries } }

    done : Cleared start 256 (for_up 256 0 (λ i. idt_set_gate i 0 0 0) start)
    done =
        for_up_inv (Cleared start) (λ i. idt_set_gate i 0 0 0) 256 0 256 start
          (λ j u _ below c. idt_set_gate-Cleared start j u below c) (omega arith)
          (h, refl, refl, λ i below. absurd (omega arith))
