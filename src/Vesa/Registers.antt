-- ===== src/Vesa/Registers.antt =====
-- The indexed VGA registers that kernel/vesa.c saves and restores.
use hueos.Base.{ℕ, ◌+◌, ◌≡◌, refl, ◌∙◌, arith, ◌∷◌, [], ◌&&◌, ◌==◌, if◌then◌else◌, u8}
use hueos.Io.{
  Trace, Device, last_written, out8, in8, out16, in16, out32, in32, serial_text, terminal_text,
  terminal_char, gdt_flush, idt_flush, wrmsr,
}
use hueos.Vesa.{Video, load_8x8_font}

-- What a register holds, by the writes to the pair of an index port and the data port after it.
unfoldable pub held : ℕ → ℕ → Trace → ℕ
unfolding last_written
held index register [] = 0
held index register (out8 p v ∷ t) =
    let rest = held index register t in
    if (p == index + 1) && (last_written t index == register) then u8 v else rest
held index register (in8 p v ∷ t) = held index register t
held index register (out16 p v ∷ t) = held index register t
held index register (in16 p v ∷ t) = held index register t
held index register (out32 p v ∷ t) = held index register t
held index register (in32 p v ∷ t) = held index register t
held index register (serial_text s ∷ t) = held index register t
held index register (terminal_text s ∷ t) = held index register t
held index register (terminal_char c ∷ t) = held index register t
held index register (gdt_flush a ∷ t) = held index register t
held index register (idt_flush a ∷ t) = held index register t
held index register (wrmsr a v ∷ t) = held index register t

-- The data port of the pair reads back what the selected register holds.
abbrev pub Remembers : Device → ℕ → Type 0
Remembers dev index =
    (t : Trace) → u8 (dev.read8 t (index + 1)) ≡ held index (last_written t index) t

thrice : (x : ℕ) → u8 (u8 (u8 x)) ≡ u8 x
thrice x = omega arith

-- On hardware whose sequencer and graphics registers read back what was written, the load of the font leaves the map
-- mask and the two graphics registers as they were, and the sequencer's memory mode at 3, that of text.
pub load_8x8_font-restores :
    (dev : Device) (s : Video)
    → Remembers dev 0x3C4
    → Remembers dev 0x3CE
    → (let t = (load_8x8_font dev s).trace in
        (held 0x3C4 0x02 t ≡ held 0x3C4 0x02 s.trace)
        × (held 0x3CE 0x05 t ≡ held 0x3CE 0x05 s.trace)
        × (held 0x3CE 0x06 t ≡ held 0x3CE 0x06 s.trace)
        × (held 0x3C4 0x04 t ≡ 0x03))
unfolding held last_written load_8x8_font
load_8x8_font-restores dev s seq gc = (
  thrice (dev.read8 _ 965) ∙ seq _,
  thrice (dev.read8 _ 975) ∙ gc _,
  thrice (dev.read8 _ 975) ∙ gc _,
  refl,
)
