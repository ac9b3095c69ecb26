-- ===== src/Tests/Video.antt =====
-- The VGA hardware as registers that read back what was written, and the command line `quiet res=80x50`.
use hueos.Base.{
  ℕ, ◌+◌, ◌-◌, ◌≤◌, ◌≡◌, length, refl, arith, ◌∷◌, [], ◌++◌, some, true, codes, ltb, if◌then◌else◌,
  u8, ◌==◌, ◌&&◌, Bool-cases, inl, inr,
}
use hueos.Numbers.{number_string}
use hueos.Vesa.Setup.{number_line, dimensions_text}
use hueos.Vesa.Setup.Texts.{texts_fit}
use hueos.Io.{
  Trace, Device, last_written, out8, in8, out16, in16, out32, in32, serial_text, terminal_text,
  terminal_char, gdt_flush, idt_flush, wrmsr,
}
use hueos.Terminal.{boot_terminal}
use hueos.Font.{glyph_row}
use hueos.Font.Reversal.{bit}
use hueos.Vesa.{Video, load_8x8_font, copy_font}
use hueos.Vesa.Plane.{plane_address, copy_font-pixel}
use hueos.Vesa.Registers.{held, load_8x8_font-restores}
use hueos.Vesa.Modes.{parse_resolution, starts_with}
use hueos.Vesa.Modes.Prefix.{keyword, Quiet, resized, mode_at, parse_resolution-mode}
use hueos.Vesa.Setup.Dimensions.{Fits}

-- The register file, byte by byte.
abbrev vga : Device
vga = record {
  read8 = λ t port. held (port - 1) (last_written t (port - 1)) t;
  read16 = λ t port. 0;
  read32 = λ t port. 0;
}

abbrev pub video : Video
video = record { term = boot_terminal (λ _. 0); ram = λ _. 0; trace = [] }

pub boot-Fits : Fits video.term
boot-Fits = record {
  inside = record {
    sized = record {
      wide = omega arith;
      tall = omega arith;
      area = omega arith;
      height = omega arith;
    };
    row = omega arith;
    column = omega arith;
  };
  narrow = omega arith;
  wide = omega arith;
  low = omega arith;
  high = omega arith;
}

quiet : Quiet (codes "quiet ") (keyword true ++ ((mode_at 1).name ++ []))
unfolding starts_with
quiet = (refl, refl, (refl, refl, (refl, refl, (refl, refl, (refl, refl, (refl, refl, tt))))))

parse_resolution-mode_example :
    (let (found, s') =
        parse_resolution vga
          (some (codes "quiet " ++ (keyword true ++ ((mode_at 1).name ++ []))))
          video in
      (found ≡ true) × (s'.term ≡ (resized (mode_at 1) video).term))
parse_resolution-mode_example =
    parse_resolution-mode vga (codes "quiet ") [] true 1 video (omega arith) quiet

copy_font-pixel_example :
    bit (copy_font (λ _. 0) (plane_address b'A' 0)) (7 - 2)
    ≡ bit (glyph_row (if ltb b'A' 128 then b'A' else 0) 0) 2
copy_font-pixel_example =
    copy_font-pixel (λ _. 0) b'A' 0 2 (omega arith) (omega arith) (omega arith)

held-u8 : (index register : ℕ) (t : Trace) → u8 (held index register t) ≡ held index register t
unfolding held
held-u8 index register [] = refl
held-u8 index register (out8 p v ∷ t) =
    elim (Bool-cases ((p == index + 1) && (last_written t index == register))) [
      | inl e ↦ rw e (omega arith)
      | inr e ↦ rw e (held-u8 index register t)
    ]
held-u8 index register (in8 p v ∷ t) = held-u8 index register t
held-u8 index register (out16 p v ∷ t) = held-u8 index register t
held-u8 index register (in16 p v ∷ t) = held-u8 index register t
held-u8 index register (out32 p v ∷ t) = held-u8 index register t
held-u8 index register (in32 p v ∷ t) = held-u8 index register t
held-u8 index register (serial_text s ∷ t) = held-u8 index register t
held-u8 index register (terminal_text s ∷ t) = held-u8 index register t
held-u8 index register (terminal_char c ∷ t) = held-u8 index register t
held-u8 index register (gdt_flush a ∷ t) = held-u8 index register t
held-u8 index register (idt_flush a ∷ t) = held-u8 index register t
held-u8 index register (wrmsr a v ∷ t) = held-u8 index register t

load_8x8_font-restores_example :
    (let t = (load_8x8_font vga video).trace in
      (held 0x3C4 0x02 t ≡ held 0x3C4 0x02 [])
      × (held 0x3CE 0x05 t ≡ held 0x3CE 0x05 [])
      × (held 0x3CE 0x06 t ≡ held 0x3CE 0x06 [])
      × (held 0x3C4 0x04 t ≡ 0x03))
load_8x8_font-restores_example =
    load_8x8_font-restores vga video (λ t. held-u8 0x3C4 (last_written t 0x3C4) t)
      (λ t. held-u8 0x3CE (last_written t 0x3CE) t)

texts_fit_example :
    (length (number_line 0xFFFFFFFF) + 1 ≤ 20)
    × (length (number_string 0xFFFFFFFF) + 1 ≤ 16)
    × (length (dimensions_text 132 43) + 1 ≤ 16)
    × (length (dimensions_text 240 135) + 1 ≤ 20)
texts_fit_example =
    texts_fit 0xFFFFFFFF 132 43 240 135 (omega arith) refl (omega arith) (omega arith)
