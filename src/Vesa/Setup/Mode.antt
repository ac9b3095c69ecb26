-- ===== src/Vesa/Setup/Mode.antt =====
-- When the set-up of kernel/vesa.c leaves the video mode of the boot loader: the miscellaneous output register, which
-- only the switch to VGA text mode writes, keeps its value.
use hueos.Base.{
  ℕ, ◌^◌, ◌≡◌, ◌≢◌, ◌⊎◌, ◌∙◌, refl, arith, inl, inr, Bool, true, false, if◌then◌else◌, ◌&&◌, ◌==◌,
  ◌++◌, ◌∷◌, [], Bool-cases, Option, none, some, ◌>>=◌, Bytes, is_set, bit_and,
}
use hueos.Io.{Trace, Device, last_written, to_serial}
use hueos.Multiboot.{MultibootInfo}
use hueos.Numbers.{hex_word}
use hueos.Vesa.{Video, say, TextMode, text_modes, load_8x8_font, set_132_column_mode}
use hueos.Vesa.Modes.{find_param, find_mode, apply_mode, pick_mode, read_param, parse_resolution}
use hueos.Vesa.Setup.{
  reasonable, detect_screen_size, read_screen_size, init_vesa, multiboot_size, use_multiboot_size,
  say_framebuffer, use_framebuffer, multiboot_or, init_vesa_with_mbi, say_bytes,
}

-- What was last written to the miscellaneous output register.
abbrev pub output_register : Trace → ℕ
output_register t = last_written t 0x3C2

abbrev KeepsMode : Video → Video → Type 0
KeepsMode v v' = output_register v'.trace ≡ output_register v.trace

-- The mode that a command line asks for is none, or not 80x50.
abbrev Quiet : Option TextMode → Type 0
Quiet o = (m : TextMode) → o ≡ some m → (m.width ≢ 80) ⊎ (m.height ≢ 50)

abbrev mode_of : Option Bytes → Option TextMode
mode_of o = o >>= λ q. find_mode q text_modes

abbrev param_of : Option Bytes → Option Bytes
param_of o = o >>= find_param

abbrev pub IsQuiet : Option Bytes → Type 0
IsQuiet cmdline = Quiet (mode_of (param_of cmdline))

-- The frame buffer is not the one of 640 by 400 pixels that the set-up takes for text mode.
abbrev pub IsKept : MultibootInfo → Type 0
IsKept mbi = (mbi.framebuffer_width ≢ 640) ⊎ (mbi.framebuffer_height ≢ 400)

-- A text that may be said changes nothing.
told :
    (b : Bool) (t : Trace)
    → output_register
        (if b then to_serial "VESA: Calculating text dimensions from graphics mode\n" t else t)
      ≡ output_register t
unfolding last_written
told true t = refl
told false t = refl

module _ (dev : Device) where
  apply_mode-KeepsMode :
      (m : TextMode) (v : Video)
      → (m.width ≢ 80) ⊎ (m.height ≢ 50)
      → KeepsMode v (apply_mode dev m v)
  unfolding apply_mode set_132_column_mode last_written
  apply_mode-KeepsMode m v other =
      let text : ((m.width == 80) && (m.height == 50)) ≡ false = ground (arith, other) in
      elim (Bool-cases ((m.width == 80) && (m.height == 25))) [
        | inl f ↦ rw (text, f) refl
        | inr f ↦ elim (Bool-cases (m.width == 132)) [
          | inl g ↦ rw (text, f, g) refl
          | inr g ↦ rw (text, f, g) refl
        ]
      ]

  pick_mode-KeepsMode :
      (o : Option TextMode) (v : Video) → Quiet o → KeepsMode v (pick_mode dev o v).1
  unfolding pick_mode
  pick_mode-KeepsMode none v quiet = refl
  pick_mode-KeepsMode (some m) v quiet = apply_mode-KeepsMode m v (quiet m refl)

  read_param-KeepsMode :
      (o : Option Bytes) (v : Video) → Quiet (mode_of o) → KeepsMode v (read_param dev o v).1
  unfolding read_param
  read_param-KeepsMode none v quiet = refl
  read_param-KeepsMode (some q) v quiet = pick_mode-KeepsMode (find_mode q text_modes) v quiet

  parse_resolution-KeepsMode :
      (cmdline : Option Bytes) (v : Video)
      → IsQuiet cmdline
      → KeepsMode v (parse_resolution dev cmdline v).1
  unfolding parse_resolution
  parse_resolution-KeepsMode none v quiet = refl
  parse_resolution-KeepsMode (some c) v quiet = read_param-KeepsMode (find_param c) v quiet

  detect_screen_size-KeepsMode : (v : Video) → KeepsMode v (detect_screen_size dev v)
  unfolding detect_screen_size read_screen_size last_written
  detect_screen_size-KeepsMode v =
      let (width, height, _) = read_screen_size dev v.trace in
      elim (Bool-cases (reasonable width height)) [ inl e ↦ rw e refl | inr e ↦ rw e refl ]

  init_vesa-KeepsMode :
      (cmdline : Option Bytes) (v : Video) → IsQuiet cmdline → KeepsMode v (init_vesa dev cmdline v)
  unfolding init_vesa last_written
  init_vesa-KeepsMode cmdline v quiet =
      let u : Video = say "VESA: Initializing video mode support\n" v in
      let parsed = parse_resolution-KeepsMode cmdline u quiet in
      elim (Bool-cases ((parse_resolution dev cmdline u).0)) [
        | inl e ↦ rw e parsed
        | inr e ↦ rw e (detect_screen_size-KeepsMode ((parse_resolution dev cmdline u).1) ∙ parsed)
      ]

  use_multiboot_size-KeepsMode :
      (mbi : MultibootInfo) (cmdline : Option Bytes) (v : Video)
      → IsQuiet cmdline
      → KeepsMode v (use_multiboot_size dev mbi (init_vesa dev cmdline) v)
  unfolding use_multiboot_size load_8x8_font last_written
  use_multiboot_size-KeepsMode mbi cmdline v quiet =
      let (width, height) = multiboot_size dev mbi in
      let said = told (mbi.framebuffer_type == 1) v.trace in
      elim (Bool-cases (reasonable width height)) [
        | inl e ↦ elim (Bool-cases ((width == 80) && (height == 50))) [
          | inl f ↦ rw (e, f) said
          | inr f ↦ rw (e, f) said
        ]
        | inr e ↦ rw e (init_vesa-KeepsMode cmdline _ quiet ∙ said)
      ]

  use_framebuffer-KeepsMode :
      (mbi : MultibootInfo) (cmdline : Option Bytes) (v : Video)
      → IsQuiet cmdline
      → IsKept mbi
      → KeepsMode v (use_framebuffer dev mbi (init_vesa dev cmdline) v)
  unfolding use_framebuffer say_framebuffer last_written
  use_framebuffer-KeepsMode mbi cmdline v quiet kept =
      let size : ((mbi.framebuffer_width == 640) && (mbi.framebuffer_height == 400)) ≡ false =
        ground (arith, kept) in
      elim (Bool-cases (mbi.framebuffer_type == 2)) [
        | inl e ↦ rw e (use_multiboot_size-KeepsMode mbi cmdline _ quiet)
        | inr e ↦ elim (Bool-cases (mbi.framebuffer_type == 1)) [
          | inl f ↦ rw (e, f, size) (use_multiboot_size-KeepsMode mbi cmdline _ quiet)
          | inr f ↦ rw (e, f) (init_vesa-KeepsMode cmdline _ quiet)
        ]
      ]

  -- Unless the command line asks for 80x50, or the frame buffer has 640 by 400 pixels, the set-up does not write the
  -- register.
  pub init_vesa_with_mbi-KeepsMode :
      (cmdline : Option Bytes) (mbi : MultibootInfo) (v : Video)
      → IsQuiet cmdline
      → IsKept mbi
      → output_register (init_vesa_with_mbi dev cmdline (some mbi) v).trace
        ≡ output_register v.trace
  unfolding init_vesa_with_mbi multiboot_or last_written
  init_vesa_with_mbi-KeepsMode cmdline mbi v quiet kept =
      let u : Video =
        say_bytes (hex_word mbi.flags ++ b'\n' ∷ [])
          (say "VESA: Multiboot flags = 0x" (say "VESA: Initializing video mode support\n" v)) in
      let parsed = parse_resolution-KeepsMode cmdline u quiet in
      elim (Bool-cases ((parse_resolution dev cmdline u).0)) [
        | inl e ↦ rw e parsed
        | inr e ↦ elim (Bool-cases (is_set (bit_and mbi.flags (2 ^ 12)))) [
          | inl f ↦ rw (e, f) (use_framebuffer-KeepsMode mbi cmdline _ quiet kept ∙ parsed)
          | inr f ↦ rw (e, f) (init_vesa-KeepsMode cmdline _ quiet ∙ parsed)
        ]
      ]
