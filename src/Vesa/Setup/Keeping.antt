-- ===== src/Vesa/Setup/Keeping.antt =====
-- What the set-up of kernel/vesa.c keeps: a property that survives a message, a load of the font, and an accepted size.
use hueos.Base.{
  ℕ, ◌^◌, ◌≤◌, ◌≡◌, arith, true, ◌&&◌, leb, leb→le, Bool-cases, inl, inr, and-true, ◌==◌, ◌++◌, ◌∷◌,
  [], List, Option, none, some, Bytes, is_set, bit_and,
}
use hueos.Io.{Trace, Device}
use hueos.Multiboot.{MultibootInfo}
use hueos.Numbers.{hex_word}
use hueos.Vesa.{
  Video, say, TextMode, text_modes, set_80x50_mode, load_8x8_font, copy_font, set_132_column_mode,
}
use hueos.Vesa.Modes.{
  matches, find_mode, apply_mode, pick_mode, read_param, parse_resolution, find_param,
}
use hueos.Vesa.Setup.{
  reasonable, detect_screen_size, read_screen_size, init_vesa, multiboot_size, use_multiboot_size,
  use_framebuffer, multiboot_or, init_vesa_with_mbi, say_bytes, flags_of, resize,
}

-- A size that the kernel accepts.
pub record IsAccepted (width height : ℕ) : Type 0 where
  pub narrow : 40 ≤ width
  pub wide : width ≤ 200
  pub low : 20 ≤ height
  pub high : height ≤ 100

pub reasonable-IsAccepted :
    (width height : ℕ) → reasonable width height ≡ true → IsAccepted width height
reasonable-IsAccepted width height h =
    let (first, d) = and-true (leb 40 width && leb width 200 && leb 20 height) (leb height 100) h in
    let (second, c) = and-true (leb 40 width && leb width 200) (leb 20 height) first in
    let (a, b) = and-true (leb 40 width) (leb width 200) second in
    record {
      narrow = leb→le 40 width a;
      wide = leb→le width 200 b;
      low = leb→le 20 height c;
      high = leb→le height 100 d;
    }

module _ (dev : Device) (P : Video → Type 0)
    (said : (v : Video) (t : Trace) → P v → P (record v { trace = t }))
    (loaded : (v : Video) (t : Trace) → P v → P (record v { ram = copy_font v.ram; trace = t }))
    (resized : (width height : ℕ) (v : Video)
      → IsAccepted width height
      → P v
      → P (resize width height v)) where
  KeptBy : (Video → Video) → Type 0
  KeptBy f = (v : Video) → P v → P (f v)

  detect_screen_size-KeptBy : KeptBy (detect_screen_size dev)
  unfolding detect_screen_size KeptBy
  detect_screen_size-KeptBy v h =
      let (width, height, t) = read_screen_size dev v.trace in
      let u : Video = record v { trace = t } in
      elim (Bool-cases (reasonable width height)) [
        | inl e ↦ rw e (
            said (resize width height u) _
              (resized width height u (reasonable-IsAccepted width height e) (said v t h)))
        | inr e ↦ rw e (
            resized 80 25 _
              (record {
                narrow = omega arith;
                wide = omega arith;
                low = omega arith;
                high = omega arith;
              })
              (said u _ (said v t h)))
      ]

  set_80x50_mode-KeptBy : KeptBy (set_80x50_mode dev)
  unfolding set_80x50_mode load_8x8_font KeptBy
  set_80x50_mode-KeptBy v h = loaded v _ h

  use_multiboot_size-KeptBy :
      (mbi : MultibootInfo) (fall_back : Video → Video)
      → KeptBy fall_back
      → KeptBy (use_multiboot_size dev mbi fall_back)
  unfolding use_multiboot_size load_8x8_font KeptBy
  use_multiboot_size-KeptBy mbi fall_back other v h =
      let (width, height) = multiboot_size dev mbi in
      elim (Bool-cases (reasonable width height)) [
        | inl e ↦
            let ok = reasonable-IsAccepted width height e in
            elim (Bool-cases ((width == 80) && (height == 50))) [
              | inl f ↦ rw (e, f) (loaded (resize width height v) _ (resized width height v ok h))
              | inr f ↦ rw (e, f) (said (resize width height v) _ (resized width height v ok h))
            ]
        | inr e ↦ rw e (other _ (said v _ h))
      ]

  use_framebuffer-KeptBy :
      (mbi : MultibootInfo) (fall_back : Video → Video)
      → KeptBy fall_back
      → KeptBy (use_framebuffer dev mbi fall_back)
  unfolding use_framebuffer KeptBy
  use_framebuffer-KeptBy mbi fall_back other v h = elim (Bool-cases (mbi.framebuffer_type == 2)) [
    | inl e ↦ rw e (use_multiboot_size-KeptBy mbi fall_back other _ (said v _ h))
    | inr e ↦ elim (Bool-cases (mbi.framebuffer_type == 1)) [
      | inl f ↦
          elim (Bool-cases ((mbi.framebuffer_width == 640) && (mbi.framebuffer_height == 400))) [
            | inl g ↦ rw (e, f, g) (set_80x50_mode-KeptBy _ (said v _ h))
            | inr g ↦ rw (e, f, g) (use_multiboot_size-KeptBy mbi fall_back other _ (said v _ h))
          ]
      | inr f ↦ rw (e, f) (other _ (said v _ h))
    ]
  ]

  multiboot_or-KeptBy :
      (mbi : Option MultibootInfo) (fall_back : Video → Video)
      → KeptBy fall_back
      → KeptBy (multiboot_or dev mbi fall_back)
  unfolding multiboot_or KeptBy
  multiboot_or-KeptBy none fall_back other v h = other v h
  multiboot_or-KeptBy (some mbi) fall_back other v h =
      elim (Bool-cases (is_set (bit_and mbi.flags (2 ^ 12)))) [
        | inl e ↦ rw e (use_framebuffer-KeptBy mbi fall_back other v h)
        | inr e ↦ rw e (other v h)
      ]

  apply_mode-KeptBy : (m : TextMode) → IsAccepted m.width m.height → KeptBy (apply_mode dev m)
  unfolding apply_mode set_132_column_mode KeptBy
  apply_mode-KeptBy m ok v h = elim (Bool-cases ((m.width == 80) && (m.height == 50))) [
    | inl e ↦ rw e (set_80x50_mode-KeptBy _ (said v _ h))
    | inr e ↦ elim (Bool-cases ((m.width == 80) && (m.height == 25))) [
      | inl f ↦ rw (e, f) (said (resize m.width m.height v) _ (resized m.width m.height v ok h))
      | inr f ↦ elim (Bool-cases (m.width == 132)) [
        | inl g ↦
            let ok' : IsAccepted 132 m.height = record {
              narrow = omega arith;
              wide = omega arith;
              low = ok.low;
              high = ok.high;
            } in
            rw (e, f, g) (said (resize 132 m.height v) _ (resized 132 m.height v ok' h))
        | inr g ↦
            rw (e, f, g) (said (resize m.width m.height v) _ (resized m.width m.height v ok h))
      ]
    ]
  ]

  -- Every mode of a table has an accepted size.
  AllAccepted : List TextMode → Type 0
  AllAccepted [] = Unit {0}
  AllAccepted (m ∷ ms) = IsAccepted m.width m.height × AllAccepted ms

  table_accepted : AllAccepted text_modes
  unfolding AllAccepted
  table_accepted = (
    record { narrow = omega arith; wide = omega arith; low = omega arith; high = omega arith },
    (
      record { narrow = omega arith; wide = omega arith; low = omega arith; high = omega arith },
      (
        record { narrow = omega arith; wide = omega arith; low = omega arith; high = omega arith },
        (
          record {
            narrow = omega arith;
            wide = omega arith;
            low = omega arith;
            high = omega arith;
          },
          (
            record {
              narrow = omega arith;
              wide = omega arith;
              low = omega arith;
              high = omega arith;
            },
            (
              record {
                narrow = omega arith;
                wide = omega arith;
                low = omega arith;
                high = omega arith;
              },
              tt,
            ),
          ),
        ),
      ),
    ),
  )

  picked-KeptBy :
      (q : Bytes) (ms : List TextMode)
      → AllAccepted ms
      → KeptBy (λ v. (pick_mode dev (find_mode q ms) v).1)
  unfolding find_mode pick_mode AllAccepted KeptBy
  picked-KeptBy q [] ok v h = h
  picked-KeptBy q (m ∷ ms) ok v h = elim (Bool-cases (matches m.name q)) [
    | inl e ↦ rw e (apply_mode-KeptBy m ok.0 v h)
    | inr e ↦ rw e (picked-KeptBy q ms ok.1 v h)
  ]

  read_param-KeptBy : (o : Option Bytes) → KeptBy (λ v. (read_param dev o v).1)
  unfolding read_param KeptBy
  read_param-KeptBy none v h = h
  read_param-KeptBy (some q) v h = picked-KeptBy q text_modes table_accepted v h

  parse_resolution-KeptBy :
      (cmdline : Option Bytes) → KeptBy (λ v. (parse_resolution dev cmdline v).1)
  unfolding parse_resolution KeptBy
  parse_resolution-KeptBy none v h = h
  parse_resolution-KeptBy (some cmdline) v h = read_param-KeptBy (find_param cmdline) v h

  init_vesa-KeptBy : (cmdline : Option Bytes) → KeptBy (init_vesa dev cmdline)
  unfolding init_vesa KeptBy
  init_vesa-KeptBy cmdline v h =
      let u : Video = say "VESA: Initializing video mode support\n" v in
      let parsed = parse_resolution-KeptBy cmdline u (said v _ h) in
      elim (Bool-cases ((parse_resolution dev cmdline u).0)) [
        | inl e ↦ rw e parsed
        | inr e ↦ rw e (detect_screen_size-KeptBy ((parse_resolution dev cmdline u).1) parsed)
      ]

  pub init_vesa_with_mbi-KeptBy :
      (cmdline : Option Bytes) (mbi : Option MultibootInfo) (v : Video)
      → P v
      → P (init_vesa_with_mbi dev cmdline mbi v)
  unfolding init_vesa_with_mbi KeptBy
  init_vesa_with_mbi-KeptBy cmdline mbi v h =
      let u : Video =
        say_bytes (hex_word (flags_of dev mbi) ++ b'\n' ∷ [])
          (say "VESA: Multiboot flags = 0x" (say "VESA: Initializing video mode support\n" v)) in
      let parsed = parse_resolution-KeptBy cmdline u (said v _ h) in
      elim (Bool-cases ((parse_resolution dev cmdline u).0)) [
        | inl e ↦ rw e (said _ _ parsed)
        | inr e ↦
            rw e
              (multiboot_or-KeptBy mbi (init_vesa dev cmdline) (init_vesa-KeptBy cmdline) _ parsed)
      ]
