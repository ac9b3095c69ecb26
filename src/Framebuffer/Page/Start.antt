-- ===== src/Framebuffer/Page/Start.antt =====
-- `framebuffer_init` of kernel/framebuffer.c and `terminal_initialize` of kernel/terminal.c, with a graphics mode that
-- the boot loader has set: the text that the terminal writes from then on is a page on the screen.
use hueos.Base.{
  ℕ, ◌+◌, ◌*◌, ◌/◌, ◌^◌, ◌≤◌, ◌<◌, ◌≡◌, ◌⊎◌, ◌∙◌, refl, ap, arith, ◌&&◌, not, true, if◌then◌else◌,
  ◌==◌, bit_and, u32, u8, is_set, Bytes, [], ◌∷◌, some, Ram, load, load-agree,
}
use mathlib.Core.Path.{subst, subst₂}
use hueos.Io.{Trace}
use hueos.Multiboot.{MultibootInfo}
use hueos.Framebuffer.{
  Framebuffer, framebuffer_is_active, set_up, framebuffer_init, framebuffer_clear,
  framebuffer_putchar, framebuffer_set_color,
}
use hueos.Framebuffer.Pixels.{IsMapped, depth, spot, pixel, spot-le}
use hueos.Framebuffer.Bounds.{Keeps, Keeps-IsMapped, putchar-Keeps}
use hueos.Framebuffer.Cursor.{IsPlaced, putchar-IsPlaced}
use hueos.Framebuffer.Glyphs.{IsText}
use hueos.Framebuffer.Picture.{clear-pixel}
use hueos.Framebuffer.Page.{Page, Shows, type_char, type_all, empty_page, Keeps-IsText}
use hueos.Framebuffer.Page.Typing.{putchar-Shows, cleared-Shows, cleared-IsPlaced}
use hueos.Terminal.{Console, terminal_putchar, terminal_write, terminal_initialize, vga_entry_color}

-- The boot loader has set a graphics mode with 16 or 32 bits in a pixel, and room for a character; the frame buffer lies
-- below 4 GiB.
pub record IsGraphics (mbi : MultibootInfo) : Type 0 where
  pub given : is_set (bit_and mbi.flags (2 ^ 12)) ≡ true
  pub kind : mbi.framebuffer_type ≡ 1
  pub present : 0 < mbi.framebuffer_addr
  pub address : mbi.framebuffer_addr < 2 ^ 32
  pub width : mbi.framebuffer_width < 2 ^ 32
  pub height : mbi.framebuffer_height < 2 ^ 32
  pub pitch : mbi.framebuffer_pitch < 2 ^ 32
  pub known : (mbi.framebuffer_bpp ≡ 16) ⊎ (mbi.framebuffer_bpp ≡ 32)
  pub lines :
      mbi.framebuffer_width * (if mbi.framebuffer_bpp == 16 then 2 else 4) ≤ mbi.framebuffer_pitch
  pub inside : mbi.framebuffer_addr + mbi.framebuffer_height * mbi.framebuffer_pitch ≤ 2 ^ 32
  pub wide : 8 ≤ mbi.framebuffer_width
  pub tall : 8 ≤ mbi.framebuffer_height

-- The page on a screen of `rows` and `cols` that is in use, in the colour of the text.
pub record Displays (rows cols color : ℕ) (fb : Framebuffer) (p : Page) : Type 0 where
  pub height : fb.text_rows ≡ rows
  pub width : fb.text_cols ≡ cols
  pub ink : fb.text_color ≡ color
  pub kind : fb.fb_type ≡ 1
  pub placed : IsPlaced fb
  pub shown : Shows fb p

putchar-Displays :
    {rows cols color : ℕ} (c : ℕ) (fb : Framebuffer) (p : Page)
    → Displays rows cols color fb p
    → Displays rows cols color (framebuffer_putchar c fb) (type_char rows cols color c p)
putchar-Displays {rows} {cols} {color} c fb p d =
    let k = putchar-Keeps c fb d.shown.mapped in
    let fb' : Framebuffer = framebuffer_putchar c fb in
    record {
      height = k.rows ∙ d.height;
      width = k.cols ∙ d.width;
      ink = k.color ∙ d.ink;
      kind = k.kind ∙ d.kind;
      placed = putchar-IsPlaced c fb d.shown.mapped d.placed;
      shown =
          subst (λ ink. Shows fb' (type_char rows cols ink c p)) d.ink
            (subst₂ (λ height width. Shows fb' (type_char height width fb.text_color c p)) d.height
              d.width (putchar-Shows c fb p d.placed d.shown));
    }

Displays-active :
    {rows cols color : ℕ} (fb : Framebuffer) (p : Page)
    → Displays rows cols color fb p
    → framebuffer_is_active fb ≡ true
unfolding framebuffer_is_active
Displays-active fb p d = ground (arith, d.kind, d.shown.mapped.present)

-- What the terminal writes is typed on the page.
terminal_putchar-Displays :
    {rows cols color : ℕ} (c : ℕ) (s : Console) (p : Page)
    → Displays rows cols color s.fb p
    → Displays rows cols color (terminal_putchar c s).fb (type_char rows cols color c p)
unfolding terminal_putchar
terminal_putchar-Displays c s p d = rw (Displays-active s.fb p d) (putchar-Displays c s.fb p d)

pub write-Displays :
    {rows cols color : ℕ} (text : Bytes) (s : Console) (p : Page)
    → Displays rows cols color s.fb p
    → Displays rows cols color (terminal_write text s).fb (type_all rows cols color text p)
unfolding terminal_write type_all
write-Displays [] s p d = d
write-Displays {rows} {cols} {color} (c ∷ text) s p d =
    write-Displays text (terminal_putchar c s) (type_char rows cols color c p)
      (terminal_putchar-Displays c s p d)

-- The pixels are the bytes of the frame buffer: a change of other memory is not seen.
pub elsewhere-Displays :
    {rows cols color : ℕ} (fb : Framebuffer) (p : Page) (ram : Ram)
    → ((j : ℕ)
        → fb.fb_address ≤ j
        → j < fb.fb_address + fb.fb_height * fb.fb_pitch
        → ram j ≡ fb.ram j)
    → Displays rows cols color fb p
    → Displays rows cols color (record fb { ram = ram }) p
unfolding pixel
elsewhere-Displays fb p ram same d = record {
  height = d.height;
  width = d.width;
  ink = d.ink;
  kind = d.kind;
  placed = record {
    column = d.placed.column;
    row = d.placed.row;
    narrow = d.placed.narrow;
    short = d.placed.short;
  };
  shown = record {
    mapped = record { present = m.present; known = m.known; lines = m.lines; inside = m.inside };
    text = record { columns = t.columns; lines = t.lines; narrow = t.narrow; short = t.short };
    small = d.shown.small;
    cells = λ row col y x hr hc hy hx.
        same_pixel (col * 8 + x) (row * 8 + y) (omega (arith, t.columns)) (omega (arith, t.lines))
        ∙ d.shown.cells row col y x hr hc hy hx;
    margin = λ x y hx from below. same_pixel x y hx below ∙ d.shown.margin x y hx from below;
    column = d.shown.column;
    line = d.shown.line;
  };
}
  where
    m : IsMapped fb
    m = d.shown.mapped

    t : IsText fb
    t = d.shown.text

    same_pixel :
        (x y : ℕ)
        → x < fb.fb_width
        → y < fb.fb_height
        → load (depth fb) ram (spot fb x y) ≡ load (depth fb) fb.ram (spot fb x y)
    same_pixel x y hx hy =
        let within = spot-le (depth fb) x y fb.fb_width fb.fb_height fb.fb_pitch m.lines hx hy in
        load-agree (depth fb) ram fb.ram (spot fb x y) (λ j p q. same j (omega arith) (omega arith))

-- The frame buffer stands where the boot information says.
pub record IsReady (mbi : MultibootInfo) (fb : Framebuffer) : Type 0 where
  pub at : fb.fb_address ≡ mbi.framebuffer_addr
  pub width : fb.fb_width ≡ mbi.framebuffer_width
  pub height : fb.fb_height ≡ mbi.framebuffer_height
  pub pitch : fb.fb_pitch ≡ mbi.framebuffer_pitch
  pub kind : fb.fb_type ≡ 1
  pub mapped : IsMapped fb
  pub text : IsText fb

Keeps-IsReady :
    {mbi : MultibootInfo} {fb fb' : Framebuffer} → Keeps fb fb' → IsReady mbi fb → IsReady mbi fb'
Keeps-IsReady k r = record {
  at = k.address ∙ r.at;
  width = k.width ∙ r.width;
  height = k.height ∙ r.height;
  pitch = k.pitch ∙ r.pitch;
  kind = k.kind ∙ r.kind;
  mapped = Keeps-IsMapped k r.mapped;
  text = Keeps-IsText k r.text;
}

clear-IsReady :
    (mbi : MultibootInfo) (fb : Framebuffer) → IsReady mbi fb → IsReady mbi (framebuffer_clear fb)
clear-IsReady mbi fb r = Keeps-IsReady ((clear-pixel fb r.mapped).3) r

pub framebuffer_init-IsReady :
    (mbi : MultibootInfo) (fb : Framebuffer) (t : Trace)
    → IsGraphics mbi
    → IsReady mbi ((framebuffer_init (some mbi) (fb, t)).0)
unfolding framebuffer_init set_up
framebuffer_init-IsReady mbi fb t g =
    let kind : (mbi.framebuffer_type == 1) ≡ true = ground (arith, g.kind) in
    let bits : u8 mbi.framebuffer_bpp ≡ mbi.framebuffer_bpp = ground (arith, g.known) in
    let at : u32 mbi.framebuffer_addr ≡ mbi.framebuffer_addr = omega (arith, g.address) in
    let width : u32 mbi.framebuffer_width ≡ mbi.framebuffer_width = omega (arith, g.width) in
    let height : u32 mbi.framebuffer_height ≡ mbi.framebuffer_height = omega (arith, g.height) in
    let pitch : u32 mbi.framebuffer_pitch ≡ mbi.framebuffer_pitch = omega (arith, g.pitch) in
    rw (g.given, kind, bits, at, width, height, pitch)
      (clear-IsReady mbi _ (record {
        at = refl;
        width = refl;
        height = refl;
        pitch = refl;
        kind = g.kind;
        mapped = record {
          present = g.present;
          known = g.known;
          lines = g.lines;
          inside = g.inside;
        };
        text = record { columns = refl; lines = refl; narrow = g.width; short = g.height };
      }))

cleared-Displays :
    (mbi : MultibootInfo) (fb : Framebuffer)
    → IsGraphics mbi
    → IsReady mbi fb
    → fb.text_color < 256
    → Displays
        (mbi.framebuffer_height / 8)
        (mbi.framebuffer_width / 8)
        fb.text_color
        (framebuffer_clear fb)
        (empty_page fb.text_color)
cleared-Displays mbi fb g r small =
    let k = (clear-pixel fb r.mapped).3 in
    let wide : 0 < fb.text_cols = omega (arith, r.text.columns, r.width, g.wide) in
    let tall : 0 < fb.text_rows = omega (arith, r.text.lines, r.height, g.tall) in
    record {
      height = k.rows ∙ r.text.lines ∙ ap (λ h. h / 8) r.height;
      width = k.cols ∙ r.text.columns ∙ ap (λ w. w / 8) r.width;
      ink = k.color;
      kind = k.kind ∙ r.kind;
      placed = cleared-IsPlaced fb r.mapped r.text wide tall;
      shown =
          subst (λ ink. Shows (framebuffer_clear fb) (empty_page ink)) k.color
            (cleared-Shows fb r.mapped r.text small);
    }

-- The colour of the text makes no difference.
colored-IsReady :
    (mbi : MultibootInfo) (fb : Framebuffer) (color : ℕ)
    → IsReady mbi fb
    → IsReady mbi (record fb { text_color = color })
colored-IsReady mbi fb color r = record {
  at = r.at;
  width = r.width;
  height = r.height;
  pitch = r.pitch;
  kind = r.kind;
  mapped = record {
    present = r.mapped.present;
    known = r.mapped.known;
    lines = r.mapped.lines;
    inside = r.mapped.inside;
  };
  text = record {
    columns = r.text.columns;
    lines = r.text.lines;
    narrow = r.text.narrow;
    short = r.text.short;
  };
}

-- The terminal starts with an empty page, in light grey on black.
pub initialize-Displays :
    (mbi : MultibootInfo) (s : Console)
    → IsGraphics mbi
    → IsReady mbi s.fb
    → let s' = terminal_initialize s in
      IsReady mbi s'.fb
      × Displays (mbi.framebuffer_height / 8) (mbi.framebuffer_width / 8) 7 s'.fb (empty_page 7)
unfolding terminal_initialize framebuffer_is_active vga_entry_color framebuffer_set_color
initialize-Displays mbi s g r =
    let fb : Framebuffer = record s.fb { text_color = 7 } in
    let ready : IsReady mbi fb = colored-IsReady mbi s.fb 7 r in
    let there : (not (s.fb.fb_address == 0) && s.fb.fb_type == 1) ≡ true =
      ground (arith, r.kind, r.mapped.present) in
    rw there (clear-IsReady mbi fb ready, cleared-Displays mbi fb g ready (omega arith))
