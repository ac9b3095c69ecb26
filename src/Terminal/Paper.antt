-- ===== src/Terminal/Paper.antt =====
-- The text terminal of kernel/terminal.c as a window on a roll of paper: what has been typed stays
-- where it is, and the screen shows the last lines.
use hueos.Base.{
  ℕ, suc, ◌+◌, ◌-◌, ◌*◌, ◌^◌, ◌≤◌, ◌<◌, ◌≡◌, inl, inr, refl, sym, ap, ◌∙◌, true, ◌&&◌, arith, u32,
  sub32, ltb, ◌==◌, if◌then◌else◌, Bool-cases, update, cell_lt, cell_apart, dec_lt, lt→ltb,
  ltb-false,
}
use hueos.Terminal.{
  Terminal, vga_entry, cell_index, terminal_putentryat, terminal_scroll, next_row, putchar_vga,
}
use hueos.Terminal.Scrolling.{IsSized, blank, cell_index-eq, rows_split, scroll-cells}

-- The roll: the cell in every line and column, and the place where the next character goes.
pub record Paper : Type 0 where
  pub ink : ℕ → ℕ → ℕ
  pub line : ℕ
  pub col : ℕ

abbrev pub feed : Paper → Paper
feed p = record p { line = suc p.line; col = 0 }

-- Typing one character on a roll of the given width.
unfoldable pub type_char : ℕ → ℕ → ℕ → Paper → Paper
type_char width color c p =
    let inked : Paper = record p {
      ink = λ y x. if y == p.line && x == p.col then vga_entry c color else p.ink y x;
      col = suc p.col;
    } in
    if c == b'\n' then feed p else if suc p.col == width then feed inked else inked

-- The topmost line that a screen of `height` lines shows.
abbrev pub top : ℕ → Paper → ℕ
top height p = suc p.line - height

-- The screen shows the lines from `top` on, and the lines that are still to come are blank.
pub record Prints (t : Terminal) (p : Paper) : Type 0 where
  pub sized : IsSized t
  pub row : t.terminal_row + top t.vga_height p ≡ p.line
  pub same :
      (y x : ℕ)
      → y < t.vga_height
      → x < t.vga_width
      → t.vga_memory (y * t.vga_width + x) ≡ p.ink (top t.vga_height p + y) x
  pub fresh : (y x : ℕ) → p.line < y → p.ink y x ≡ blank t

-- The cursor stands where the next character goes.
pub record Shows (t : Terminal) (p : Paper) : Type 0 where
  pub prints : Prints t p
  pub column : t.terminal_column ≡ p.col
  pub inside : p.col < t.vga_width

next_row-stay :
    (t : Terminal)
    → IsSized t
    → suc t.terminal_row < t.vga_height
    → next_row t ≡ record t { terminal_column = 0; terminal_row = suc t.terminal_row }
unfolding next_row
next_row-stay t z room = ground (arith, z.height)

next_row-scroll :
    (t : Terminal)
    → IsSized t
    → suc t.terminal_row ≡ t.vga_height
    → next_row t
      ≡ terminal_scroll (record t { terminal_column = 0; terminal_row = t.vga_height - 1 })
unfolding next_row
next_row-scroll t z full =
    let test : (u32 (t.terminal_row + 1) == t.vga_height) ≡ true = ground (arith, z.height) in
    let last : sub32 t.vga_height 1 ≡ t.vga_height - 1 = omega (arith, z.height, z.tall) in
    rw (test, last) refl

-- After a scroll the window is one line further down.
scrolled-Shows :
    (t : Terminal) (p : Paper) (mem : ℕ → ℕ)
    → Prints t p
    → suc t.terminal_row ≡ t.vga_height
    → ((i : ℕ)
        → mem i ≡ (
            if ltb i ((t.vga_height - 1) * t.vga_width)
            then t.vga_memory (i + t.vga_width)
            else if ltb i (t.vga_height * t.vga_width)
            then blank t
            else t.vga_memory i))
    → Shows
        (record t { vga_memory = mem; terminal_column = 0; terminal_row = t.vga_height - 1 })
        (feed p)
scrolled-Shows t p mem s full cells = record {
  prints = record {
    sized = record {
      wide = s.sized.wide;
      tall = s.sized.tall;
      area = s.sized.area;
      height = s.sized.height;
    };
    row = omega (arith, s.row);
    same = same;
    fresh = λ y x later. s.fresh y x (omega arith);
  };
  column = refl;
  inside = s.sized.wide;
}
  where
    further : top t.vga_height (feed p) ≡ suc (top t.vga_height p)
    further = omega (arith, s.row)

    same :
        (y x : ℕ)
        → y < t.vga_height
        → x < t.vga_width
        → mem (y * t.vga_width + x) ≡ p.ink (top t.vga_height (feed p) + y) x
    same y x hy hx = elim (dec_lt (suc y) t.vga_height) [
      | yes low ↦
          let above : y * t.vga_width + x < (t.vga_height - 1) * t.vga_width =
            cell_lt y x (t.vga_height - 1) t.vga_width (omega arith) hx in
          let next : y * t.vga_width + x + t.vga_width ≡ suc y * t.vga_width + x = omega arith in
          let line : top t.vga_height p + suc y ≡ top t.vga_height (feed p) + y =
            omega (arith, further) in
          cells (y * t.vga_width + x)
          ∙ rw (lt→ltb _ _ above, next) (s.same (suc y) x low hx)
          ∙ ap (λ k. p.ink k x) line
      | no last ↦
          let inside : y * t.vga_width + x < t.vga_height * t.vga_width =
            cell_lt y x t.vga_height t.vga_width hy hx in
          let start : (t.vga_height - 1) * t.vga_width ≤ y * t.vga_width + x =
            let e : t.vga_height - 1 ≡ y = omega arith in rw e (omega arith) in
          cells (y * t.vga_width + x)
          ∙ rw (ltb-false _ _ start, lt→ltb _ _ inside) refl
          ∙ sym (s.fresh (top t.vga_height (feed p) + y) x (omega (arith, further, s.row)))
    ]

next_row-Shows : (t : Terminal) (p : Paper) → Prints t p → Shows (next_row t) (feed p)
next_row-Shows t p s = elim (dec_lt (suc t.terminal_row) t.vga_height) [
  | yes room ↦
      let same_top : top t.vga_height (feed p) ≡ top t.vga_height p = omega (arith, s.row) in
      rw (next_row-stay t s.sized room) (record {
        prints = record {
          sized = record {
            wide = s.sized.wide;
            tall = s.sized.tall;
            area = s.sized.area;
            height = s.sized.height;
          };
          row = omega (arith, s.row);
          same = λ y x hy hx. s.same y x hy hx ∙ ap (λ k. p.ink (k + y) x) (sym same_top);
          fresh = λ y x later. s.fresh y x (omega arith);
        };
        column = refl;
        inside = s.sized.wide;
      })
  | no out ↦
      let full : suc t.terminal_row ≡ t.vga_height = omega (arith, s.row, s.sized.tall) in
      let u : Terminal = record t { terminal_column = 0; terminal_row = t.vga_height - 1 } in
      let z : IsSized u = record {
        wide = s.sized.wide;
        tall = s.sized.tall;
        area = s.sized.area;
        height = s.sized.height;
      } in
      rw (next_row-scroll t s.sized full, (scroll-cells u z).0)
        (scrolled-Shows t p (terminal_scroll u).vga_memory s full (scroll-cells u z).1)
]

-- Writing a cell at the cursor is writing on the paper.
put-Prints :
    (t : Terminal) (p : Paper) (c k l : ℕ)
    → Shows t p
    → let entry = vga_entry c t.terminal_color in
      Prints
        (record t {
          vga_memory = update t.vga_memory (t.terminal_row * t.vga_width + t.terminal_column) entry;
          terminal_column = k;
        })
        (record p { ink = λ y x. if y == p.line && x == p.col then entry else p.ink y x; col = l })
put-Prints t p c k l s = record {
  sized = record {
    wide = s.prints.sized.wide;
    tall = s.prints.sized.tall;
    area = s.prints.sized.area;
    height = s.prints.sized.height;
  };
  row = s.prints.row;
  same = λ y x hy hx. ground (
    arith,
    s.prints.row,
    s.column,
    s.inside,
    s.prints.same y x,
    cell_apart t.terminal_row t.terminal_column y x t.vga_width,
  );
  fresh = λ y x later. ground (arith, s.prints.fresh y x);
}

-- One character on the text screen is that character typed on the paper: if the screen shows the
-- last lines of the paper, it shows them again afterwards, across line ends and scrolling.
pub putchar_vga-Shows :
    (c : ℕ) (t : Terminal) (p : Paper)
    → Shows t p
    → Shows (putchar_vga c t) (type_char t.vga_width t.terminal_color c p)
unfolding putchar_vga type_char terminal_putentryat
putchar_vga-Shows c t p s = elim (Bool-cases (c == b'\n')) [
  | inl newline ↦ rw newline (next_row-Shows t p s.prints)
  | inr other ↦ elim (Bool-cases (suc p.col == t.vga_width)) [
    | inl wrap ↦
        rw (other, place, step, s.column, wrap)
          (next_row-Shows _ _ (rw s.column at (put-Prints t p c (suc p.col) (suc p.col) s)))
    | inr room ↦
        rw (other, place, step, s.column, room)
          (record {
            prints = rw s.column at (put-Prints t p c (suc p.col) (suc p.col) s);
            column = refl;
            inside = ground (arith, s.inside);
          })
  ]
]
  where
    place :
        cell_index t t.terminal_column t.terminal_row
        ≡ t.terminal_row * t.vga_width + t.terminal_column
    place =
        cell_index-eq t t.terminal_column t.terminal_row s.prints.sized
          (omega (arith, s.column, s.inside)) (omega (arith, s.prints.row, s.prints.sized.tall))

    small : t.vga_width < 2 ^ 32
    small = omega (
      arith,
      s.prints.sized.area,
      s.prints.sized.tall,
      rows_split t.vga_width t.vga_height s.prints.sized.tall,
    )

    step : u32 (t.terminal_column + 1) ≡ suc t.terminal_column
    step = omega (arith, s.column, s.inside, small)
