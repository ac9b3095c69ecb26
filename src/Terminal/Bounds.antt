-- ===== src/Terminal/Bounds.antt =====
-- The text terminal of kernel/terminal.c stays inside its screen.
use hueos.Base.{
  ℕ, ◌+◌, ◌*◌, ◌^◌, ◌≤◌, ◌<◌, ◌≡◌, inl, inr, refl, ◌∙◌, arith, u32, sub32, ◌==◌, Bool-cases, update,
  cell_lt,
}
use hueos.Terminal.{
  Terminal, vga_entry, cell_index, terminal_putentryat, terminal_scroll, next_row, putchar_vga,
  terminal_set_dimensions,
}
use hueos.Terminal.Scrolling.{IsSized, cell_index-eq, rows_split, scroll-cells}

-- The cursor stands on a cell of the screen.
pub record IsInside (t : Terminal) : Type 0 where
  pub sized : IsSized t
  pub row : t.terminal_row < t.vga_height
  pub column : t.terminal_column < t.vga_width

-- The new state is good, has the same dimensions, and no memory beyond the screen has changed.
pub record Safe (t t' : Terminal) : Type 0 where
  pub good : IsInside t'
  pub width : t'.vga_width ≡ t.vga_width
  pub height : t'.vga_height ≡ t.vga_height
  pub beyond : (i : ℕ) → t.vga_height * t.vga_width ≤ i → t'.vga_memory i ≡ t.vga_memory i

resized :
    (t : Terminal) (mem : ℕ → ℕ) (r c : ℕ)
    → IsSized t
    → IsSized (record t { vga_memory = mem; terminal_row = r; terminal_column = c })
resized t mem r c z = record { wide = z.wide; tall = z.tall; area = z.area; height = z.height }

next_row-Safe : (t : Terminal) → IsSized t → t.terminal_row < t.vga_height → Safe t (next_row t)
unfolding next_row
next_row-Safe t z low =
    let u : Terminal = record t { terminal_column = 0; terminal_row = sub32 t.vga_height 1 } in
    let sized : IsSized u = resized t t.vga_memory (sub32 t.vga_height 1) 0 z in
    elim (Bool-cases (u32 (t.terminal_row + 1) == t.vga_height)) [
      | inl full ↦
          rw (full, (scroll-cells u sized).0)
            (record {
              good = record {
                sized = resized t (terminal_scroll u).vga_memory (sub32 t.vga_height 1) 0 z;
                row = omega (arith, z.tall, z.height);
                column = z.wide;
              };
              width = refl;
              height = refl;
              beyond = λ i le.
                  ground
                    (arith, (scroll-cells u sized).1 i, rows_split t.vga_width t.vga_height z.tall);
            })
      | inr room ↦ rw room (record {
        good = record {
          sized = resized t t.vga_memory (u32 (t.terminal_row + 1)) 0 z;
          row = ground (arith, z.height);
          column = z.wide;
        };
        width = refl;
        height = refl;
        beyond = λ i le. refl;
      })
    ]

-- Whatever character is written, the cursor stays on the screen, the dimensions stay, and no text
-- memory beyond the screen's cells is written.
pub putchar_vga-Safe : (c : ℕ) (t : Terminal) → IsInside t → Safe t (putchar_vga c t)
unfolding putchar_vga terminal_putentryat
putchar_vga-Safe c t v = elim (Bool-cases (c == b'\n')) [
  | inl newline ↦ rw newline (next_row-Safe t v.sized v.row)
  | inr other ↦ elim (Bool-cases (u32 (t.terminal_column + 1) == t.vga_width)) [
    | inl wrap ↦
        let n =
          next_row-Safe put
            (resized t put.vga_memory t.terminal_row (u32 (t.terminal_column + 1)) v.sized) v.row in
        rw (other, wrap)
          (record {
            good = n.good;
            width = n.width;
            height = n.height;
            beyond = λ i le. n.beyond i le ∙ away i le;
          })
    | inr room ↦
        rw (other, room)
          (record {
            good = record {
              sized = resized t put.vga_memory t.terminal_row (u32 (t.terminal_column + 1)) v.sized;
              row = v.row;
              column = ground (arith, v.column, narrow);
            };
            width = refl;
            height = refl;
            beyond = away;
          })
  ]
]
  where
    put : Terminal
    put = record t {
      vga_memory =
          update t.vga_memory (cell_index t t.terminal_column t.terminal_row)
            (vga_entry c t.terminal_color);
      terminal_column = u32 (t.terminal_column + 1);
    }

    narrow : t.vga_width < 2 ^ 32
    narrow =
        omega (arith, v.sized.area, v.sized.tall, rows_split t.vga_width t.vga_height v.sized.tall)

    away : (i : ℕ) → t.vga_height * t.vga_width ≤ i → put.vga_memory i ≡ t.vga_memory i
    away i le = ground (
      arith,
      cell_index-eq t t.terminal_column t.terminal_row v.sized v.column v.row,
      cell_lt t.terminal_row t.terminal_column t.vga_height t.vga_width v.row v.column,
    )

-- Changing the dimensions of the terminal puts a cursor from anywhere on the new screen, and touches
-- no cell.
pub set_dimensions-IsInside :
    (width height : ℕ) (t : Terminal)
    → 0 < width
    → 0 < height
    → height < 2 ^ 32
    → height * width < 2 ^ 32
    → let t' = terminal_set_dimensions width height t in
      IsInside t'
      × (t'.vga_width ≡ width)
      × (t'.vga_height ≡ height)
      × (t'.vga_memory ≡ t.vga_memory)
      × (t.terminal_row < height
          → t.terminal_column < width
          → (t'.terminal_row ≡ t.terminal_row) × (t'.terminal_column ≡ t.terminal_column))
unfolding terminal_set_dimensions
set_dimensions-IsInside width height t hw hh small area = ground arith
