-- ===== src/Terminal/Scrolling.antt =====
-- `terminal_scroll` of kernel/terminal.c, cell by cell.
use hueos.Base.{
  ℕ, zero, suc, ◌+◌, ◌-◌, ◌*◌, ◌^◌, ◌≤◌, ◌<◌, ◌≡◌, ◌⊎◌, refl, ◌∙◌, arith, sub32, ltb, if◌then◌else◌,
  update, for_up, for_up_inv, for_cells, for_cells_inv, cell_lt,
}
use hueos.Terminal.{Terminal, vga_entry, cell_index, copy_cell, blank_cell, terminal_scroll}

-- The screen has a cell, and its cells are counted with no wrap.
pub record IsSized (t : Terminal) : Type 0 where
  pub wide : 0 < t.vga_width
  pub tall : 0 < t.vga_height
  pub area : t.vga_height * t.vga_width < 2 ^ 32
  pub height : t.vga_height < 2 ^ 32

-- The cell that every erased place gets.
abbrev pub blank : Terminal → ℕ
blank t = vga_entry b' ' t.terminal_color

-- `copy_cell` and `blank_cell` within the screen.
pub cell_index-eq :
    (t : Terminal) (x y : ℕ)
    → IsSized t
    → x < t.vga_width
    → y < t.vga_height
    → cell_index t x y ≡ y * t.vga_width + x
cell_index-eq t x y s hx hy = omega (arith, s.area, cell_lt y x t.vga_height t.vga_width hy hx)

-- What the loops have made of the memory: they change nothing else.
abbrev With : Terminal → (ℕ → ℕ) → Terminal
With t mem = record t { vga_memory = mem }

-- The first `k` cells have been moved up by a line.
record Moved (t : Terminal) (k : ℕ) (s : Terminal) : Type 0 where
  mem : ℕ → ℕ
  only : s ≡ With t mem
  moved : (i : ℕ) → i < k → mem i ≡ t.vga_memory (i + t.vga_width)
  still : (i : ℕ) → k ≤ i → mem i ≡ t.vga_memory i

copy_cell-Moved :
    (t : Terminal) (y x : ℕ) (s : Terminal)
    → IsSized t
    → suc y < t.vga_height
    → x < t.vga_width
    → Moved t (y * t.vga_width + x) s
    → Moved t (suc (y * t.vga_width + x)) (copy_cell y x s)
unfolding copy_cell
copy_cell-Moved t y x s z hy hx d = record {
  mem = update d.mem k (d.mem (k + t.vga_width));
  only = rw (d.only, cell_index-eq t x y z hx (omega arith), below) refl;
  moved = λ i lt. ground (arith, d.moved i, d.still (k + t.vga_width));
  still = λ i le. ground (arith, d.still i);
}
  where
    k : ℕ
    k = y * t.vga_width + x

    below : cell_index t x (y + 1) ≡ k + t.vga_width
    below = cell_index-eq t x (y + 1) z hx (omega arith) ∙ grind arith

-- In the last line the first `k` cells are blank.
record Erased (t : Terminal) (start k : ℕ) (s : Terminal) : Type 0 where
  mem : ℕ → ℕ
  only : s ≡ With t mem
  erased : (i : ℕ) → start ≤ i → i < start + k → mem i ≡ blank t
  other : (i : ℕ) → (i < start) ⊎ (start + k ≤ i) → mem i ≡ t.vga_memory i

blank_cell-Erased :
    (t : Terminal) (y x : ℕ) (s : Terminal)
    → IsSized t
    → y < t.vga_height
    → x < t.vga_width
    → Erased t (y * t.vga_width) x s
    → Erased t (y * t.vga_width) (suc x) (blank_cell y x s)
unfolding blank_cell
blank_cell-Erased t y x s z hy hx d = record {
  mem = update d.mem (y * t.vga_width + x) (blank t);
  only = rw (d.only, cell_index-eq t x y z hx hy) refl;
  erased = λ i lo hi. ground (arith, d.erased i);
  other = λ i out. ground (arith, d.other i);
}

pub rows_split : (w h : ℕ) → 0 < h → (h - 1) * w + w ≡ h * w
rows_split w zero pos = absurd (omega arith)
rows_split w (suc h) pos = let e : suc h - 1 ≡ h = omega arith in rw e (omega arith)

-- What scrolling makes of a screen.
abbrev pub Scrolled : Terminal → Terminal → Type 0
Scrolled t t' =
    (t' ≡ record t { vga_memory = t'.vga_memory })
    × ((i : ℕ)
        → t'.vga_memory i ≡ (
            if ltb i ((t.vga_height - 1) * t.vga_width)
            then t.vga_memory (i + t.vga_width)
            else if ltb i (t.vga_height * t.vga_width)
            then blank t
            else t.vga_memory i))

Moved-Erased :
    (t moved final : Terminal)
    → 0 < t.vga_height
    → (c : Moved t ((t.vga_height - 1) * t.vga_width) moved)
    → Erased (With t c.mem) ((t.vga_height - 1) * t.vga_width) t.vga_width final
    → Scrolled t final
Moved-Erased t moved final tall c e = rw e.only (
  refl,
  λ i. ground (
    arith,
    rows_split t.vga_width t.vga_height tall,
    e.erased i,
    e.other i,
    c.moved i,
    c.still i,
  ),
)

-- Scrolling moves every line up by one, gives the last line blank cells in the current colour, and
-- leaves the memory beyond the screen, the cursor, the colour and the dimensions as they are.
pub scroll-cells : (t : Terminal) → IsSized t → Scrolled t (terminal_scroll t)
unfolding terminal_scroll
scroll-cells t z =
    rw (last, c.only)
      (Moved-Erased t (With t c.mem) (for_up t.vga_width 0 (blank_cell h) (With t c.mem)) z.tall c'
        e)
  where
    h : ℕ
    h = t.vga_height - 1

    last : sub32 t.vga_height 1 ≡ h
    last = omega (arith, z.tall, z.height)

    moved : Terminal
    moved = for_cells h t.vga_width copy_cell t

    c : Moved t (h * t.vga_width) moved
    c =
        for_cells_inv (Moved t) h t.vga_width copy_cell t
          (λ y x s hy hx. copy_cell-Moved t y x s z (omega arith) hx)
          (record {
            mem = t.vga_memory;
            only = refl;
            moved = λ i lt. absurd (omega arith);
            still = λ i le. refl;
          })

    c' : Moved t (h * t.vga_width) (With t c.mem)
    c' = record { mem = c.mem; only = refl; moved = c.moved; still = c.still }

    e :
        Erased
          (With t c.mem)
          (h * t.vga_width)
          t.vga_width
          (for_up t.vga_width 0 (blank_cell h) (With t c.mem))
    e =
        for_up_inv (Erased (With t c.mem) (h * t.vga_width)) (blank_cell h) t.vga_width 0
          t.vga_width (With t c.mem)
          (λ x s _ hx. blank_cell-Erased (With t c.mem) h x s sized (omega (arith, z.tall)) hx)
          (omega arith)
          (record {
            mem = c.mem;
            only = refl;
            erased = λ i lo hi. absurd (omega arith);
            other = λ i out. refl;
          })
      where
        sized : IsSized (With t c.mem)
        sized = record { wide = z.wide; tall = z.tall; area = z.area; height = z.height }
