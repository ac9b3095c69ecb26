-- ===== src/Terminal/Writing.antt =====
-- Whole strings on the text screen of kernel/terminal.c, from `terminal_initialize` on.
use mathlib.Core.Path.{subst, subst₂}
use hueos.Base.{
  ℕ, suc, ◌+◌, ◌*◌, ◌≤◌, ◌<◌, ◌≡◌, inl, inr, refl, sym, ap, ◌∙◌, false, [], ◌∷◌, Bytes, arith, u32,
  sub32, ◌==◌, Bool-cases, update, for_cells_inv, cell_lt,
}
use hueos.Framebuffer.{framebuffer_is_active}
use hueos.Terminal.{
  Terminal, Console, vga_entry, vga_entry_color, light_grey, black, blank_cell, clear_vga,
  terminal_putentryat, next_row, putchar_vga, terminal_putchar, terminal_write,
  terminal_writestring, before_nul, terminal_initialize,
}
use hueos.Terminal.Scrolling.{IsSized, blank, cell_index-eq, scroll-cells}
use hueos.Terminal.Paper.{Paper, Shows, type_char, putchar_vga-Shows}

-- What a character leaves as it is.
abbrev SameSetup : Terminal → Terminal → Type 0
SameSetup t t' =
    (t'.vga_width ≡ t.vga_width)
    × (t'.vga_height ≡ t.vga_height)
    × (t'.terminal_color ≡ t.terminal_color)

next_row-SameSetup : (t : Terminal) → IsSized t → SameSetup t (next_row t)
unfolding next_row
next_row-SameSetup t z =
    let u : Terminal = record t { terminal_column = 0; terminal_row = sub32 t.vga_height 1 } in
    let sized : IsSized u = record {
      wide = z.wide;
      tall = z.tall;
      area = z.area;
      height = z.height;
    } in
    elim (Bool-cases (u32 (t.terminal_row + 1) == t.vga_height)) [
      | inl full ↦ rw (full, (scroll-cells u sized).0) (refl, refl, refl)
      | inr room ↦ rw room (refl, refl, refl)
    ]

putchar_vga-SameSetup : (c : ℕ) (t : Terminal) → IsSized t → SameSetup t (putchar_vga c t)
unfolding putchar_vga terminal_putentryat
putchar_vga-SameSetup c t z = elim (Bool-cases (c == b'\n')) [
  | inl newline ↦ rw newline (next_row-SameSetup t z)
  | inr other ↦ elim (Bool-cases (u32 (t.terminal_column + 1) == t.vga_width)) [
    | inl wrap ↦
        rw (other, wrap)
          (next_row-SameSetup _
            (record { wide = z.wide; tall = z.tall; area = z.area; height = z.height }))
    | inr room ↦ rw (other, room) (refl, refl, refl)
  ]
]

-- Typing a string.
abbrev pub type_all : ℕ → ℕ → Bytes → Paper → Paper
type_all width color [] p = p
type_all width color (c ∷ cs) p = type_all width color cs (type_char width color c p)

pub write-Shows :
    (cs : Bytes) (s : Console) (p : Paper)
    → framebuffer_is_active s.fb ≡ false
    → Shows s.term p
    → Shows (terminal_write cs s).term (type_all s.term.vga_width s.term.terminal_color cs p)
      × ((terminal_write cs s).fb ≡ s.fb)
      × SameSetup s.term (terminal_write cs s).term
unfolding terminal_write terminal_putchar
write-Shows [] s p off h = (h, refl, (refl, refl, refl))
write-Shows (c ∷ cs) s p off h =
    let t : Terminal = putchar_vga c s.term in
    let same : SameSetup s.term t = putchar_vga-SameSetup c s.term h.prints.sized in
    let rest =
      write-Shows cs (record s { term = t }) (type_char s.term.vga_width s.term.terminal_color c p)
        off (putchar_vga-Shows c s.term p h) in
    let now : terminal_putchar c s ≡ record s { term = t } = rw off refl in
    subst
      (λ r.
        Shows r.term (type_all s.term.vga_width s.term.terminal_color (c ∷ cs) p)
        × (r.fb ≡ s.fb)
        × SameSetup s.term r.term)
      (ap (terminal_write cs) (sym now))
      (
        subst₂
            (λ width ink.
              Shows (terminal_write cs (record s { term = t })).term
                (type_all width ink cs (type_char s.term.vga_width s.term.terminal_color c p)))
            same.0 same.2 rest.0,
        rest.1,
        (rest.2.0 ∙ same.0, rest.2.1 ∙ same.1, rest.2.2 ∙ same.2),
      )

-- A roll with nothing on it.
abbrev pub new_paper : ℕ → Paper
new_paper color = record { ink = λ y x. vga_entry b' ' color; line = 0; col = 0 }

-- The first `k` cells are blank, and only the memory has changed.
record Cleared (t : Terminal) (k : ℕ) (s : Terminal) : Type 0 where
  mem : ℕ → ℕ
  only : s ≡ record t { vga_memory = mem }
  done : (i : ℕ) → i < k → mem i ≡ blank t
  beyond : (i : ℕ) → k ≤ i → mem i ≡ t.vga_memory i

blank_cell-Cleared :
    (t : Terminal) (y x : ℕ) (s : Terminal)
    → IsSized t
    → y < t.vga_height
    → x < t.vga_width
    → Cleared t (y * t.vga_width + x) s
    → Cleared t (suc (y * t.vga_width + x)) (blank_cell y x s)
unfolding blank_cell
blank_cell-Cleared t y x s z hy hx d = record {
  mem = update d.mem (y * t.vga_width + x) (blank t);
  only = rw (d.only, cell_index-eq t x y z hx hy) refl;
  done = λ i below. ground (arith, d.done i);
  beyond = λ i from. ground (arith, d.beyond i);
}

clear_vga-Cleared :
    (t : Terminal) → IsSized t → Cleared t (t.vga_height * t.vga_width) (clear_vga t)
unfolding clear_vga
clear_vga-Cleared t z =
    for_cells_inv (Cleared t) t.vga_height t.vga_width blank_cell t
      (λ y x s hy hx. blank_cell-Cleared t y x s z hy hx)
      (record {
        mem = t.vga_memory;
        only = refl;
        done = λ i below. absurd (omega arith);
        beyond = λ i from. refl;
      })

-- An erased screen with the cursor at the top left shows a new roll.
Cleared-Shows :
    (t s : Terminal)
    → IsSized t
    → t.terminal_row ≡ 0
    → t.terminal_column ≡ 0
    → Cleared t (t.vga_height * t.vga_width) s
    → Shows s (new_paper t.terminal_color)
Cleared-Shows t s z row column d = rw d.only (record {
  prints = record {
    sized = record { wide = z.wide; tall = z.tall; area = z.area; height = z.height };
    row = omega (arith, z.tall);
    same = λ y x hy hx. d.done (y * t.vga_width + x) (cell_lt y x t.vga_height t.vga_width hy hx);
    fresh = λ y x later. refl;
  };
  column = column;
  inside = z.wide;
})

-- Where `terminal_initialize` starts to clear, and what it leaves.
abbrev start : Console → Terminal
start s = record s.term {
  terminal_row = 0;
  terminal_column = 0;
  terminal_color = vga_entry_color light_grey black;
}

start-Cleared :
    (s : Console)
    → IsSized s.term
    → Cleared (start s) (s.term.vga_height * s.term.vga_width) (clear_vga (start s))
start-Cleared s z =
    clear_vga-Cleared (start s)
      (record { wide = z.wide; tall = z.tall; area = z.area; height = z.height })

-- In text mode the screen is blank.
pub initialize-blank :
    (s : Console)
    → framebuffer_is_active s.fb ≡ false
    → IsSized s.term
    → let s' = terminal_initialize s in
      ((i : ℕ)
        → i < s.term.vga_height * s.term.vga_width
        → s'.term.vga_memory i ≡ vga_entry b' ' (vga_entry_color light_grey black))
      × (s'.fb ≡ s.fb)
      × (s'.term ≡ record (start s) { vga_memory = s'.term.vga_memory })
unfolding terminal_initialize
initialize-blank s off z =
    let d = start-Cleared s z in
    let mem : d.mem ≡ (clear_vga (start s)).vga_memory = ap (λ t. t.vga_memory) (sym d.only) in
    rw off (
      λ i lt. ap (λ m. m i) (sym mem) ∙ d.done i lt,
      refl,
      d.only ∙ ap (λ (m : ℕ → ℕ). record (start s) { vga_memory = m }) mem,
    )

initialize-Shows :
    (s : Console)
    → framebuffer_is_active s.fb ≡ false
    → IsSized s.term
    → let s' = terminal_initialize s in
      Shows s'.term (new_paper (vga_entry_color light_grey black))
      × (s'.fb ≡ s.fb)
      × (s'.term.vga_width ≡ s.term.vga_width)
      × (s'.term.terminal_color ≡ vga_entry_color light_grey black)
unfolding terminal_initialize
initialize-Shows s off z =
    let d = start-Cleared s z in
    rw off (
      Cleared-Shows (start s) (clear_vga (start s))
          (record { wide = z.wide; tall = z.tall; area = z.area; height = z.height }) refl refl d,
      refl,
      ap (λ t. t.vga_width) d.only,
      ap (λ t. t.terminal_color) d.only,
    )

-- From `terminal_initialize` on, in text mode, the screen shows the last lines of everything that
-- was written, as if it had been typed on a roll of paper of the terminal's width in light grey on
-- black: each line at its place, the lines above it those before, and the cursor where the next
-- character goes.
pub writestring-Shows :
    (text : Bytes) (s : Console)
    → framebuffer_is_active s.fb ≡ false
    → IsSized s.term
    → let color = vga_entry_color light_grey black in
      Shows
        (terminal_writestring text (terminal_initialize s)).term
        (type_all s.term.vga_width color (before_nul text) (new_paper color))
unfolding terminal_writestring
writestring-Shows text s off z =
    let color : ℕ = vga_entry_color light_grey black in
    let i = initialize-Shows s off z in
    subst₂
      (λ width ink.
        Shows (terminal_write (before_nul text) (terminal_initialize s)).term
          (type_all width ink (before_nul text) (new_paper color)))
      i.2 i.3
      (write-Shows (before_nul text) (terminal_initialize s) (new_paper color) (rw i.1 off) i.0).0
