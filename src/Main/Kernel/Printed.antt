-- ===== src/Main/Kernel/Printed.antt =====
-- All text that the parts of the kernel write to the terminal of kernel/terminal.c, and what is done with it.
use hueos.Base.{[], ◌∷◌, ◌++◌, Bytes}
use hueos.Io.{
  Trace, out8, in8, out16, in16, out32, in32, serial_text, terminal_text, terminal_char, gdt_flush,
  idt_flush, wrmsr,
}
use hueos.Terminal.{Console, terminal_write, terminal_writestring, before_nul}
use hueos.Main.Kernel.{screen}

-- All characters for the terminal, the oldest first.
unfoldable pub printed : Trace → Bytes
printed [] = []
printed (terminal_text s ∷ t) = printed t ++ before_nul s
printed (terminal_char x ∷ t) = printed t ++ x ∷ []
printed (serial_text s ∷ t) = printed t
printed (out8 p v ∷ t) = printed t
printed (in8 p v ∷ t) = printed t
printed (out16 p v ∷ t) = printed t
printed (in16 p v ∷ t) = printed t
printed (out32 p v ∷ t) = printed t
printed (in32 p v ∷ t) = printed t
printed (gdt_flush a ∷ t) = printed t
printed (idt_flush a ∷ t) = printed t
printed (wrmsr a v ∷ t) = printed t

-- A property of the text and the console, if it is kept when text is written, holds for what a trace prints.
module _ (Q : Bytes → Console → Type 0) (s : Console) (start : Q [] s)
    (written : (before text : Bytes) (c : Console)
      → Q before c
      → Q (before ++ text) (terminal_write text c)) where
  pub screen-printed : (t : Trace) → Q (printed t) (screen t s)
  unfolding printed screen terminal_writestring terminal_write
  screen-printed [] = start
  screen-printed (terminal_text text ∷ t) =
      written (printed t) (before_nul text) (screen t s) (screen-printed t)
  screen-printed (terminal_char c ∷ t) =
      written (printed t) (c ∷ []) (screen t s) (screen-printed t)
  screen-printed (serial_text text ∷ t) = screen-printed t
  screen-printed (out8 p v ∷ t) = screen-printed t
  screen-printed (in8 p v ∷ t) = screen-printed t
  screen-printed (out16 p v ∷ t) = screen-printed t
  screen-printed (in16 p v ∷ t) = screen-printed t
  screen-printed (out32 p v ∷ t) = screen-printed t
  screen-printed (in32 p v ∷ t) = screen-printed t
  screen-printed (gdt_flush a ∷ t) = screen-printed t
  screen-printed (idt_flush a ∷ t) = screen-printed t
  screen-printed (wrmsr a v ∷ t) = screen-printed t
