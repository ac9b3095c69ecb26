-- ===== src/Io.antt =====
-- What the kernel does to the world, as events: the port accesses of kernel.h, and the calls by which a driver prints
-- through the serial port and the terminal. A trace has the newest event first; the assembly routines and the MSR
-- write are events too. What a port read gives is decided by the device, from all that happened before it.
use hueos.Base.{ℕ, ◌∷◌, [], List, ◌==◌, if◌then◌else◌, u8, u16, u32, Bytes, codes}
use Prim.Native.String.{String}

pub data Event : Type 0 where
  out8 in8 out16 in16 out32 in32 : ℕ → ℕ → Event
  serial_text terminal_text : Bytes → Event
  terminal_char : ℕ → Event
  gdt_flush idt_flush : ℕ → Event
  wrmsr : ℕ → ℕ → Event

abbrev pub Trace : Type 0
Trace = List Event

-- The hardware behind the ports: the value that a read of a port returns, by width.
pub record Device : Type 0 where
  pub read8 : Trace → ℕ → ℕ
  pub read16 : Trace → ℕ → ℕ
  pub read32 : Trace → ℕ → ℕ

-- `outb`, `outw`, `outl`: the port has 16 bits.
abbrev pub outb : ℕ → ℕ → Trace → Trace
outb port val t = out8 (u16 port) (u8 val) ∷ t

abbrev pub outw : ℕ → ℕ → Trace → Trace
outw port val t = out16 (u16 port) (u16 val) ∷ t

abbrev pub outl : ℕ → ℕ → Trace → Trace
outl port val t = out32 (u16 port) (u32 val) ∷ t

module _ (dev : Device) where
  abbrev pub inb : ℕ → Trace → ℕ × Trace
  inb port t = let v = u8 (dev.read8 t (u16 port)) in (v, in8 (u16 port) v ∷ t)

  abbrev pub inw : ℕ → Trace → ℕ × Trace
  inw port t = let v = u16 (dev.read16 t (u16 port)) in (v, in16 (u16 port) v ∷ t)

  abbrev pub inl : ℕ → Trace → ℕ × Trace
  inl port t = let v = u32 (dev.read32 t (u16 port)) in (v, in32 (u16 port) v ∷ t)

-- `serial_write` and `terminal_writestring` of a literal.
abbrev pub to_serial : String → Trace → Trace
to_serial s t = serial_text (codes s) ∷ t

abbrev pub to_terminal : String → Trace → Trace
to_terminal s t = terminal_text (codes s) ∷ t

-- The byte last written to a port; 0 before the first.
unfoldable pub last_written : Trace → ℕ → ℕ
last_written [] port = 0
last_written (out8 p v ∷ t) port = let rest = last_written t port in if p == port then v else rest
last_written (in8 p v ∷ t) port = last_written t port
last_written (out16 p v ∷ t) port = last_written t port
last_written (in16 p v ∷ t) port = last_written t port
last_written (out32 p v ∷ t) port = last_written t port
last_written (in32 p v ∷ t) port = last_written t port
last_written (serial_text s ∷ t) port = last_written t port
last_written (terminal_text s ∷ t) port = last_written t port
last_written (terminal_char c ∷ t) port = last_written t port
last_written (gdt_flush a ∷ t) port = last_written t port
last_written (idt_flush a ∷ t) port = last_written t port
last_written (wrmsr a v ∷ t) port = last_written t port
