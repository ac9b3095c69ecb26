-- ===== src/Serial.antt =====
-- kernel/serial.c: the first serial port. A wait for the transmitter has fuel, one unit for each read of the line
-- status; `none` is a loop that did not end in that many reads.
pub mod Sending
pub mod Hex
use hueos.Base.{
  ℕ, zero, suc, ◌+◌, ◌-◌, ◌∷◌, [], List, Bool, true, false, if◌then◌else◌, ◌==◌, bit_and, u8,
  get_or, set, replicate, for_up, Option, none, some, ◌>>=◌, is_set, Bytes, codes, ◌>>>◌,
}
use hueos.Io.{
  terminal_text, terminal_char, out8, in8, out16, in16, out32, in32, gdt_flush, idt_flush, wrmsr,
  serial_text, Trace, Device, outb, inb,
}

abbrev pub com1 : ℕ
com1 = 0x3F8

module _ (dev : Device) where
  -- The new value of `serial_initialized`, and the port accesses.
  unfoldable pub init_serial : Trace → Bool × Trace
  init_serial t =
      let t = outb (com1 + 0) 0x03 (outb (com1 + 3) 0x80 (outb (com1 + 1) 0x00 t)) in
      let t = outb (com1 + 2) 0xC7 (outb (com1 + 3) 0x03 (outb (com1 + 1) 0x00 t)) in
      let t = outb (com1 + 0) 0xAE (outb (com1 + 4) 0x1E (outb (com1 + 4) 0x0B t)) in
      let (echo, t) = inb dev (com1 + 0) t in
      if echo == 0xAE then (true, outb (com1 + 4) 0x0F t) else (false, t)

  unfoldable pub is_transmit_empty : Trace → ℕ × Trace
  is_transmit_empty t = let (status, t) = inb dev (com1 + 5) t in (bit_and status 0x20, t)

  -- `while (is_transmit_empty() == 0);`
  unfoldable pub wait_transmit : ℕ → Trace → Option Trace
  wait_transmit zero t = none
  wait_transmit (suc fuel) t =
      let (empty, t') = is_transmit_empty t in
      let again = wait_transmit fuel t' in if empty == 0 then again else some t'

  unfoldable pub serial_writechar : ℕ → Bool → ℕ → Trace → Option Trace
  serial_writechar fuel false c t = some t
  serial_writechar fuel true c t = do t ← wait_transmit fuel t; some (outb com1 c t)

  -- The loop of `serial_write`, over the bytes before the NUL.
  unfoldable pub write_loop : ℕ → Bool → Bytes → Trace → Option Trace
  write_loop fuel ready [] t = some t
  write_loop fuel ready (c ∷ text) t =
      (if c == b'\n' then serial_writechar fuel ready b'\r' t else some t)
      >>= serial_writechar fuel ready c
      >>= write_loop fuel ready text

  unfoldable pub serial_write : ℕ → Bool → Bytes → Trace → Option Trace
  serial_write fuel false text t = some t
  serial_write fuel true text t = write_loop fuel true text t

  -- What is done for a trace, with the bytes of the serial port: each text that the drivers write is sent by
  -- `serial_write`, with the waits for the transmitter, behind what was done before it.
  unfoldable pub carry_out : ℕ → Bool → Trace → Option Trace
  unfolding serial_write
  carry_out fuel ready [] = some []
  carry_out fuel ready (serial_text s ∷ t) = carry_out fuel ready t >>= serial_write fuel ready s
  carry_out fuel ready (terminal_text s ∷ t) = do
    t ← carry_out fuel ready t
    some (terminal_text s ∷ t)
  carry_out fuel ready (terminal_char c ∷ t) = do
    t ← carry_out fuel ready t
    some (terminal_char c ∷ t)
  carry_out fuel ready (out8 p v ∷ t) = do t ← carry_out fuel ready t; some (out8 p v ∷ t)
  carry_out fuel ready (in8 p v ∷ t) = do t ← carry_out fuel ready t; some (in8 p v ∷ t)
  carry_out fuel ready (out16 p v ∷ t) = do t ← carry_out fuel ready t; some (out16 p v ∷ t)
  carry_out fuel ready (in16 p v ∷ t) = do t ← carry_out fuel ready t; some (in16 p v ∷ t)
  carry_out fuel ready (out32 p v ∷ t) = do t ← carry_out fuel ready t; some (out32 p v ∷ t)
  carry_out fuel ready (in32 p v ∷ t) = do t ← carry_out fuel ready t; some (in32 p v ∷ t)
  carry_out fuel ready (gdt_flush a ∷ t) = do t ← carry_out fuel ready t; some (gdt_flush a ∷ t)
  carry_out fuel ready (idt_flush a ∷ t) = do t ← carry_out fuel ready t; some (idt_flush a ∷ t)
  carry_out fuel ready (wrmsr a v ∷ t) = do t ← carry_out fuel ready t; some (wrmsr a v ∷ t)

abbrev pub hex_chars : Bytes
hex_chars = codes "0123456789ABCDEF"

-- A round of the loop, for index `7 - k`: the lowest nibble goes to the buffer, and the value moves down.
unfoldable pub hex_round : ℕ → Bytes × ℕ → Bytes × ℕ
hex_round k (buffer, value) =
    (set buffer (7 - k) (get_or hex_chars (bit_and value 0xF) 0), value >>> 4)

-- The eight bytes before the NUL; what the array held before is overwritten.
unfoldable pub hex_buffer : ℕ → Bytes
unfolding for_up hex_round
hex_buffer value = (for_up 8 0 hex_round (replicate 8 0, value)).0

module _ (dev : Device) where
  unfoldable pub serial_write_hex : ℕ → Bool → ℕ → Trace → Option Trace
  serial_write_hex fuel false value t = some t
  serial_write_hex fuel true value t = serial_write dev fuel true (hex_buffer value) t
