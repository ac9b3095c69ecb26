-- ===== src/Serial/Hex.antt =====
-- `serial_write_hex` of kernel/serial.c: eight hexadecimal digits.
use hueos.Base.{
  ℕ, ◌+◌, ◌-◌, ◌*◌, ◌%◌, ◌^◌, ◌<◌, ◌≡◌, ◌∙◌, refl, ap, arith, ◌∷◌, [], ◌++◌, true, length, get_or,
  bit_and, bit_and-ones, ◌>>>◌, Bytes, Bool, ◌||◌, ◌==◌, ==_iff, if◌then◌else◌, ltb, leb, false,
  unequal, ◌&&◌, holds_below, holds_below-lt,
}
use hueos.Io.{Trace, Device}
use hueos.Serial.{hex_chars, hex_buffer, serial_write_hex}
use hueos.Serial.Sending.{sent, with_cr, Drains, Sends, AreBytes, serial_write-sent}

-- What a digit stands for, and a string of digits.
unfoldable pub hex_value : ℕ → ℕ
hex_value c = if ltb c b'A' then c - b'0' else c - b'A' + 10

unfoldable pub read_hex : ℕ → Bytes → ℕ
unfolding hex_value
read_hex acc [] = acc
read_hex acc (c ∷ s) = read_hex (acc * 16 + hex_value c) s

digit : ℕ → ℕ
digit v = get_or hex_chars (bit_and v 0xF) 0

digit_table : holds_below 16 (λ d. hex_value (get_or hex_chars d 0) == d) ≡ true
unfolding holds_below hex_value
digit_table = refl

digit-value : (v : ℕ) → hex_value (digit v) ≡ v % 16
unfolding digit
digit-value v =
    let same : bit_and v 0xF ≡ v % 16 = omega (arith, bit_and-ones 4 v) in
    ap (λ d. hex_value (get_or hex_chars d 0)) same
    ∙ (==_iff _ (v % 16)).0 (
        holds_below-lt 16 (λ d. hex_value (get_or hex_chars d 0) == d) (v % 16) digit_table
          (omega arith))

-- The eight digits of a word of 32 bits read back as the word.
hex_buffer-read :
    (value : ℕ)
    → value < 2 ^ 32
    → (read_hex 0 (hex_buffer value) ≡ value) × (length (hex_buffer value) ≡ 8)
unfolding hex_buffer read_hex digit
hex_buffer-read value h = (
  omega (
    arith,
    digit-value (value),
    digit-value (value >>> 4),
    digit-value (value >>> 4 >>> 4),
    digit-value (value >>> 4 >>> 4 >>> 4),
    digit-value (value >>> 4 >>> 4 >>> 4 >>> 4),
    digit-value (value >>> 4 >>> 4 >>> 4 >>> 4 >>> 4),
    digit-value (value >>> 4 >>> 4 >>> 4 >>> 4 >>> 4 >>> 4),
    digit-value (value >>> 4 >>> 4 >>> 4 >>> 4 >>> 4 >>> 4 >>> 4),
  ),
  refl,
)

-- The digits 0 to 9 and A to F; none of them is a line feed.
abbrev pub is_hex : ℕ → Bool
is_hex c = leb b'0' c && leb c b'9' || leb b'A' c && leb c b'F'

abbrev pub AreHex : Bytes → Type 0
AreHex [] = Unit {0}
AreHex (c ∷ s) = (is_hex c ≡ true) × AreHex s

AreHex-with_cr : (s : Bytes) → AreHex s → with_cr s ≡ s
unfolding with_cr
AreHex-with_cr [] p = refl
AreHex-with_cr (c ∷ s) p =
    let other : (c == b'\n') ≡ false = unequal c b'\n' (ground (arith, p.0)) in
    rw other (ap (λ r. c ∷ r) (AreHex-with_cr s p.1))

AreHex-AreBytes : (s : Bytes) → AreHex s → AreBytes s
AreHex-AreBytes [] p = tt
AreHex-AreBytes (c ∷ s) p = (ground (arith, p.0), AreHex-AreBytes s p.1)

hex_table : holds_below 16 (λ d. is_hex (get_or hex_chars d 0)) ≡ true
unfolding holds_below
hex_table = refl

digit_hex : (v : ℕ) → is_hex (digit v) ≡ true
unfolding digit
digit_hex v =
    let low : bit_and v 0xF < 16 = omega (arith, bit_and-ones 4 v) in
    holds_below-lt 16 (λ d. is_hex (get_or hex_chars d 0)) (bit_and v 0xF) hex_table low

hex_buffer-AreHex : (value : ℕ) → AreHex (hex_buffer value)
unfolding hex_buffer digit
hex_buffer-AreHex value =
    let d7 = digit_hex (value >>> 4 >>> 4 >>> 4 >>> 4 >>> 4 >>> 4 >>> 4) in
    let d6 = digit_hex (value >>> 4 >>> 4 >>> 4 >>> 4 >>> 4 >>> 4) in
    let d5 = digit_hex (value >>> 4 >>> 4 >>> 4 >>> 4 >>> 4) in
    let d4 = digit_hex (value >>> 4 >>> 4 >>> 4 >>> 4) in
    let d3 = digit_hex (value >>> 4 >>> 4 >>> 4) in
    let d2 = digit_hex (value >>> 4 >>> 4) in
    let d1 = digit_hex (value >>> 4) in
    (d7, (d6, (d5, (d4, (d3, (d2, (d1, (digit_hex value, tt))))))))

-- On a working port whose transmitter drains, `serial_write_hex` comes back having sent eight hexadecimal digits, in
-- capitals, that read back as the value, for every value of 32 bits.
pub serial_write_hex-sent :
    (dev : Device) (fuel value : ℕ) (t : Trace)
    → Drains dev fuel
    → value < 2 ^ 32
    → (digits : Bytes) × Sends (sent t ++ digits) (serial_write_hex dev fuel true value t)
      × (read_hex 0 digits ≡ value)
      × (length digits ≡ 8)
      × AreHex digits
unfolding serial_write_hex
serial_write_hex-sent dev fuel value t drains small =
    let hex = hex_buffer-AreHex value in
    let (u, same, all) =
      serial_write-sent dev fuel (hex_buffer value) t drains
        (AreHex-AreBytes (hex_buffer value) hex) in
    let (read, size) = hex_buffer-read value small in
    (
      hex_buffer value,
      (u, same, all ∙ ap (λ s. sent t ++ s) (AreHex-with_cr (hex_buffer value) hex)),
      read,
      size,
      hex,
    )
