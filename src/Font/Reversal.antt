-- ===== src/Font/Reversal.antt =====
-- `reverse_bits` of kernel/vesa.c turns a byte round.
use hueos.Base.{
  ℕ, Bool, ◌-◌, ◌/◌, ◌%◌, ◌^◌, ◌<◌, ◌≡◌, refl, true, ◌==◌, ==_iff, holds_below, holds_below-lt,
}
use hueos.Font.{reverse_bits}

-- Bit `i`, the lowest being 0.
abbrev pub bit : ℕ → ℕ → ℕ
bit b i = b / 2 ^ i % 2

swapped : ℕ → ℕ → Bool
swapped b i = bit (reverse_bits b) (7 - i) == bit b i

swapped_row : ℕ → Bool
swapped_row b = holds_below 8 (swapped b)

swapped_table : holds_below 256 swapped_row ≡ true
unfolding holds_below reverse_bits swapped swapped_row
swapped_table = refl

-- Bit 7 - i of the result is bit i of the byte, for all eight bits.
pub bit-reverse_bits : (b i : ℕ) → b < 256 → i < 8 → bit (reverse_bits b) (7 - i) ≡ bit b i
unfolding swapped swapped_row
bit-reverse_bits b i hb hi =
    (==_iff _ _).0
      (holds_below-lt 8 (swapped b) i (holds_below-lt 256 swapped_row b swapped_table hb) hi)

twice_table : holds_below 256 (λ b. reverse_bits (reverse_bits b) == b) ≡ true
unfolding holds_below reverse_bits
twice_table = refl

-- Turning a byte round twice gives it back.
reverse_bits_twice : (b : ℕ) → b < 256 → reverse_bits (reverse_bits b) ≡ b
reverse_bits_twice b hb = (==_iff _ b).0 (holds_below-lt 256 _ b twice_table hb)
