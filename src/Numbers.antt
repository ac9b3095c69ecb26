-- ===== src/Numbers.antt =====
-- The number printing that kernel/framebuffer.c, vesa.c, ide.c, scsi.c and hwinfo.c repeat inline,
-- in two forms, and the hexadecimal form of serial.c, framebuffer.c and vesa.c. A buffer is the list
-- of the bytes written so far; the terminating NUL is what ends the list.
pub mod Reversal
pub mod Decimal
pub mod ReadBack
pub mod Lengths
use mathlib.Core.Logic.{dite}
use mathlib.Core.WellFounded.{Acc, WellFounded}
use hueos.Base.{
  ℕ, zero, suc, ◌+◌, ◌-◌, ◌/◌, ◌%◌, ◌<◌, [], ◌∷◌, ◌++◌, arith, Bytes, length, get_or, set, for_up,
  lt_wf, dec_lt, ◌==◌, if◌then◌else◌, ltb, u8, bit_and, ◌>>>◌, ◌*◌,
}

-- `do { buf[idx++] = '0' + (val % 10); val /= 10; } while (val > 0);`
do_digits_acc : (val : ℕ) → Acc ◌<◌ val → Bytes → Bytes
do_digits_acc val (Acc.intro _ smaller) buf =
    let buf' : Bytes = buf ++ (b'0' + val % 10) ∷ [] in
    dite (dec_lt 0 (val / 10))
      (λ h. do_digits_acc (val / 10) (smaller (val / 10) (omega arith)) buf') (λ _. buf')

unfoldable pub do_digits : ℕ → Bytes → Bytes
unfolding do_digits_acc lt_wf dec_lt
do_digits val buf = do_digits_acc val (lt_wf.apply val) buf

-- The body of the loop that turns `buf[start … end)` round in place.
unfoldable pub swap_ends : ℕ → ℕ → ℕ → Bytes → Bytes
swap_ends start end j buf =
    let t = get_or buf j 0 in
    set (set buf j (get_or buf (end - 1 - (j - start)) 0)) (end - 1 - (j - start)) t

-- `for (int j = start; j < start + (end - start)/2; j++)`
unfoldable pub reverse_part : ℕ → ℕ → Bytes → Bytes
reverse_part start end buf = for_up ((end - start) / 2) start (swap_ends start end) buf

-- The first form: the digits from the lowest on are appended and turned round in place.
unfoldable pub append_number : ℕ → Bytes → Bytes
append_number val buf = let buf' = do_digits val buf in reverse_part (length buf) (length buf') buf'

-- `while (temp > 0) { digits[d++] = '0' + (temp % 10); temp /= 10; }`
while_digits_acc : (temp : ℕ) → Acc ◌<◌ temp → Bytes → Bytes
while_digits_acc temp (Acc.intro _ smaller) digits =
    dite (dec_lt 0 temp)
      (λ h.
        while_digits_acc (temp / 10) (smaller (temp / 10) (omega arith))
          (digits ++ (b'0' + temp % 10) ∷ []))
      (λ _. digits)

unfoldable pub while_digits : ℕ → Bytes → Bytes
unfolding while_digits_acc lt_wf dec_lt
while_digits temp digits = while_digits_acc temp (lt_wf.apply temp) digits

-- `for (int j = d - 1; j >= 0; j--) size_str[pos++] = digits[j];`
unfoldable pub copy_back : Bytes → Bytes
copy_back digits =
    for_up (length digits) 0 (λ k out. out ++ get_or digits (length digits - 1 - k) 0 ∷ []) []

-- The second form: a string of its own, whose zero is a special case.
unfoldable pub number_string : ℕ → Bytes
number_string val = if val == 0 then b'0' ∷ [] else copy_back (while_digits val [])

-- The digit of a nibble, in small letters.
unfoldable pub hex_digit : ℕ → ℕ
hex_digit nibble = if ltb nibble 10 then b'0' + nibble else b'a' + nibble - 10

-- `for (int i = 7; i >= 0; i--)`: the eight nibbles of a word, the highest first.
unfoldable pub hex_word : ℕ → Bytes
unfolding hex_digit
hex_word val =
    for_up 8 0 (λ k out. out ++ hex_digit (u8 (bit_and (val >>> ((7 - k) * 4)) 0xf)) ∷ []) []
