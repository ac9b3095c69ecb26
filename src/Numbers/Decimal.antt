-- ===== src/Numbers/Decimal.antt =====
-- Both forms of number printing write the decimal digits of the number.
use mathlib.Core.List.{append_assoc, append-nil}
use mathlib.Core.Logic.{dif_pos, dif_neg}
use mathlib.Core.WellFounded.{Acc}
use native.Mathlib.Bridge.{le_prop}
use hueos.Base.{
  ℕ, zero, suc, ◌+◌, ◌/◌, ◌%◌, ◌<◌, ◌≡◌, ◌≢◌, inl, inr, refl, sym, ◌∙◌, [], ◌∷◌, ◌++◌, reverse,
  arith, Bytes, lt_wf, length-append, dec_lt, ◌==◌, if◌then◌else◌, true, false, Bool-cases,
}
use hueos.Numbers.{
  do_digits_acc, do_digits, append_number, while_digits_acc, while_digits, number_string,
}
use hueos.Numbers.Reversal.{copy_back-reverse, reverse_part-reverse}

-- The digits from the lowest on. The count of digits may be any that is above the number.
abbrev pub low_digits : ℕ → ℕ → Bytes
low_digits zero n = []
low_digits (suc k) n = (b'0' + n % 10) ∷ (if n / 10 == 0 then [] else low_digits k (n / 10))

-- The text of a number: its decimal digits, the highest first.
unfoldable pub decimal : ℕ → Bytes
decimal n = reverse (low_digits (suc n) n)

do_digits_acc-low :
    (k n : ℕ) (w : Acc ◌<◌ n) (buf : Bytes) → n < k → do_digits_acc n w buf ≡ buf ++ low_digits k n
unfolding do_digits_acc
do_digits_acc-low zero n w buf h = absurd (omega arith)
do_digits_acc-low (suc k) n (Acc.intro _ smaller) buf h = elim (dec_lt 0 (n / 10)) [
  | yes p ↦
      let more : (n / 10 == 0) ≡ false = ground arith in
      dif_pos (dec_lt 0 (n / 10)) le_prop p _ _
      ∙ do_digits_acc-low k (n / 10) (smaller (n / 10) _) (buf ++ (b'0' + n % 10) ∷ [])
          (omega arith)
      ∙ rw more (append_assoc buf ((b'0' + n % 10) ∷ []) (low_digits k (n / 10)))
  | no p ↦
      let last : (n / 10 == 0) ≡ true = ground arith in
      dif_neg (dec_lt 0 (n / 10)) p _ _ ∙ rw last refl
]

do_digits-low : (n : ℕ) (buf : Bytes) → do_digits n buf ≡ buf ++ low_digits (suc n) n
unfolding do_digits
do_digits-low n buf = do_digits_acc-low (suc n) n (lt_wf.apply n) buf (omega arith)

while_digits_acc-low :
    (k n : ℕ) (w : Acc ◌<◌ n) (buf : Bytes)
    → n < k
    → while_digits_acc n w buf ≡ buf ++ (if n == 0 then [] else low_digits k n)
unfolding while_digits_acc
while_digits_acc-low zero n w buf h = absurd (omega arith)
while_digits_acc-low (suc k) n (Acc.intro _ smaller) buf h = elim (dec_lt 0 n) [
  | yes p ↦
      let more : (n == 0) ≡ false = ground arith in
      dif_pos (dec_lt 0 n) le_prop p _ _
      ∙ while_digits_acc-low k (n / 10) (smaller (n / 10) _) (buf ++ (b'0' + n % 10) ∷ [])
          (omega arith)
      ∙ rw more (
          append_assoc buf ((b'0' + n % 10) ∷ [])
            (if n / 10 == 0 then [] else low_digits k (n / 10)))
  | no p ↦
      let last : (n == 0) ≡ true = ground arith in
      dif_neg (dec_lt 0 n) p _ _ ∙ rw last (sym (append-nil buf))
]

while_digits-low : (n : ℕ) (buf : Bytes) → n ≢ 0 → while_digits n buf ≡ buf ++ low_digits (suc n) n
unfolding while_digits
while_digits-low n buf h =
    let more : (n == 0) ≡ false = ground arith in
    while_digits_acc-low (suc n) n (lt_wf.apply n) buf (omega arith) ∙ rw more refl

-- The first form appends the decimal text of the number to whatever the buffer holds.
pub append_number-decimal : (n : ℕ) (buf : Bytes) → append_number n buf ≡ buf ++ decimal n
unfolding append_number decimal
append_number-decimal n buf =
    rw (do_digits-low n buf, length-append buf (low_digits (suc n) n))
      (reverse_part-reverse buf (low_digits (suc n) n))

-- The second form gives the decimal text of the number too, with zero no exception.
pub number_string-decimal : (n : ℕ) → number_string n ≡ decimal n
unfolding number_string decimal
number_string-decimal n = elim (Bool-cases (n == 0)) [
  | inl e ↦ let zero_now : n ≡ 0 = ground arith in rw zero_now refl
  | inr e ↦ rw (e, while_digits-low n [] (ground arith)) (copy_back-reverse (low_digits (suc n) n))
]
