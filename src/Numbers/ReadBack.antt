-- ===== src/Numbers/ReadBack.antt =====
-- The decimal text of a number reads back as the number.
use hueos.Base.{
  ℕ, zero, suc, ◌+◌, ◌-◌, ◌*◌, ◌/◌, ◌%◌, ◌^◌, ◌<◌, ◌≤◌, ◌≡◌, ◌≢◌, inl, inr, refl, ◌∙◌, [], ◌∷◌,
  ◌++◌, reverse, arith, Bytes, length, length-reverse, reverse-cons, ◌==◌, if◌then◌else◌, true,
  Bool-cases,
}
use native.Mathlib.Nat.{pow-suc}
use hueos.Numbers.{append_number, number_string}
use hueos.Numbers.Decimal.{low_digits, decimal, append_number-decimal, number_string-decimal}

-- Reading a text of digits back.
abbrev pub read_from : ℕ → Bytes → ℕ
read_from acc [] = acc
read_from acc (c ∷ s) = read_from (acc * 10 + (c - b'0')) s

abbrev pub AllDigits : Bytes → Type 0
AllDigits [] = Unit {0}
AllDigits (c ∷ s) = (b'0' ≤ c) × (c ≤ b'9') × AllDigits s

read_from-append :
    (acc : ℕ) (s : Bytes) (c : ℕ) → read_from acc (s ++ c ∷ []) ≡ read_from acc s * 10 + (c - b'0')
read_from-append acc [] c = refl
read_from-append acc (d ∷ s) c = read_from-append (acc * 10 + (d - b'0')) s c

AllDigits-append : (s : Bytes) (c : ℕ) → AllDigits s → b'0' ≤ c → c ≤ b'9' → AllDigits (s ++ c ∷ [])
AllDigits-append [] c h lo hi = (lo, hi, tt)
AllDigits-append (d ∷ s) c h lo hi = (h.0, h.1, AllDigits-append s c h.2 lo hi)

-- The text without its last digit is that of a tenth of the number, or empty.
tenth : (k n : ℕ) → Bytes
tenth k n = if n / 10 == 0 then [] else reverse (low_digits k (n / 10))

reverse-low_digits : (k n : ℕ) → reverse (low_digits (suc k) n) ≡ tenth k n ++ (b'0' + n % 10) ∷ []
unfolding tenth
reverse-low_digits k n = elim (Bool-cases (n / 10 == 0)) [
  | inl e ↦ rw e refl
  | inr e ↦ rw e (reverse-cons (b'0' + n % 10) (low_digits k (n / 10)))
]

-- All that there is to say of the text, for one count of digits.
record IsTextOf (n : ℕ) (s : Bytes) : Type 0 where
  value : read_from 0 s ≡ n
  digits : AllDigits s

low_digits-IsTextOf : (k n : ℕ) → n < k → IsTextOf n (reverse (low_digits k n))
low_digits-IsTextOf zero n h = absurd (omega arith)
low_digits-IsTextOf (suc k) n h = rw (reverse-low_digits k n) (elim (Bool-cases (n / 10 == 0)) [
  | inl e ↦
      let small : n / 10 ≡ 0 = ground arith in
      let none_before : tenth k n ≡ [] = unfold tenth in rw e refl in
      rw none_before (record { value = omega arith; digits = (omega arith, omega arith, tt) })
  | inr e ↦
      let nonzero : n / 10 ≢ 0 = ground arith in
      let before : tenth k n ≡ reverse (low_digits k (n / 10)) = unfold tenth in rw e refl in
      let t = low_digits-IsTextOf k (n / 10) (omega arith) in
      rw before (record {
        value =
            read_from-append 0 (reverse (low_digits k (n / 10))) (b'0' + n % 10)
            ∙ omega (arith, t.value);
        digits = AllDigits-append _ (b'0' + n % 10) t.digits (omega arith) (omega arith);
      })
])

-- A count of `k` digits bounds the length of the text of a number below 10^k.
length-low_digits : (k j n : ℕ) → n < 10 ^ suc j → length (low_digits k n) ≤ suc j
length-low_digits zero j n h = omega arith
length-low_digits (suc k) zero n h =
    let small : (n / 10 == 0) ≡ true = ground arith in rw small (omega arith)
length-low_digits (suc k) (suc j) n h = elim (Bool-cases (n / 10 == 0)) [
  | inl e ↦ rw e (omega arith)
  | inr e ↦ rw e (omega (arith, length-low_digits k j (n / 10) (omega (arith, pow-suc 10 (suc j)))))
]

-- What the two forms of number printing write consists of decimal digits, reads back as the number,
-- and for a number of 32 bits takes at most ten bytes.
pub numbers_read_back :
    (n : ℕ) (buf : Bytes)
    → n < 2 ^ 32
    → (append_number n buf ≡ buf ++ number_string n)
      × (read_from 0 (number_string n) ≡ n)
      × AllDigits (number_string n)
      × (length (number_string n) ≤ 10)
numbers_read_back n buf h =
    rw (number_string-decimal n) (append_number-decimal n buf, text.value, text.digits, short)
  where
    text : IsTextOf n (decimal n)
    text = unfold decimal in low_digits-IsTextOf (suc n) n (omega arith)

    short : length (decimal n) ≤ 10
    short =
        unfold decimal in
        rw (length-reverse (low_digits (suc n) n)) (length-low_digits (suc n) 9 n (omega arith))
