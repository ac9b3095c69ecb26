-- ===== src/Base/Bits.antt =====
-- `&` with a contiguous mask and `|` of disjoint fields, as arithmetic, for every position and width.
use Prim.Native.Nat.{
  ℕ, zero, suc, ◌+◌, ◌-◌, ◌*◌, ◌/◌, ◌%◌, ◌^◌, ◌≤◌, ◌<◌, min, max, bit_and, bit_or, digits, bitwise,
  bit_and-bitwise, bit_or-bitwise,
}
use mathlib.Core.Path.{◌≡◌, refl, ap, sym, ◌∙◌}
use native.Mathlib.Nat.{
  mul-one, div-one, pow-succ', pow-suc, one-le-pow, div-div-eq-div-mul, mod-lt, mod-eq_of_lt,
  div-add-mod', mul-add-mod_self_right,
}
use native.Mathlib.Omega.{arith}

-- The library's operations recur on a count of digits; any count from the number on gives the same.
module _ (ends : ℕ → ℕ) (op : ℕ → ℕ → ℕ) where
  digits-enough : (k n a b : ℕ) → a ≤ k → a ≤ n → digits ends op k a b ≡ digits ends op n a b
  digits-enough zero zero a b p q = refl
  digits-enough zero (suc n) zero b p q = refl
  digits-enough zero (suc n) (suc a) b p q = absurd (omega arith)
  digits-enough (suc k) zero zero b p q = refl
  digits-enough (suc k) zero (suc a) b p q = absurd (omega arith)
  digits-enough (suc k) (suc n) zero b p q = refl
  digits-enough (suc k) (suc n) (suc a) b p q =
      ap (λ t. t * 2 + op (suc a % 2) (b % 2))
        (digits-enough k n (suc a / 2) (b / 2) (omega arith) (omega arith))

  lowest_digit :
      (a b : ℕ)
      → bitwise ends op (suc a) b ≡ bitwise ends op (suc a / 2) (b / 2) * 2 + op (suc a % 2) (b % 2)
  lowest_digit a b =
      ap (λ t. t * 2 + op (suc a % 2) (b % 2))
        (digits-enough a (suc a / 2) (suc a / 2) (b / 2) (omega arith) (omega arith))

bit_and_digit : (a b : ℕ) → bit_and a b ≡ bit_and (a / 2) (b / 2) * 2 + min (a % 2) (b % 2)
bit_and_digit zero b = omega (arith, bit_and-bitwise 0 b, bit_and-bitwise 0 (b / 2))
bit_and_digit (suc a) b = omega (
  arith,
  bit_and-bitwise (suc a) b,
  bit_and-bitwise (suc a / 2) (b / 2),
  lowest_digit (λ _. 0) min a b,
)

bit_or_digit : (a b : ℕ) → bit_or a b ≡ bit_or (a / 2) (b / 2) * 2 + max (a % 2) (b % 2)
bit_or_digit zero b = omega (arith, bit_or-bitwise 0 b, bit_or-bitwise 0 (b / 2))
bit_or_digit (suc a) b = omega (
  arith,
  bit_or-bitwise (suc a) b,
  bit_or-bitwise (suc a / 2) (b / 2),
  lowest_digit (λ b. b) max a b,
)

bit_and-zero_below : (k a : ℕ) → a ≤ k → bit_and a 0 ≡ 0
bit_and-zero_below k zero h = refl
bit_and-zero_below zero (suc a) h = absurd (omega arith)
bit_and-zero_below (suc k) (suc a) h =
    omega (arith, bit_and_digit (suc a) 0, bit_and-zero_below k (suc a / 2) (omega arith))

bit_and-zero : (a : ℕ) → bit_and a 0 ≡ 0
bit_and-zero a = bit_and-zero_below a a (omega arith)

bit_or-zero_below : (k a : ℕ) → a ≤ k → bit_or a 0 ≡ a
bit_or-zero_below k zero h = refl
bit_or-zero_below zero (suc a) h = absurd (omega arith)
bit_or-zero_below (suc k) (suc a) h =
    omega (arith, bit_or_digit (suc a) 0, bit_or-zero_below k (suc a / 2) (omega arith))

bit_or-zero : (a : ℕ) → bit_or a 0 ≡ a
bit_or-zero a = bit_or-zero_below a a (omega arith)

pow_pos : (k : ℕ) → 0 < 2 ^ k
pow_pos k = one-le-pow k 2 (omega arith)

halve : (n : ℕ) → n * 2 / 2 ≡ n
halve n = omega arith

-- The remainder by `m * 2` has the digits of the remainder of the half, and the lowest digit.
mod_double : (a m : ℕ) → 0 < m → a % (m * 2) ≡ a / 2 % m * 2 + a % 2
mod_double a m pos =
    ap (λ t. t % (m * 2)) whole ∙ mul-add-mod_self_right q (m * 2) s ∙ mod-eq_of_lt small
  where
    q : ℕ
    q = a / 2 / m

    s : ℕ
    s = a / 2 % m * 2 + a % 2

    small : s < m * 2
    small = omega (arith, mod-lt (a / 2) pos)

    whole : a ≡ q * (m * 2) + s
    whole = omega (arith, div-add-mod' (a / 2) m)

-- `a & (2 ^ m - 1)`.
pub bit_and-ones : (m a : ℕ) → bit_and a (2 ^ m - 1) ≡ a % 2 ^ m
bit_and-ones zero a = omega (arith, bit_and-zero a)
bit_and-ones (suc m) a =
    let half : (2 ^ suc m - 1) / 2 ≡ 2 ^ m - 1 = omega (arith, pow-suc 2 m, pow_pos m) in
    let odd : (2 ^ suc m - 1) % 2 ≡ 1 = omega (arith, pow-suc 2 m, pow_pos m) in
    let rest : bit_and (a / 2) ((2 ^ suc m - 1) / 2) ≡ a / 2 % 2 ^ m =
      rw half (bit_and-ones m (a / 2)) in
    let double : a % 2 ^ suc m ≡ a / 2 % 2 ^ m * 2 + a % 2 =
      rw (pow-suc 2 m) (mod_double a (2 ^ m) (pow_pos m)) in
    omega (arith, bit_and_digit a (2 ^ suc m - 1), odd, rest, double)

-- `a & mask`, where the mask is `m` ones from bit `k` on.
pub bit_and-field : (k m a : ℕ) → bit_and a ((2 ^ m - 1) * 2 ^ k) ≡ a / 2 ^ k % 2 ^ m * 2 ^ k
bit_and-field zero m a = rw (mul-one, div-one, mul-one) (bit_and-ones m a)
bit_and-field (suc k) m a =
    let mask : ℕ = (2 ^ m - 1) * 2 ^ k in
    let twice : (2 ^ m - 1) * 2 ^ suc k ≡ mask * 2 =
      omega (arith, ap (λ (t : ℕ). (2 ^ m - 1) * t) (pow-suc 2 k)) in
    let low : bit_and a (mask * 2) ≡ bit_and (a / 2) mask * 2 =
      omega (arith, bit_and_digit a (mask * 2), ap (bit_and (a / 2)) (halve mask)) in
    let high : a / 2 ^ suc k ≡ a / 2 / 2 ^ k =
      ap (λ t. a / t) (pow-succ' 2 k) ∙ sym (div-div-eq-div-mul a 2 (2 ^ k)) in
    rw (twice, high, pow-suc 2 k) (low ∙ ap (λ t. t * 2) (bit_and-field k m (a / 2)) ∙ omega arith)

-- `(q << k) | r`, where `r` fits `k` bits.
pub bit_or-fields : (k q r : ℕ) → r < 2 ^ k → bit_or (q * 2 ^ k) r ≡ q * 2 ^ k + r
bit_or-fields zero q r fits =
    let none_left : r ≡ 0 = omega arith in rw (none_left, mul-one) (bit_or-zero q ∙ omega arith)
bit_or-fields (suc k) q r fits =
    let twice : q * 2 ^ suc k ≡ q * 2 ^ k * 2 =
      omega (arith, ap (λ (t : ℕ). q * t) (pow-suc 2 k)) in
    let rest : bit_or (q * 2 ^ k * 2 / 2) (r / 2) ≡ q * 2 ^ k + r / 2 =
      rw (halve (q * 2 ^ k)) (bit_or-fields k q (r / 2) (omega (arith, pow-suc 2 k))) in
    rw twice (omega (arith, bit_or_digit (q * 2 ^ k * 2) r, rest))

bit_or_comm_below : (k a b : ℕ) → a ≤ k → bit_or a b ≡ bit_or b a
bit_or_comm_below k zero b h = bit_or-bitwise 0 b ∙ sym (bit_or-zero b)
bit_or_comm_below zero (suc a) b h = absurd (omega arith)
bit_or_comm_below (suc k) (suc a) b h = omega (
  arith,
  bit_or_digit (suc a) b,
  bit_or_digit b (suc a),
  bit_or_comm_below k (suc a / 2) (b / 2) (omega arith),
)

pub bit_or_comm : (a b : ℕ) → bit_or a b ≡ bit_or b a
bit_or_comm a b = bit_or_comm_below a a b (omega arith)
