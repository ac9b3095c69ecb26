-- ===== src/Numbers/Lengths.antt =====
-- The printed numbers fit into the buffers that the files of the kernel keep for them.
use hueos.Base.{
  ℕ, zero, suc, ◌/◌, ◌^◌, ◌≤◌, ◌<◌, arith, length, length-reverse, Bool-cases, inl, inr, ◌==◌,
}
use native.Mathlib.Nat.{pow-suc}
use hueos.Numbers.Decimal.{low_digits, decimal}

low_digits-le : (m k n : ℕ) → 0 < k → n < 10 ^ k → length (low_digits m n) ≤ k
low_digits-le zero k n pos lt = omega arith
low_digits-le (suc m) zero n pos lt = absurd (omega arith)
low_digits-le (suc m) (suc k) n pos lt = elim (Bool-cases (n / 10 == 0)) [
  | inl e ↦ rw e (omega arith)
  | inr e ↦
      let rest : n / 10 < 10 ^ k = omega (arith, pow-suc 10 k) in
      let left : 0 < k = more k rest (ground arith) in
      rw e (omega (arith, low_digits-le m k (n / 10) left rest))
]
  where
    more : (k : ℕ) → n / 10 < 10 ^ k → 0 < n / 10 → 0 < k
    more zero lt pos = absurd (omega arith)
    more (suc k) lt pos = omega arith

pub length-decimal : (k n : ℕ) → 0 < k → n < 10 ^ k → length (decimal n) ≤ k
unfolding decimal
length-decimal k n pos lt =
    omega (arith, length-reverse (low_digits (suc n) n), low_digits-le (suc n) k n pos lt)
