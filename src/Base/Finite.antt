-- ===== src/Base/Finite.antt =====
-- A claim about every number below a bound, checked by evaluation.
use Prim.Native.Nat.{ℕ, zero, suc, ◌<◌}
use mathlib.Core.Path.{◌≡◌}
use mathlib.Core.Bool.{Bool, true, ◌&&◌}
use native.Mathlib.Omega.{arith}

unfoldable pub holds_below : ℕ → (ℕ → Bool) → Bool
holds_below zero test = true
holds_below (suc n) test = holds_below n test && test n

pub holds_below-lt :
    (n : ℕ) (test : ℕ → Bool) (k : ℕ) → holds_below n test ≡ true → k < n → test k ≡ true
unfolding holds_below
holds_below-lt zero test k h below = absurd (omega arith)
holds_below-lt (suc n) test k h below = ground (arith, holds_below-lt n test k)
