-- ===== src/Base/Store.antt =====
-- Physical memory as a function from byte addresses, read and written as x86 does: little-endian.
use Prim.Native.Nat.{ℕ, zero, suc, ◌+◌, ◌*◌, ◌/◌, ◌%◌, ◌^◌, ◌≤◌, ◌<◌}
use mathlib.Core.Path.{◌≡◌, refl, ap}
use mathlib.Core.Logic.{◌⊎◌}
use native.Mathlib.Omega.{arith}
use native.Mathlib.Nat.{pow-suc}
use hueos.Base.Tests.{◌==◌, if◌then◌else◌}

abbrev pub Ram : Type 0
Ram = ℕ → ℕ

abbrev pub update : Ram → ℕ → ℕ → Ram
update ram a v j = if j == a then v else ram j

-- The `n` bytes from `a` on; an address holds a byte.
unfoldable pub load : ℕ → Ram → ℕ → ℕ
load zero ram a = 0
load (suc n) ram a = ram a % 256 + load n ram (suc a) * 256

unfoldable pub store : ℕ → Ram → ℕ → ℕ → Ram
store zero ram a v = ram
store (suc n) ram a v = store n (update ram a (v % 256)) (suc a) (v / 256)

pub store-outside :
    (n : ℕ) (ram : Ram) (a v j : ℕ) → (j < a) ⊎ (a + n ≤ j) → store n ram a v j ≡ ram j
unfolding store
store-outside zero ram a v j out = refl
store-outside (suc n) ram a v j out =
    ground (arith, store-outside n (update ram a (v % 256)) (suc a) (v / 256) j)

pub load-lt : (n : ℕ) (ram : Ram) (a : ℕ) → load n ram a < 256 ^ n
unfolding load
load-lt zero ram a = omega arith
load-lt (suc n) ram a = omega (arith, load-lt n ram (suc a), pow-suc 256 n)

-- A load sees only the bytes that it reads.
pub load-agree :
    (n : ℕ) (ram other : Ram) (a : ℕ)
    → ((j : ℕ) → a ≤ j → j < a + n → ram j ≡ other j)
    → load n ram a ≡ load n other a
unfolding load
load-agree zero ram other a same = refl
load-agree (suc n) ram other a same = omega (
  arith,
  ap (λ t. t % 256) (same a (omega arith) (omega arith)),
  load-agree n ram other (suc a) (λ j p q. same j (omega arith) (omega arith)),
)

pub load-store_self : (n : ℕ) (ram : Ram) (a v : ℕ) → v < 256 ^ n → load n (store n ram a v) a ≡ v
unfolding load store
load-store_self zero ram a v fits = omega arith
load-store_self (suc n) ram a v fits =
    let low : store n (update ram a (v % 256)) (suc a) (v / 256) a ≡ v % 256 =
      ground (arith, store-outside n (update ram a (v % 256)) (suc a) (v / 256) a) in
    let small : v / 256 < 256 ^ n = omega (arith, pow-suc 256 n) in
    omega (arith, low, load-store_self n (update ram a (v % 256)) (suc a) (v / 256) small)

-- A store leaves what is loaded from elsewhere.
pub load-store_apart :
    (m n : ℕ) (ram : Ram) (a b v : ℕ)
    → (b + m ≤ a) ⊎ (a + n ≤ b)
    → load m (store n ram a v) b ≡ load m ram b
load-store_apart m n ram a b v apart =
    load-agree m (store n ram a v) ram b (λ j p q. store-outside n ram a v j (grind arith))
