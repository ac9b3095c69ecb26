-- ===== src/Base/Loops.antt =====
-- The counted loops of C: `for (i = 0; i < n; i++)`, alone and two nested over the cells of a grid.
use Prim.Native.Nat.{ℕ, zero, suc, ◌+◌, ◌*◌, ◌≤◌, ◌<◌}
use mathlib.Core.Path.{◌≡◌, subst, ap}
use mathlib.Core.Logic.{◌≢◌, ◌⊎◌}
use native.Mathlib.Decide.{dec_lt}
use native.Mathlib.Omega.{arith}

module _ {ℓ} {S : Type ℓ} where
  -- `left` rounds from index `i` on. A loop whose counter runs down is written by its rounds.
  unfoldable pub for_up : ℕ → ℕ → (ℕ → S → S) → S → S
  for_up zero i body s = s
  for_up (suc left) i body s = for_up left (suc i) body (body i s)

  -- `for (y …rows) for (x …cols) body`.
  unfoldable pub for_cells : ℕ → ℕ → (ℕ → ℕ → S → S) → S → S
  unfolding for_up
  for_cells rows cols body s = for_up rows 0 (λ y. for_up cols 0 (body y)) s

  -- What every round carries from its index to the next holds at the end.
  pub for_up_inv {κ} :
      (P : ℕ → S → Type κ) (body : ℕ → S → S) (left i end : ℕ) (s : S)
      → ((j : ℕ) (t : S) → i ≤ j → j < end → P j t → P (suc j) (body j t))
      → i + left ≡ end
      → P i s
      → P end (for_up left i body s)
  unfolding for_up
  for_up_inv P body zero i end s keep e h = subst (λ j. P j s) (omega arith) h
  for_up_inv P body (suc left) i end s keep e h =
      for_up_inv P body left (suc i) end (body i s) (λ j t p q. keep j t (omega arith) q)
        (omega arith) (keep i s (omega arith) (omega arith) h)

  -- The same over a grid, whose cells are counted row by row.
  pub for_cells_inv {κ} :
      (P : ℕ → S → Type κ) (rows cols : ℕ) (body : ℕ → ℕ → S → S) (s : S)
      → ((y x : ℕ) (t : S)
          → y < rows
          → x < cols
          → P (y * cols + x) t
          → P (suc (y * cols + x)) (body y x t))
      → P 0 s
      → P (rows * cols) (for_cells rows cols body s)
  unfolding for_cells
  for_cells_inv P rows cols body s keep h =
      for_up_inv (λ y t. P (y * cols) t) (λ y. for_up cols 0 (body y)) rows 0 rows s row
        (omega arith) (subst (λ j. P j s) (omega arith) h)
    where
      row :
          (y : ℕ) (t : S)
          → 0 ≤ y
          → y < rows
          → P (y * cols) t
          → P (suc y * cols) (for_up cols 0 (body y) t)
      row y t _ below p =
          subst (λ j. P j (for_up cols 0 (body y) t)) (omega arith)
            (for_up_inv (λ x u. P (y * cols + x) u) (body y) cols 0 cols t
              (λ x u _ q r. subst (λ j. P j (body y x u)) (omega arith) (keep y x u below q r))
              (omega arith) (subst (λ j. P j t) (omega arith) p))

-- The count of a cell of a grid, row by row.
pub cell_lt : (y x rows cols : ℕ) → y < rows → x < cols → y * cols + x < rows * cols
cell_lt y x rows cols hy hx = let row : (y + 1) * cols ≤ rows * cols = grind arith in omega arith

-- Two cells have different counts.
pub cell_apart :
    (y x y' x' cols : ℕ)
    → x < cols
    → x' < cols
    → (x ≢ x') ⊎ (y ≢ y')
    → y' * cols + x' ≢ y * cols + x
cell_apart y x y' x' cols hx hx' differ same = elim (dec_lt y y') [
  | yes lt ↦ let row : (y + 1) * cols ≤ y' * cols = grind arith in omega arith
  | no ge ↦ elim (dec_lt y' y) [
    | yes gt ↦ let row : (y' + 1) * cols ≤ y * cols = grind arith in omega arith
    | no le ↦ let row : y * cols ≡ y' * cols = ap (λ t. t * cols) (omega arith) in omega arith
  ]
]
