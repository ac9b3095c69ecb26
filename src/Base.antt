-- ===== src/Base.antt =====
-- What the models of the kernel share: tests, C arrays, machine words, bit fields and loops.
mod Tests
mod Lists
mod Indices
mod Words
mod Bits
mod Loops
mod Store
mod Texts
mod Finite
mod Order
mod Options
pub use Tests.*
pub use Lists.*
pub use Indices.*
pub use Words.*
pub use Bits.*
unfoldable pub use Loops.{for_up, for_cells}
pub use Texts.*
pub use Options.*
unfoldable pub use Finite.{holds_below}
pub use Finite.{holds_below-lt}
unfoldable pub use Order.{lt_wf}
unfoldable pub use Store.{Ram, update, load, store}
pub use Store.{store-outside, load-lt, load-agree, load-store_self, load-store_apart}
pub use Loops.{for_up_inv, for_cells_inv, cell_lt, cell_apart}
pub use Prim.Native.Nat.{ℕ, zero, suc, ◌+◌, ◌-◌, ◌*◌, ◌/◌, ◌%◌, ◌^◌, ◌≤◌, ◌<◌, bit_and, bit_or}
pub use mathlib.Core.Path.{◌≡◌, refl, sym, ap, ◌∙◌}
pub use mathlib.Core.Logic.{◌≢◌, ◌↔◌, ◌⊎◌, inl, inr}
pub use mathlib.Core.Bool.{Bool, true, false, ◌&&◌, ◌||◌, not}
pub use mathlib.Core.Option.{Option, none, some}
pub use mathlib.Core.List.{List, [], ◌∷◌, ◌++◌, map, reverse}
pub use native.Mathlib.Omega.{arith}
unfoldable pub use native.Mathlib.Decide.{ℕ_discrete, dec_lt}
