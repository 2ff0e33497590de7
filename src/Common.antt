-- ===== src/Common.antt =====
-- The names that the other modules share: the libraries', passed on, and those of the children
-- (Boolean tests, lists over the native numbers, bit operations as arithmetic, status codes, calls that may
-- fail).
mod Tests
mod Lists
mod Step
mod Xor
mod Bits
mod StatusCode
mod Calls
pub use Tests.*
pub use Lists.*
pub use Bits.*
pub use Step.{LowestOf, bit_and_step}
pub use Xor.{
  bit_xor-zero, bit_xor_comm, bit_xor_swap, bit_xor_join, half-bit_xor, parity-bit_xor, div-bit_xor,
}
pub use StatusCode.*
pub use Calls.*
pub use Prim.Native.Nat.{ℕ, zero, suc, ◌+◌, ◌-◌, ◌*◌, ◌/◌, ◌%◌, ◌^◌, ◌≤◌, ◌<◌}
pub use Prim.Native.Nat.{bit_and, bit_or, bit_xor, min, max}
pub use mathlib.Core.Path.{◌≡◌, refl, sym, ap, ◌∙◌}
pub use mathlib.Core.Logic.{◌≢◌, ◌↔◌, ◌⊎◌, inl, inr}
pub use mathlib.Core.Bool.{Bool, true, false, not, ◌&&◌, ◌||◌}
pub use mathlib.Core.Option.{Option, none, some}
pub use mathlib.Core.List.{List, [], ◌∷◌, ◌++◌, map}
pub use native.Mathlib.Omega.{arith}
