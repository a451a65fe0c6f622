-- ===== src/Prelude.antt =====
-- The names that the other modules share: library names passed on, the Boolean tests, arrays as
-- lists, C integers, and the outcomes of a run.
mod Tests
mod Arrays
mod Words
mod Outcomes
mod Triples
mod Bits
pub use Tests.*
pub use Arrays.*
pub use Words.*
pub use Outcomes.*
pub use Triples.*
pub use Bits.*
pub use Prim.Native.Nat.{ℕ, zero, suc, ◌+◌, ◌-◌, ◌*◌, ◌/◌, ◌%◌, ◌^◌, ◌≤◌, ◌<◌, bit_and, bit_or}
pub use mathlib.Core.Path.{◌≡◌, refl, sym, ap, ◌∙◌, subst}
pub use mathlib.Core.Logic.{◌≢◌, ◌↔◌, ◌⊎◌, inl, inr}
pub use mathlib.Core.Bool.{Bool, true, false, ◌&&◌, ◌||◌, not}
pub use mathlib.Core.Option.{Option, none, some}
pub use mathlib.Core.List.{List, [], ◌∷◌, ◌++◌, map}
pub use native.Mathlib.Omega.{arith}
