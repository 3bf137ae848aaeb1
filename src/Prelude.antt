-- ===== src/Prelude.antt =====
-- The names that the other modules share: the libraries', passed on, and those of the children.
mod Tests
mod Lists
mod Raising
mod Equality
mod Members
pub mod Int
pub mod Dict
pub mod DictLaws
pub mod Sort
pub mod Bytes
pub mod Perms
pub use Tests.*
pub use Lists.*
pub use Members.*
pub use Raising.*
pub use Equality.{
  Eq, ◌==◌, nat_eq, string_eq, pair_eq, list_eq, list_beq, beq_refl, beq_false, beq_comm,
  all_of_mem, mem, distinct, All, All₂,
}
pub use Prim.Native.Nat.{ℕ, zero, suc, ◌+◌, ◌-◌, ◌*◌, ◌/◌, ◌%◌, ◌^◌, ◌≤◌, ◌<◌, min, max}
pub use Prim.Native.String.{String}
pub use mathlib.Core.Path.{◌≡◌, refl, sym, ap, ◌∙◌}
pub use mathlib.Core.Logic.{◌≢◌, ◌↔◌, ◌⊎◌, inl, inr}
pub use mathlib.Core.Bool.{Bool, true, false, not, ◌&&◌, ◌||◌}
pub use mathlib.Core.Option.{Option, none, some}
pub use mathlib.Core.List.{List, [], ◌∷◌, ◌++◌, map}
pub use native.Mathlib.Omega.{arith}
