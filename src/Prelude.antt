-- ===== src/Prelude.antt =====
-- The names that the other modules share: the libraries', passed on, and those of the children.
pub mod Tests
pub mod Equality
pub mod Lists
pub mod Sets
pub mod Sorting
pub mod Dicts
pub mod Text
pub mod Split
pub mod Int
pub mod Json
pub mod Bytes
pub mod Deadline
pub mod Replace
pub mod Counter
pub mod Steps
pub use Prim.Native.Nat.{ℕ, zero, suc, ◌+◌, ◌-◌, ◌*◌, ◌/◌, ◌%◌, ◌^◌, ◌≤◌, ◌<◌, min, max}
pub use mathlib.Core.Path.{◌≡◌, refl, sym, ap, ◌∙◌, subst}
pub use mathlib.Core.Logic.{◌≢◌, ◌↔◌, ◌⊎◌, inl, inr}
pub use mathlib.Core.Bool.{Bool, true, false, not, ◌&&◌, ◌||◌}
pub use mathlib.Core.Option.{Option, none, some}
pub use mathlib.Core.List.{List, [], ◌∷◌, ◌++◌, map, Mem, Nodup}
pub use native.Mathlib.Omega.{arith}
pub use Tests.{ltb, leb, if◌then◌else◌, Bool-cases, Option-cases}
pub use Equality.{Eq, ◌==◌, nat_eq, list_eq, pair_eq, beq_refl}
