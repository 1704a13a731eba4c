-- ===== src/Base.antt =====
-- Names that every module shares: the libraries', passed on, and those of the children, which
-- model what the Python code uses of its language (`==`, `in`, dicts, sets, exceptions).
mod Equality
mod Lists
mod Numbers
pub mod Membership
pub mod Order
pub mod Result
pub mod Sorting
pub mod Dict
pub mod Text
pub mod Strip
pub mod Sets
unfoldable pub use Equality.*
unfoldable pub use Lists.*
unfoldable pub use Numbers.*
pub use Prim.Native.Nat.{ℕ, zero, suc, ◌+◌, ◌-◌, ◌*◌, ◌/◌, ◌%◌, ◌^◌, ◌≤◌, ◌<◌}
pub use Prim.Native.String.{String, ◌++◌ as ◌<>◌}
pub use mathlib.Core.Path.{◌≡◌, refl, sym, ap, ◌∙◌, subst}
pub use mathlib.Core.Logic.{◌≢◌, ◌↔◌, ◌⊎◌, inl, inr}
pub use mathlib.Core.Bool.{Bool, true, false, not, ◌&&◌, ◌||◌}
pub use mathlib.Core.Option.{Option, none, some}
pub use mathlib.Core.List.{List, [], ◌∷◌, ◌++◌, map}
pub use native.Mathlib.Omega.{arith}
pub use native.Mathlib.Decide.{ℕ_discrete}
