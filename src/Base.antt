-- ===== src/Base.antt =====
-- The names that every module shares: the library's, passed on, and those of the children below,
-- Boolean tests and lists over the native numbers, results, stores, integers and machine words.
mod Logic
mod Lists
mod Results
mod Stores
mod Words
pub use Logic.*
unfoldable pub use Lists.*
pub use Results.*
unfoldable pub use Stores.*
unfoldable pub use Words.*
pub use Prim.Native.Nat.{ℕ, zero, suc, ◌+◌, ◌-◌, ◌*◌, ◌/◌, ◌%◌, ◌^◌, ◌≤◌, ◌<◌, min}
pub use mathlib.Core.Path.{◌≡◌, refl, sym, ap, ◌∙◌}
pub use mathlib.Core.Logic.{◌≢◌, ◌↔◌, ◌⊎◌, inl, inr}
pub use mathlib.Core.Bool.{Bool, true, false, not, ◌&&◌, ◌||◌}
pub use mathlib.Core.Option.{Option, none, some}
pub use mathlib.Core.List.{List, [], ◌∷◌, ◌++◌, map, append-nil, append_assoc}
pub use native.Mathlib.Omega.{arith}
